-- ===== src/Limiter/Admission.antt =====
-- internal/limiter/limiter.go: what one admission and one release do to the counts.
use orbit_api.Common.{
  ℕ, zero, suc, ◌+◌, ◌≡◌, refl, inl, inr, Bool, true, false, some, List, [], ◌∷◌, ◌++◌, ◌&&◌, not,
  arith, Bool-cases, if◌then◌else◌,
}
use orbit_api.Common.Int.{ℤ, pos, leb_ℤ}
use orbit_api.Common.Str.{Str, str_eq}
use orbit_api.Common.Branches.{result_either}
use orbit_api.Common.Result.{Result, ok, err}
use orbit_api.Limiter.{
  Float64, RateError, Reservation, OrgState, Memory, put_bucket, admit, admit_organization,
  admit_user, admit_state, available, release_at,
}

-- The reservations of an organization that are held.
unfoldable pub held_by : Str → List Reservation → ℕ
held_by org [] = 0
held_by org (r ∷ rs) =
    let rest = held_by org rs in if not r.released && str_eq r.org_id org then suc rest else rest

pub held_by-append :
    (org : Str) (rs : List Reservation) (r : Reservation)
    → held_by org (rs ++ r ∷ [])
      ≡ held_by org rs + (if not r.released && str_eq r.org_id org then 1 else 0)
unfolding held_by
held_by-append org [] r = ground arith
held_by-append org (x ∷ rs) r = ground (arith, held_by-append org rs r)

-- What a release frees.
pub released_one :
    (n : ℕ) (rs : List Reservation) {org : Str}
    → (release_at n rs).1 ≡ some org
    → (j : Str) → held_by j rs ≡ held_by j (release_at n rs).0 + (if str_eq org j then 1 else 0)
unfolding release_at held_by
released_one n [] e j = cc
released_one zero (r ∷ rs) {org} e j = ground (arith, e)
released_one (suc n) (r ∷ rs) {org} e j = ground (arith, released_one n rs {org = org} e j)

module _ {F : Type 0} (float : Float64 F) where
  -- What an admission does to the organization's count.
  abbrev pub Admission : OrgState float → Result RateError ℤ × OrgState float → Type 0
  Admission s (ok left, s') =
      (s'.inflight ≡ suc s.inflight)
      × (s'.max ≡ s.max)
      × (s'.org_id ≡ s.org_id)
      × (leb_ℤ s.max (pos s.inflight) ≡ false)
  Admission s (err e, s') = (s'.inflight ≡ s.inflight) × (s'.max ≡ s.max) × (s'.org_id ≡ s.org_id)

  admit-Admission :
      (now : ℕ) (m : Memory float) (in_pg : Bool) (user : Str) (s : OrgState float)
      → leb_ℤ s.max (pos s.inflight) ≡ false
      → Admission s (admit float now m in_pg user s)
  unfolding admit put_bucket
  admit-Admission now m true user s free = (refl, refl, refl, free)
  admit-Admission now m false user s free = (refl, refl, refl, free)

  admit_organization-Admission :
      (now : ℕ) (m : Memory float) (in_pg : Bool) (user : Str) (s : OrgState float)
      → Admission s (admit_organization float now m in_pg user s)
  unfolding admit_organization
  admit_organization-Admission now m in_pg user s =
      result_either (Admission s) (available float now s.rpm).0
        (λ remaining. elim (Bool-cases (leb_ℤ s.max (pos s.inflight))) [
          | inl full ↦ rw full (refl, refl, refl)
          | inr free ↦ rw free (admit-Admission now m in_pg user _ free)
        ])
        (λ retry. (refl, refl, refl))

  pub admit_state-Admission :
      (now : ℕ) (m : Memory float) (in_pg : Bool) (user : Str) (s : OrgState float)
      → Admission s (admit_state float now m in_pg user s)
  unfolding admit_state admit_user put_bucket
  admit_state-Admission now m false user s = admit_organization-Admission now m false user s
  admit_state-Admission now m true user s =
      result_either (Admission s) (available float now _).0
        (λ remaining. admit_organization-Admission now m true user _) (λ retry. (refl, refl, refl))

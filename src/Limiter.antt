-- ===== src/Limiter.antt =====
-- internal/limiter/limiter.go: the admission of an organization's requests. The arithmetic of float64
-- is a parameter.
pub mod Admission
pub mod Sound
pub mod Inflight
use orbit_api.Common.{
  ℕ, zero, suc, ◌-◌, Bool, true, false, Option, none, some, List, [], ◌∷◌, ◌++◌, ◌&&◌, not, ltb,
  if◌then◌else◌,
}
use orbit_api.Common.Int.{ℤ, pos, ltb_ℤ, leb_ℤ, ◌-ℤ◌}
use orbit_api.Common.Str.{Str, str_eq, is_empty}
use orbit_api.Common.Table.{lookup, update, has}
use orbit_api.Common.Result.{Result, ok, err}

-- float64, its comparisons, and the conversions of the source: of an int, to an int, of the time
-- between two times in seconds, and of seconds to a time.Duration.
pub record Float64 (F : Type 0) : Type 0 where
  pub plus : F → F → F
  pub minus : F → F → F
  pub times : F → F → F
  pub over : F → F → F
  pub lesser : F → F → F
  pub at_least : F → F → Bool
  pub below : F → F → Bool
  pub of_int : ℤ → F
  pub to_int : F → ℤ
  pub seconds_between : ℕ → ℕ → F
  pub duration : F → ℤ

-- config.RateLimitWindow and config.RateLimits
pub record RateLimitWindow : Type 0 where
  pub requests_per_minute : ℤ
  pub burst : ℤ
  pub concurrent : ℤ

pub record RateLimits : Type 0 where
  pub organization : RateLimitWindow
  pub playground : RateLimitWindow

pub data Scope : Type 0 where
  in_playground in_organization in_concurrency : Scope

pub record RateError : Type 0 where
  pub scope : Scope
  pub limit : ℤ
  pub remaining : ℤ
  pub retry_after : ℤ

abbrev pub second : ℤ
second = pos 1000000000

unfoldable pub rate_error : Scope → ℤ → ℤ → ℤ → RateError
rate_error scope limit remaining retry = record {
  scope = scope;
  limit = limit;
  remaining = remaining;
  retry_after = if ltb_ℤ retry second then second else retry;
}

-- A Release runs once. It is that of an organization.
pub record Reservation : Type 0 where
  pub org_id : Str
  pub released : Bool

-- Release of one reservation, the first time that it is called.
unfoldable pub release_at : ℕ → List Reservation → List Reservation × Option Str
release_at n [] = ([], none)
release_at zero (r ∷ rs) =
    if r.released then (r ∷ rs, none) else (record r { released = true } ∷ rs, some r.org_id)
release_at (suc n) (r ∷ rs) = let (rest, org) = release_at n rs in (r ∷ rest, org)

pub data Call : Type 0 where
  allowing : ℕ → Str → Str → Bool → Call
  releasing : ℕ → Call

module _ {F : Type 0} (float : Float64 F) where
  pub record TokenBucket : Type 0 where
    pub rate : F
    pub burst : F
    pub tokens : F
    pub last : ℕ

  pub record UserBucket : Type 0 where
    pub user_id : Str
    pub bucket : TokenBucket

  pub record OrgState : Type 0 where
    pub org_id : Str
    pub rpm : TokenBucket
    pub inflight : ℕ
    pub max : ℤ
    pub playground : List UserBucket

  pub record Memory : Type 0 where
    pub limits : RateLimits
    pub orgs : List OrgState

  abbrev pub state_key : OrgState → Str
  state_key s = s.org_id

  unfoldable pub new_memory : RateLimits → Memory
  new_memory limits = record {
    limits =
        if ltb_ℤ limits.organization.concurrent (pos 1)
        then record limits { organization = record limits.organization { concurrent = pos 1 } }
        else limits;
    orgs = [];
  }

  abbrev at_least_one : ℤ → ℤ
  at_least_one n = if ltb_ℤ n (pos 1) then pos 1 else n

  unfoldable pub new_bucket : ℕ → ℤ → ℤ → TokenBucket
  new_bucket now rpm burst = record {
    rate = float.over (float.of_int (at_least_one rpm)) (float.of_int (pos 60));
    burst = float.of_int (at_least_one burst);
    tokens = float.of_int (at_least_one burst);
    last = now;
  }

  unfoldable pub refill : ℕ → TokenBucket → TokenBucket
  refill now b =
      let elapsed = float.seconds_between b.last now in
      if float.below (float.of_int (pos 0)) elapsed
      then record b {
        tokens = float.lesser b.burst (float.plus b.tokens (float.times elapsed b.rate));
        last = now;
      }
      else b

  abbrev pub one : F
  one = float.of_int (pos 1)

  -- What is left, or the time to wait; and the bucket, refilled.
  unfoldable pub available : ℕ → TokenBucket → Result ℤ ℤ × TokenBucket
  available now b =
      let full = refill now b in
      let wait = float.over (float.minus one full.tokens) full.rate in
      let zero_at_least =
        if float.below wait (float.of_int (pos 0)) then float.of_int (pos 0) else wait in
      (
        if float.at_least full.tokens one
            then ok (float.to_int full.tokens -ℤ pos 1)
            else err (float.duration zero_at_least),
        full,
      )

  unfoldable pub take : TokenBucket → TokenBucket
  take b = if float.at_least b.tokens one then record b { tokens = float.minus b.tokens one } else b

  -- state: an organization that is new has all of its tokens.
  abbrev pub new_state : ℕ → Memory → Str → OrgState
  new_state now m org = record {
    org_id = org;
    rpm = new_bucket now m.limits.organization.requests_per_minute m.limits.organization.burst;
    inflight = 0;
    max = m.limits.organization.concurrent;
    playground = [];
  }

  unfoldable pub state_of : ℕ → Memory → Str → OrgState
  state_of now m org = elim (lookup state_key org m.orgs) [
    | none ↦ new_state now m org
    | some s ↦ s
  ]

  unfoldable pub put_state : OrgState → Memory → Memory
  put_state s m = record m {
    orgs =
        if has state_key s.org_id m.orgs
        then update state_key s.org_id (λ old. record s { org_id = old.org_id }) m.orgs
        else m.orgs ++ s ∷ [];
  }

  abbrev pub user_key : UserBucket → Str
  user_key u = u.user_id

  unfoldable pub playground_bucket : ℕ → RateLimitWindow → Str → OrgState → TokenBucket
  playground_bucket now window user s = elim (lookup user_key user s.playground) [
    | none ↦ new_bucket now window.requests_per_minute window.burst
    | some u ↦ u.bucket
  ]

  unfoldable pub put_bucket : Str → TokenBucket → OrgState → OrgState
  put_bucket user b s = record s {
    playground =
        if has user_key user s.playground
        then update user_key user (λ old. record { user_id = user; bucket = b }) s.playground
        else s.playground ++ record { user_id = user; bucket = b } ∷ [];
  }

  -- The request is admitted.
  unfoldable pub admit : ℕ → Memory → Bool → Str → OrgState → Result RateError ℤ × OrgState
  admit now m in_pg user s =
      let paid =
        if in_pg
        then put_bucket user (take (playground_bucket now m.limits.playground user s)) s
        else s in
      (
        ok (float.to_int (take s.rpm).tokens),
        record paid { rpm = take s.rpm; inflight = suc s.inflight },
      )

  -- From the look at the organization's own bucket on.
  unfoldable pub admit_organization :
      ℕ → Memory → Bool → Str → OrgState → Result RateError ℤ × OrgState
  admit_organization now m in_pg user s =
      let limit = m.limits.organization.requests_per_minute in
      let (left, full) = available now s.rpm in
      let s' = record s { rpm = full } in
      elim left [
        | err retry ↦ (err (rate_error in_organization limit (pos 0) retry), s')
        | ok remaining ↦
            if leb_ℤ s.max (pos s.inflight)
            then (err (rate_error in_concurrency limit (float.to_int full.tokens) second), s')
            else admit now m in_pg user s'
      ]

  -- A user of the playground has a bucket of their own.
  unfoldable pub admit_user :
      ℕ → Memory → Str → Result ℤ ℤ × TokenBucket → OrgState → Result RateError ℤ × OrgState
  admit_user now m user (left, full) s = elim left [
    | err retry ↦ (
      err (rate_error in_playground m.limits.playground.requests_per_minute (pos 0) retry),
      put_bucket user full s,
    )
    | ok remaining ↦ admit_organization now m true user (put_bucket user full s)
  ]

  unfoldable pub admit_state : ℕ → Memory → Bool → Str → OrgState → Result RateError ℤ × OrgState
  admit_state now m in_pg user s =
      if in_pg
      then admit_user now m user (available now (playground_bucket now m.limits.playground user s))
          s
      else admit_organization now m in_pg user s

  -- What a caller holds: the memory and the reservations that were given out.
  pub record Held : Type 0 where
    pub memory : Memory
    pub reservations : List Reservation

  -- Allow. Without an organization there is nothing to count.
  unfoldable pub allow : ℕ → Str → Str → Bool → Held → Result RateError ℤ × Held
  allow now org user playground h =
      let (admitted, s) =
        admit_state now h.memory (playground && not (is_empty user)) user
          (state_of now h.memory org) in
      if is_empty org then (ok (pos 0), h) else (
        admitted,
        record {
          memory = put_state s h.memory;
          reservations = elim admitted [
            | ok left ↦ h.reservations ++ record { org_id = org; released = false } ∷ []
            | err e ↦ h.reservations
          ];
        },
      )

  abbrev pub give_back : OrgState → OrgState
  give_back s = record s { inflight = s.inflight - 1 }

  unfoldable pub release : ℕ → Held → Held
  release n h =
      let (rs, freed) = release_at n h.reservations in
      elim freed [
        | none ↦ h
        | some org ↦ record {
          memory = record h.memory { orgs = update state_key org give_back h.memory.orgs };
          reservations = rs;
        }
      ]

  unfoldable pub perform : Call → Held → Held
  perform (allowing now org user playground) h = (allow now org user playground h).1
  perform (releasing n) h = release n h

  unfoldable pub perform_all : List Call → Held → Held
  perform_all [] h = h
  perform_all (c ∷ cs) h = perform_all cs (perform c h)

  abbrev pub fresh : RateLimits → Held
  fresh limits = record { memory = new_memory limits; reservations = [] }

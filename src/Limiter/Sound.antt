-- ===== src/Limiter/Sound.antt =====
-- internal/limiter/limiter.go: the rows of the limiter and its reservations keep step.
use orbit_api.Common.{
  ℕ, zero, suc, ◌-◌, ◌≡◌, refl, sym, ap, ◌∙◌, inl, inr, Bool, true, false, Option, none, some, List,
  [], ◌∷◌, ◌++◌, arith, Bool-cases, Option-cases, if◌then◌else◌,
}
use orbit_api.Common.Int.{ℤ, pos, leb_ℤ, ltb_ℤ}
use orbit_api.Common.Str.{Str, str_eq, str_eq-eq, is_empty}
use orbit_api.Common.Branches.{if_either, option_either}
use orbit_api.Common.Table.{
  lookup, update, has, lookup_key, lookup-update_self, lookup-update_ne, lookup-append_self,
  lookup-append_ne, update_absent, rows_kept, has-lookup, has-found,
}
use orbit_api.Common.Result.{Result, ok, err}
use orbit_api.Limiter.{
  Float64, RateLimits, RateError, Reservation, OrgState, Memory, state_key, state_of, new_state,
  put_state, Held, allow, give_back, release_at, release, Call, allowing, releasing, perform,
  perform_all, fresh, new_memory,
}
use orbit_api.Limiter.Admission.{
  held_by, held_by-append, released_one, Admission, admit_state-Admission,
}

module _ {F : Type 0} (float : Float64 F) where
  -- The count of an organization, which is nothing before its first request.
  abbrev pub count_of : Option (OrgState float) → ℕ
  count_of none = 0
  count_of (some s) = s.inflight

  abbrev pub inflight_of : Str → List (OrgState float) → ℕ
  inflight_of org os = count_of (lookup (state_key float) org os)

  -- The most that the configuration allows, and no more.
  abbrev Bounded : Memory float → OrgState float → Type 0
  Bounded m s = (leb_ℤ (pos s.inflight) s.max ≡ true) × (s.max ≡ m.limits.organization.concurrent)

  pub record Sound (h : Held float) : Type 0 where
    pub counted : (org : Str) → inflight_of org h.memory.orgs ≡ held_by org h.reservations
    pub capped :
        (org : Str) (s : OrgState float)
        → lookup (state_key float) org h.memory.orgs ≡ some s
        → Bounded h.memory s
    pub room : leb_ℤ (pos 0) h.memory.limits.organization.concurrent ≡ true

  -- The state of an organization is found where it was put.
  put_found :
      (org : Str) (s : OrgState float) (m : Memory float)
      → s.org_id ≡ org
      → lookup (state_key float) org (put_state float s m).orgs ≡ some s
  unfolding put_state
  put_found org s m same = elim (Bool-cases (has (state_key float) s.org_id m.orgs)) [
    | inl there ↦
        let (old, found) = has-found (state_key float) s.org_id m.orgs there in
        let key = lookup_key (state_key float) s.org_id m.orgs found in
        rw there (
          rw (sym same) (
            lookup-update_self (state_key float) s.org_id (λ x. record s { org_id = x.org_id })
              m.orgs found refl
            ∙ ap (λ (k : Str). some (record s { org_id = k })) key))
    | inr missing ↦ rw missing (
        rw (sym same) (
          lookup-append_self (state_key float) s m.orgs
            (has-lookup (state_key float) s.org_id m.orgs missing)))
  ]

  put_other :
      (j : Str) (s : OrgState float) (m : Memory float)
      → str_eq s.org_id j ≡ false
      → lookup (state_key float) j (put_state float s m).orgs ≡ lookup (state_key float) j m.orgs
  unfolding put_state
  put_other j s m other = elim (Bool-cases (has (state_key float) s.org_id m.orgs)) [
    | inl there ↦ rw there (
        lookup-update_ne (state_key float) j s.org_id (λ x. record s { org_id = x.org_id }) m.orgs
          other (λ r. refl))
    | inr missing ↦ rw missing (lookup-append_ne (state_key float) j s m.orgs other)
  ]

  -- What state gives: the organization's row, or a new one.
  record Looked (org : Str) (h : Held float) (s : OrgState float) : Type 0 where
    named : s.org_id ≡ org
    inflight_held : s.inflight ≡ held_by org h.reservations
    below : Bounded h.memory s

  state_of-Looked :
      (now : ℕ) (org : Str) (h : Held float)
      → Sound h
      → Looked org h (state_of float now h.memory org)
  unfolding state_of
  state_of-Looked now org h sound = looks (lookup (state_key float) org h.memory.orgs) refl
    where
      looks :
          (found : Option (OrgState float))
          → lookup (state_key float) org h.memory.orgs ≡ found
          → Looked org h (
              let s : OrgState float = elim found [
                | none ↦ new_state float now h.memory org
                | some x ↦ x
              ] in
              s)
      looks none e = record {
        named = refl;
        inflight_held = sym (ap count_of e) ∙ sound.counted org;
        below = (sound.room, refl);
      }
      looks (some s) e = record {
        named = lookup_key (state_key float) org h.memory.orgs e;
        inflight_held = sym (ap count_of e) ∙ sound.counted org;
        below = sound.capped org s e;
      }

  -- A state that is put back with this count.
  put_counted :
      (org : Str) (s : OrgState float) (m : Memory float) (j : Str)
      → s.org_id ≡ org
      → inflight_of j (put_state float s m).orgs
        ≡ (if str_eq org j then s.inflight else inflight_of j m.orgs)
  put_counted org s m j same = elim (Bool-cases (str_eq org j)) [
    | inl here ↦
        let eq : org ≡ j = str_eq-eq org j here in
        rw here (ap count_of (put_found j s m (same ∙ eq)))
    | inr other ↦ rw other (ap count_of (put_other j s m (rw same other)))
  ]

  put_capped :
      (org : Str) (s : OrgState float) (h : Held float)
      → Sound h
      → s.org_id ≡ org
      → Bounded h.memory s
      → (j : Str) (x : OrgState float)
      → lookup (state_key float) j (put_state float s h.memory).orgs ≡ some x
      → Bounded h.memory x
  put_capped org s h sound same below j x found = elim (Bool-cases (str_eq org j)) [
    | inl here ↦
        let eq : org ≡ j = str_eq-eq org j here in
        let row : some s ≡ some x = sym (put_found j s h.memory (same ∙ eq)) ∙ found in
        let is : s ≡ x = cc in rw (sym is) below
    | inr other ↦ sound.capped j x (sym (put_other j s h.memory (rw same other)) ∙ found)
  ]

  abbrev Allowed : Str → Held float → Result RateError ℤ × OrgState float → Held float
  Allowed org h x = record {
    memory = put_state float x.1 h.memory;
    reservations = elim x.0 [
      | ok left ↦ h.reservations ++ record { org_id = org; released = false } ∷ []
      | err e ↦ h.reservations
    ];
  }

  allowed-Sound :
      (org : Str) (h : Held float) (s : OrgState float) (x : Result RateError ℤ × OrgState float)
      → Sound h
      → Looked org h s
      → Admission float s x
      → Sound (Allowed org h x)
  unfolding put_state
  allowed-Sound org h s (ok left, s') sound l (grown, same_max, same_id, free) = record {
    counted = λ j.
        let put = put_counted org s' h.memory j (same_id ∙ l.named) in
        let more = held_by-append j h.reservations (record { org_id = org; released = false }) in
        let before = sound.counted j in
        elim (Bool-cases (str_eq org j)) [
          | inl here ↦
              let eq : org ≡ j = str_eq-eq org j here in
              let was : s.inflight ≡ held_by j h.reservations = rw (sym eq) l.inflight_held in
              ground (arith, put, more, here, was, grown)
          | inr other ↦ ground (arith, put, more, other, before)
        ];
    capped =
        put_capped org s' h sound (same_id ∙ l.named)
          (rw grown (rw same_max (ground (arith, free))), same_max ∙ l.below.1);
    room = sound.room;
  }
  allowed-Sound org h s (err e, s') sound l (same_count, same_max, same_id) = record {
    counted = λ j.
        let put = put_counted org s' h.memory j (same_id ∙ l.named) in
        let before = sound.counted j in
        elim (Bool-cases (str_eq org j)) [
          | inl here ↦
              let eq : org ≡ j = str_eq-eq org j here in
              let was : s.inflight ≡ held_by j h.reservations = rw (sym eq) l.inflight_held in
              ground (arith, put, here, was, same_count)
          | inr other ↦ ground (arith, put, other, before)
        ];
    capped =
        put_capped org s' h sound (same_id ∙ l.named)
          (rw same_count (rw same_max l.below.0), same_max ∙ l.below.1);
    room = sound.room;
  }

  allow-Sound :
      (now : ℕ) (org user : Str) (playground : Bool) (h : Held float)
      → Sound h
      → Sound (allow float now org user playground h).1
  unfolding allow
  allow-Sound now org user playground h sound =
      if_either (λ (r : Result RateError ℤ × Held float). Sound r.1) (is_empty org) sound
        (allowed-Sound org h (state_of float now h.memory org) _ sound
          (state_of-Looked now org h sound)
          (admit_state-Admission float now h.memory _ user (state_of float now h.memory org)))

  -- What is freed was counted.
  pub released_none :
      (n : ℕ) (rs : List Reservation) → (release_at n rs).1 ≡ none → (release_at n rs).0 ≡ rs
  unfolding release_at
  released_none n [] e = refl
  released_none zero (r ∷ rs) e = ground (arith, e)
  released_none (suc n) (r ∷ rs) e = ground (arith, released_none n rs e)

  freed_row :
      (org j : Str) (os : List (OrgState float))
      → inflight_of j (update (state_key float) org (give_back float) os)
        ≡ (if str_eq org j then inflight_of j os - 1 else inflight_of j os)
  freed_row org j os = elim (Bool-cases (str_eq org j)) [
    | inl here ↦
        let eq : org ≡ j = str_eq-eq org j here in
        elim (Option-cases (lookup (state_key float) org os)) [
          | inl missing ↦
              let same = update_absent (state_key float) org (give_back float) os missing in
              let nothing : inflight_of j os ≡ 0 = rw (sym eq) (ap count_of missing) in
              rw here (rw same (ground (arith, nothing)))
          | inr (s, found) ↦
              let now = lookup-update_self (state_key float) org (give_back float) os found refl in
              let after : inflight_of j (update (state_key float) org (give_back float) os)
                  ≡ s.inflight - 1 =
                rw (sym eq) (ap count_of now) in
              let before : inflight_of j os ≡ s.inflight = rw (sym eq) (ap count_of found) in
              rw here (after ∙ ap (λ (n : ℕ). n - 1) (sym before))
        ]
    | inr other ↦ rw other (
        ap count_of
          (lookup-update_ne (state_key float) j org (give_back float) os other (λ r. refl)))
  ]

  release-Sound : (n : ℕ) (h : Held float) → Sound h → Sound (release float n h)
  unfolding release
  release-Sound n h sound = frees (release_at n h.reservations).1 refl
    where
      frees :
          (freed : Option Str)
          → (release_at n h.reservations).1 ≡ freed
          → Sound (
              let after : Held float = elim freed [
                | none ↦ h
                | some org ↦ record {
                  memory = record h.memory {
                    orgs = update (state_key float) org (give_back float) h.memory.orgs;
                  };
                  reservations = (release_at n h.reservations).0;
                }
              ] in
              after)
      frees none e = sound
      frees (some org) e = record {
        counted = λ j.
            let row = freed_row org j h.memory.orgs in
            let one = released_one n h.reservations {org = org} e j in
            let before = sound.counted j in ground (arith, row, one, before);
        capped =
            rows_kept (state_key float) (λ j s. Bounded h.memory s) org (give_back float)
              h.memory.orgs (λ s. refl) (λ j s below. (ground (arith, below.0), below.1))
              sound.capped;
        room = sound.room;
      }

  pub perform_all-Sound :
      (cs : List Call) (h : Held float) → Sound h → Sound (perform_all float cs h)
  unfolding perform_all perform
  perform_all-Sound [] h sound = sound
  perform_all-Sound (allowing now org user playground ∷ cs) h sound =
      perform_all-Sound cs _ (allow-Sound now org user playground h sound)
  perform_all-Sound (releasing n ∷ cs) h sound = perform_all-Sound cs _ (release-Sound n h sound)

  -- The configuration is not changed.
  perform_limits : (c : Call) (h : Held float) → (perform float c h).memory.limits ≡ h.memory.limits
  unfolding perform allow release put_state
  perform_limits (allowing now org user playground) h =
      if_either (λ (r : Result RateError ℤ × Held float). r.1.memory.limits ≡ h.memory.limits)
        (is_empty org) refl refl
  perform_limits (releasing n) h =
      option_either (λ (x : Held float). x.memory.limits ≡ h.memory.limits)
        (release_at n h.reservations).1 refl (λ org. refl)

  pub perform_all_limits :
      (cs : List Call) (h : Held float) → (perform_all float cs h).memory.limits ≡ h.memory.limits
  unfolding perform_all
  perform_all_limits [] h = refl
  perform_all_limits (c ∷ cs) h = perform_all_limits cs (perform float c h) ∙ perform_limits c h

  pub fresh-Sound : (limits : RateLimits) → Sound (fresh float limits)
  unfolding new_memory held_by lookup
  fresh-Sound limits = record {
    counted = λ org. refl;
    capped = λ org s found. cc;
    room = elim (Bool-cases (ltb_ℤ limits.organization.concurrent (pos 1))) [
      | inl low ↦ rw low refl
      | inr high ↦ rw high (ground (arith, high))
    ];
  }

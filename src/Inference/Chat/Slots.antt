-- ===== src/Inference/Chat/Slots.antt =====
-- internal/services/inference/service.go: a chat request gives its place in the rate limiter back.
use orbit_api.Limiter
use orbit_api.Common.{
  not, ◌∷◌, ◌++◌, ◌⊎◌, length, Bool, List, ℕ, ◌≡◌, refl, sym, ap, ◌∙◌, inl, inr, true, false, none,
  some, [], arith,
}
use orbit_api.Common.Branches.{if_known, result_known, result_either}
use orbit_api.Common.Result.{err, ok, Result}
use orbit_api.Common.Int.{pos, ℤ}
use orbit_api.Common.Str.{Str}
use orbit_api.Billing.Queue.{JobCodec}
use orbit_api.Billing.Holds.{Hold}
use orbit_api.Limiter.Inflight.{perform_all-append, perform_all_held}
use orbit_api.Limiter.Sound.{inflight_of}
use orbit_api.Limiter.{
  releasing, allowing, fresh, perform, perform_all, Call, RateLimits, RateError, Held, Reservation,
  allow, Float64, release_at,
}
use orbit_api.Limiter.Admission.{held_by-append, held_by}
use orbit_api.Inference.Dispatch.{
  dispatch_chat, Outside, Provider, ChatResult, ChatError, ModelCatalogue,
}
use orbit_api.Inference.Request.{chat_input_text, chat_is_valid, ChatRequest}
use orbit_api.Inference.Relay.{StreamSink}
use orbit_api.Inference.Payload.{Decoder}
use orbit_api.Inference.Chat.{
  bill, chat, handle_chat, Server, gated, Dispatcher, place_hold_for, resolve_model, Setting,
  admitted_request, held_request,
}
use orbit_api.Inference.Tokens.{estimate_input_tokens}

released_last :
    (rs : List Reservation) (org : Str)
    → release_at (length rs) (rs ++ record { org_id = org; released = false } ∷ [])
      ≡ (rs ++ record { org_id = org; released = true } ∷ [], some org)
unfolding release_at
released_last [] org = refl
released_last (r ∷ rs) org = rw (released_last rs org) refl

released_none : (rs : List Reservation) → release_at (length rs) rs ≡ (rs, none)
unfolding release_at
released_none [] = refl
released_none (r ∷ rs) = rw (released_none rs) refl

module _ {F : Type 0} (float : Float64 F) where
  -- Allow and the release of what it gave out.
  abbrev around : ℕ → Str → Str → Bool → Held float → Held float
  around now org user playground h =
      Limiter.release float (length h.reservations) (allow float now org user playground h).1

  refused_reservations :
      (now : ℕ) (org user : Str) (playground : Bool) (h : Held float) {x : RateError}
      → (allow float now org user playground h).0 ≡ err x
      → (allow float now org user playground h).1.reservations ≡ h.reservations
  unfolding allow
  refused_reservations now [] user playground h e = cc
  refused_reservations now (c ∷ cs) user playground h e =
      result_known (λ (r : List Reservation). r ≡ h.reservations)
        (allow float now (c ∷ cs) user playground h).0 (λ left went. absurd (cc (went, e)))
        (λ x' failed. refl)

  release-none :
      (n : ℕ) (h : Held float)
      → release_at n h.reservations ≡ (h.reservations, none)
      → (Limiter.release float n h).reservations ≡ h.reservations
  unfolding Limiter.release
  release-none n h e = ground (arith, e)

  release-some :
      (n : ℕ) (h : Held float) {rs : List Reservation} {org : Str}
      → release_at n h.reservations ≡ (rs, some org)
      → (Limiter.release float n h).reservations ≡ rs
  unfolding Limiter.release
  release-some n h e = ground (arith, e)

  -- A request that is admitted adds a reservation of its organization, if it has one.
  admitted_reservations :
      (now : ℕ) (org user : Str) (playground : Bool) (h : Held float) {n : ℤ}
      → (allow float now org user playground h).0 ≡ ok n
      → ((allow float now org user playground h).1.reservations ≡ h.reservations)
        ⊎ ((allow float now org user playground h).1.reservations
            ≡ h.reservations ++ record { org_id = org; released = false } ∷ [])
  unfolding allow
  admitted_reservations now [] user playground h e = inl refl
  admitted_reservations now (c ∷ cs) user playground h e = inr (
      result_known
        (λ (r : List Reservation).
          r ≡ h.reservations ++ record { org_id = c ∷ cs; released = false } ∷ [])
        (allow float now (c ∷ cs) user playground h).0 (λ left went. refl)
        (λ x failed. absurd (cc (failed, e))))

  around_held :
      (now : ℕ) (org user : Str) (playground : Bool) (h : Held float) {n : ℤ}
      → (allow float now org user playground h).0 ≡ ok n
      → (j : Str)
      → held_by j (around now org user playground h).reservations ≡ held_by j h.reservations
  around_held now org user playground h e j =
      let n = length h.reservations in
      let h' = (allow float now org user playground h).1 in
      elim (admitted_reservations now org user playground h e) [
        | inl same ↦
            let gone : release_at n h'.reservations ≡ (h'.reservations, none) =
              rw same (released_none h.reservations) in
            ap (held_by j) (release-none n h' gone ∙ same)
        | inr one_more ↦
            let last : release_at n h'.reservations
                ≡ (h.reservations ++ record { org_id = org; released = true } ∷ [], some org) =
              rw one_more (released_last h.reservations org) in
            ap (held_by j) (release-some n h' last)
            ∙ held_by-append j h.reservations (record { org_id = org; released = true })
            ∙ omega arith
      ]

  -- States that calls lead to have the same counts where they have as many reservations.
  same_counts :
      (limits : RateLimits) (cs cs' : List Call) {h h' : Held float}
      → h ≡ perform_all float cs (fresh float limits)
      → h' ≡ perform_all float cs' (fresh float limits)
      → (j : Str) → held_by j h'.reservations ≡ held_by j h.reservations
      → inflight_of float j h'.memory.orgs ≡ inflight_of float j h.memory.orgs
  same_counts limits cs cs' one two j same =
      let before = perform_all_held float limits cs j in
      let after = perform_all_held float limits cs' j in
      rw (one, two) (after ∙ (rw (one, two) at same) ∙ sym before)

  then_performed :
      (limits : RateLimits) (cs : List Call) (c : Call) {h : Held float}
      → h ≡ perform_all float cs (fresh float limits)
      → perform float c h ≡ perform_all float (cs ++ c ∷ []) (fresh float limits)
  then_performed limits cs c reached =
      ap (perform float c) reached ∙ sym (perform_all-append float cs c (fresh float limits))

module _ {F : Type 0} (float : Float64 F) {S : Type 0} where
  held_limiter :
      (e : Setting) (text : Str) (dispatch : Dispatcher float S) (entry : ModelCatalogue) (h : Hold)
      (w : Server float S)
      → (held_request float S e text dispatch entry h w).1.limiter ≡ w.limiter
  unfolding held_request
  held_limiter e text dispatch entry h w =
      result_either (λ (r : Result ChatError ChatResult × Server float S). r.1.limiter ≡ w.limiter)
        (dispatch entry h.max_tokens w.client).0 (λ r. refl) (λ x. refl)

  admitted_limiter :
      (e : Setting) (model text : Str) (requested : ℤ) (dispatch : Dispatcher float S)
      (w : Server float S)
      → (admitted_request float S e model text requested dispatch w).1.limiter ≡ w.limiter
  unfolding admitted_request
  admitted_limiter e model text requested dispatch w =
      result_either (λ (r : Result ChatError ChatResult × Server float S). r.1.limiter ≡ w.limiter)
        (resolve_model e.catalogue model)
        (λ entry.
          result_either
            (λ (r : Result ChatError ChatResult × Server float S). r.1.limiter ≡ w.limiter)
            (place_hold_for e entry.id (pos (estimate_input_tokens text)) requested w.db).0
            (λ h. held_limiter e text dispatch entry h _) (λ x. refl))
        (λ x. refl)

  gated_limiter :
      (e : Setting) (valid : Bool) (model text : Str) (requested : ℤ)
      (dispatch : Dispatcher float S) (limits : RateLimits) (cs : List Call) (w : Server float S)
      → w.limiter ≡ perform_all float cs (fresh float limits)
      → (j : Str)
      → inflight_of float j
          (gated float S e valid model text requested dispatch w).1.limiter.memory.orgs
        ≡ inflight_of float j w.limiter.memory.orgs
  unfolding gated perform
  gated_limiter e valid model text requested dispatch limits cs w reached j =
      let org = e.organization_id in
      let n = length w.limiter.reservations in
      let admitting = allowing e.now org e.user_id e.playground in
      let h = (allow float e.now org e.user_id e.playground w.limiter).1 in
      let reached1 : h ≡ perform_all float (cs ++ admitting ∷ []) (fresh float limits) =
        then_performed float limits cs admitting reached in
      let reached2 = then_performed float limits (cs ++ admitting ∷ []) (releasing n) reached1 in
      let inner =
        admitted_request float S e model text requested dispatch (record w { limiter = h }) in
      let kept : inner.1.limiter ≡ h =
        admitted_limiter e model text requested dispatch (record w { limiter = h }) in
      if_known
        (λ (r : Result ChatError ChatResult × Server float S).
          inflight_of float j r.1.limiter.memory.orgs ≡ inflight_of float j w.limiter.memory.orgs)
        (not valid) (λ bad. refl)
        λ good.
          result_known
            (λ (r : Result ChatError ChatResult × Server float S).
              inflight_of float j r.1.limiter.memory.orgs
              ≡ inflight_of float j w.limiter.memory.orgs)
            (allow float e.now org e.user_id e.playground w.limiter).0
            (λ left went. rw kept (
              same_counts float limits cs _ reached reached2 j
                (around_held float e.now org e.user_id e.playground w.limiter went j)))
            (λ x failed. same_counts float limits cs _ reached reached1 j (
              ap (held_by j)
                (refused_reservations float e.now org e.user_id e.playground w.limiter failed)))

-- However a chat request ends (refused, with an error of the provider, or answered and billed), each
-- organization's requests in flight are what they were before it: its place in the rate limiter is
-- given back. (The limiter's state is one that calls of Allow and Release lead to.)
pub handle_chat_gives_back :
    {F J S : Type 0} (float : Float64 F) (dec : Decoder) (provider : Provider)
    (outside : Outside F J S) (sink : StreamSink S) (codec : JobCodec) (e : Setting) (model : Str)
    (r : ChatRequest F) (limits : RateLimits) (cs : List Call) (w : Server float S)
    → w.limiter ≡ perform_all float cs (fresh float limits)
    → (j : Str)
    → inflight_of float j
        (handle_chat float S dec provider outside sink codec e model r w).limiter.memory.orgs
      ≡ inflight_of float j w.limiter.memory.orgs
unfolding handle_chat chat bill
handle_chat_gives_back {S = S} float dec provider outside sink codec e model r limits cs w reached
      j =
    let back =
      gated_limiter float e (chat_is_valid r) model (chat_input_text r) r.max_tokens
        (λ entry max.
          dispatch_chat float dec provider outside sink entry (record r { max_tokens = max }))
        limits cs w reached j in
    result_either
      (λ (x : Server float S).
        inflight_of float j x.limiter.memory.orgs ≡ inflight_of float j w.limiter.memory.orgs)
      (chat float S dec provider outside sink codec e model r w).0 (λ a. back) (λ x. back)

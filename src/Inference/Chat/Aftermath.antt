-- ===== src/Inference/Chat/Aftermath.antt =====
-- internal/services/inference/service.go: what Chat and Converse leave behind, before the billing.
use orbit_api.Common.Branches.{if_either, result_either}
use orbit_api.Common.{not, Bool, ◌≡◌, ◌≢◌, ◌⊎◌, refl, sym, ap, ◌∙◌, inl, inr, some, []}
use orbit_api.Common.Result.{Result, ok, err}
use orbit_api.Common.Int.{pos, ℤ}
use orbit_api.Common.Str.{Str}
use orbit_api.Store.{Db}
use orbit_api.Billing.Processor.Effect.{place_hold-Places}
use orbit_api.Billing.Holds.{Hold, HoldPlanner, place_hold}
use orbit_api.Limiter.{Held, allow, Float64}
use orbit_api.Inference.Chat.Reserves.{fill_keeps_hold, place_hold_for-cases}
use orbit_api.Inference.Dispatch.{ModelCatalogue, ChatResult, ChatError}
use orbit_api.Inference.Chat.{
  resolve_model, Dispatcher, Server, admitted_request, gated, held_request, Setting,
}
use orbit_api.Inference.Chat.Refunds.{release_after_place, Answers, Cost}
use orbit_api.Inference.Tokens.{estimate_input_tokens}

module _ {F S : Type 0} (float : Float64 F) where
  -- An answer, with its hold open.
  pub record Served (e : Setting) (w : Server float S) (r : ChatResult) (w' : Server float S)
      : Type 0 where
    pub hold : Hold
    pub plan : HoldPlanner
    pub placed :
        place_hold e.link e.now e.hold_id e.organization_id e.reserver.threshold e.reserver.hold_ttl
          (some plan)
          w.db
        ≡ (ok hold, w'.db)
    pub same_id : r.hold_id ≡ e.hold_id
    pub queue_same : w'.queue ≡ w.queue

  -- What Chat leaves: without an answer the database as it was, or a request that has cost nothing.
  abbrev pub After :
      Setting → Server float S → Result ChatError ChatResult × Server float S → Type 0
  After e w p = elim p.0 [
    | err x ↦ (p.1.db ≡ w.db) ⊎ Cost e.organization_id e.now (pos 0) w.db p.1.db
    | ok r ↦ Served e w r p.1
  ]

  held-After :
      (e : Setting) (text : Str) (dispatch : Dispatcher float S) (entry : ModelCatalogue) (h : Hold)
      (plan : HoldPlanner) (w w1 : Server float S)
      → Answers e.link_after
      → e.hold_id ≢ []
      → w1.queue ≡ w.queue
      → place_hold e.link e.now e.hold_id e.organization_id e.reserver.threshold e.reserver.hold_ttl
          (some plan)
          w.db
        ≡ (ok h, w1.db)
      → After e w (held_request float S e text dispatch entry h w1)
  unfolding held_request
  held-After e text dispatch entry h plan w w1 quiet named queue placed =
      let id : h.id ≡ e.hold_id =
        ap (λ (x : Hold). x.id)
          (place_hold-Places e.link e.now e.hold_id e.organization_id _ _ plan w.db
            placed).sized.answer in
      result_either (After e w) (dispatch entry h.max_tokens w1.client).0
        (λ r. record {
          hold = h;
          plan = plan;
          placed = placed;
          same_id = fill_keeps_hold text (record r { hold_id = h.id }) ∙ id;
          queue_same = queue;
        })
        (λ x. inr (
          rw id (
            release_after_place e.link e.link_after e.now e.now_after e.hold_id e.organization_id _
              _ plan w.db quiet named placed)))

  admitted-After :
      (e : Setting) (model text : Str) (requested : ℤ) (dispatch : Dispatcher float S)
      (w w1 : Server float S)
      → Answers e.link_after
      → e.hold_id ≢ []
      → w1.queue ≡ w.queue
      → w1.db ≡ w.db
      → After e w (admitted_request float S e model text requested dispatch w1)
  unfolding admitted_request
  admitted-After e model text requested dispatch w w1 quiet named queue same =
      result_either (After e w) (resolve_model e.catalogue model)
        (λ entry.
          elim (place_hold_for-cases e entry.id (pos (estimate_input_tokens text)) requested w1.db
            named) [
              | inl (x, failed, kept) ↦ rw failed (inl (kept ∙ same))
              | inr (h, plan, went, placed) ↦ rw went (
                  held-After e text dispatch entry h plan w _ quiet named queue (
                    ap
                      (λ (d : Db).
                        place_hold e.link e.now e.hold_id e.organization_id e.reserver.threshold
                          e.reserver.hold_ttl (some plan) d)
                      (sym same)
                    ∙ placed))
            ])
        (λ x. inl same)

  -- The limiter has no part in it.
  After-relimited :
      (e : Setting) (w : Server float S) (answer : Result ChatError ChatResult)
      (w' : Server float S) (l : Held float)
      → After e w (answer, w')
      → After e w (answer, record w' { limiter = l })
  After-relimited e w (err x) w' l left = left
  After-relimited e w (ok r) w' l s = record {
    hold = s.hold;
    plan = s.plan;
    placed = s.placed;
    same_id = s.same_id;
    queue_same = s.queue_same;
  }

  pub gated-After :
      (e : Setting) (valid : Bool) (model text : Str) (requested : ℤ)
      (dispatch : Dispatcher float S) (w : Server float S)
      → Answers e.link_after
      → e.hold_id ≢ []
      → After e w (gated float S e valid model text requested dispatch w)
  unfolding gated
  gated-After e valid model text requested dispatch w quiet named =
      if_either (After e w) (not valid) (inl refl) (
        result_either (After e w)
          (allow float e.now e.organization_id e.user_id e.playground w.limiter).0
          (λ left.
            After-relimited e w _ _ _
              (admitted-After e model text requested dispatch w _ quiet named refl refl))
          (λ x. inl refl))

-- ===== src/Inference/Chat/Reserves.antt =====
-- internal/services/inference/service.go: the ways in which a hold for a request is placed, or not.
use orbit_api.Common.{
  Bool-cases, ◌||◌, ℕ, ◌≡◌, ◌≢◌, ◌⊎◌, refl, sym, ap, inl, inr, false, some, [], ◌∷◌, arith,
}
use orbit_api.Common.Result.{Result-cases, ok, err}
use orbit_api.Common.Int.{pos, ltb_ℤ, ℤ}
use orbit_api.Common.Str.{is_empty, Str}
use orbit_api.Store.Tx.{low_on_credits, transact-eq-err, Error, Link}
use orbit_api.Store.{Db}
use orbit_api.Billing.Processor.{
  low_credits, planner, load_pricing, ReserveRequest, Reserver, reserve,
}
use orbit_api.Billing.Processor.Effect.{place_hold-Places}
use orbit_api.Billing.Holds.{place_hold_tx, Hold, HoldPlanner, place_hold}
use orbit_api.Inference.Dispatch.{ChatResult, refused, ChatError}
use orbit_api.Inference.Chat.{fill_cancelled_input, Setting, place_hold_for}

-- A place that fails leaves the database.
place_hold-err :
    (link : Link) (now : ℕ) (hold_id org : Str) (threshold ttl : ℤ) (plan : HoldPlanner) (d : Db)
    {x : Error}
    → (place_hold link now hold_id org threshold ttl (some plan) d).0 ≡ err x
    → (place_hold link now hold_id org threshold ttl (some plan) d).1 ≡ d
unfolding place_hold
place_hold-err link now hold_id [] threshold ttl plan d e = refl
place_hold-err link now hold_id (c ∷ cs) threshold ttl plan d e =
    transact-eq-err link (place_hold_tx link now hold_id (c ∷ cs) threshold ttl plan) d e

-- Reserve places its hold with a planner, or leaves the database.
reserve-cases :
    (link : Link) (now : ℕ) (hold_id : Str) (r : Reserver) (q : ReserveRequest) (d : Db)
    → ((x : Error) × ((reserve link now hold_id r q d).0 ≡ err x)
        × ((reserve link now hold_id r q d).1 ≡ d))
      ⊎ ((h : Hold) × (plan : HoldPlanner) × ((reserve link now hold_id r q d).0 ≡ ok h)
          × (place_hold link now hold_id q.organization_id r.threshold r.hold_ttl (some plan) d
              ≡ (ok h, (reserve link now hold_id r q d).1)))
unfolding reserve
reserve-cases link now hold_id r q d = elim (Bool-cases (is_empty q.organization_id)) [
  | inl nobody ↦ rw nobody (inl (low_on_credits, refl, refl))
  | inr someone ↦ elim (Result-cases (load_pricing link q.catalogue_id d)) [
    | inr (x, failed) ↦ rw someone (rw failed (inl (x, refl, refl)))
    | inl (price, loaded) ↦
        let plan = planner r q price in
        let placing =
          place_hold link now hold_id q.organization_id r.threshold r.hold_ttl (some plan) d in
        elim (Result-cases placing.0) [
          | inl (h, went) ↦
              rw someone (rw loaded (inr (h, plan, rw went refl, ground (arith, went))))
          | inr (x, failed) ↦
              let same =
                place_hold-err link now hold_id q.organization_id r.threshold r.hold_ttl plan d
                  failed in
              rw someone (rw loaded (inl (low_credits x, rw failed refl, same)))
        ]
  ]
]

named_not_empty : (s : Str) → s ≢ [] → is_empty s ≡ false
named_not_empty [] named = absurd (named refl)
named_not_empty (c ∷ cs) named = refl

-- What PlaceHold answers passes the guard of placeHold.
usable :
    (h : Hold) (link : Link) (now : ℕ) (hold_id org : Str) (threshold ttl : ℤ) (plan : HoldPlanner)
    (d : Db) {d' : Db}
    → hold_id ≢ []
    → place_hold link now hold_id org threshold ttl (some plan) d ≡ (ok h, d')
    → (is_empty h.id || ltb_ℤ h.max_tokens (pos 1)) ≡ false
usable h link now hold_id org threshold ttl plan d named placed =
    let s = (place_hold-Places link now hold_id org threshold ttl plan d placed).sized in
    let id : h.id ≡ hold_id = ap (λ (x : Hold). x.id) s.answer in
    let tokens = ap (λ (x : Hold). x.max_tokens) s.answer in
    let a = rw (sym id) at (named_not_empty hold_id named) in
    let b = s.tokens_positive in ground (arith, a, b, tokens)

pub place_hold_for-cases :
    (e : Setting) (catalogue_id : Str) (input_tokens requested : ℤ) (d : Db)
    → e.hold_id ≢ []
    → ((x : ChatError) × ((place_hold_for e catalogue_id input_tokens requested d).0 ≡ err x)
        × ((place_hold_for e catalogue_id input_tokens requested d).1 ≡ d))
      ⊎ ((h : Hold) × (plan : HoldPlanner) × ((place_hold_for e catalogue_id input_tokens requested
              d).0
            ≡ ok h)
          × (place_hold e.link e.now e.hold_id e.organization_id e.reserver.threshold
                e.reserver.hold_ttl
                (some plan)
                d
              ≡ (ok h, (place_hold_for e catalogue_id input_tokens requested d).1)))
unfolding place_hold_for
place_hold_for-cases e catalogue_id input_tokens requested d named =
    let q : ReserveRequest = record {
      organization_id = e.organization_id;
      catalogue_id = catalogue_id;
      input_tokens = input_tokens;
      requested_max_tokens = requested;
    } in
    elim (Bool-cases (is_empty e.organization_id)) [
      | inl nobody ↦ rw nobody (inl (refused low_on_credits, refl, refl))
      | inr someone ↦ elim (reserve-cases e.link e.now e.hold_id e.reserver q d) [
        | inl (x, failed, same) ↦ rw someone (rw failed (inl (refused x, refl, same)))
        | inr (h, plan, went, placed) ↦ rw someone (
            rw went (
              rw (usable h e.link e.now e.hold_id e.organization_id _ _ plan d named placed)
                (inr (h, plan, refl, placed))))
      ]
    ]

pub fill_keeps_hold :
    (text : Str) (r : ChatResult) → (fill_cancelled_input text r).hold_id ≡ r.hold_id
unfolding fill_cancelled_input
fill_keeps_hold text r = ground arith

-- ===== src/Inference/Chat/Costs.antt =====
-- internal/services/inference/service.go: what a chat request costs, on each way that it can end.
use orbit_api.Common.Str.{str_eq_refl, is_empty-eq, is_empty, codes, str_eq, Str}
use orbit_api.Common.Table.{lookup}
use orbit_api.Common.Branches.{result_known}
use orbit_api.Common.{
  ap₂, arith, Bool-cases, Option-cases, true, inl, inr, ℕ, ◌≡◌, ◌≢◌, ◌⊎◌, refl, sym, ap, ◌∙◌, false,
  some, [],
}
use orbit_api.Common.Result.{Result, ok, err}
use orbit_api.Common.Int.{ltb_ℤ, ◌≤ℤ◌, pos, ℤ, ◌+ℤ◌, ◌-ℤ◌}
use orbit_api.Store.{pricing_key, ModelPricing, Db}
use orbit_api.Store.Tx.{Error, Link}
use orbit_api.Billing.Charge.{charge_micros}
use orbit_api.Billing.Ledger.{success, actual_of}
use orbit_api.Billing.Processor.{
  get_by_catalogue_id, load_pricing, process_job, params_of, vendor_amount, Job,
}
use orbit_api.Billing.Queue.Kept.{vendor_amount-answered, vendor_amount-prices}
use orbit_api.Billing.History.{perform, placing}
use orbit_api.Billing.Processor.Request.{place_then_record}
use orbit_api.Billing.Queue.Once.{process_job-ok}
use orbit_api.Billing.Queue.{Shared, enqueue, publish, JobCodec}
use orbit_api.Billing.History.Stays.Performed.{perform-Stays}
use orbit_api.Billing.Holds.Steps.{spend}
use orbit_api.Billing.Holds.{Hold, HoldPlanner, place_hold}
use orbit_api.Limiter.{Float64}
use orbit_api.Inference.Dispatch.{ModelCatalogue, Outside, ChatResult, ChatError}
use orbit_api.Inference.Request.{ConverseRequest}
use orbit_api.Inference.Chat.{is_2xx, err_body_of, bill, usage_job, Server, Setting}
use orbit_api.Inference.Chat.Aftermath.{After, Served}
use orbit_api.Inference.Bytes.{Bytes}
use orbit_api.Inference.Chat.Refunds.{place_hold-Held, Cost}

place_keeps_prices :
    (link : Link) (now : ℕ) (hold_id org : Str) (threshold ttl : ℤ) (plan : HoldPlanner) (d : Db)
    {h : Hold} {d1 : Db}
    → place_hold link now hold_id org threshold ttl (some plan) d ≡ (ok h, d1)
    → d1.pricing ≡ d.pricing
unfolding perform
place_keeps_prices link now hold_id org threshold ttl plan d placed =
    ap (λ (p : Result Error Hold × Db). p.1.pricing) (sym placed)
    ∙ (perform-Stays link (placing now hold_id org threshold ttl plan) d).prices_same

-- The job of a result.
abbrev pub job_of : Setting → Bytes → ChatResult → Job
job_of e text r = usage_job e text (err_body_of r) r

-- What a job costs at an amount: nothing, unless its status is a success.
abbrev cost_of : Job → ℤ → ℤ
cost_of j a = spend (actual_of (params_of j a))

-- What a result costs: the vendor's price of its tokens, if its status is a success and it names a
-- model, and else nothing.
pub data IsPrice (d : Db) (r : ChatResult) : ℤ → Type 0 where
  priced :
      (price : ModelPricing)
      → pos 200 ≤ℤ r.status_code
      → r.status_code ≤ℤ pos 299
      → lookup pricing_key r.model_catalogue_id d.pricing ≡ some price
      → IsPrice d r (
          charge_micros r.input_tokens r.output_tokens price.vendor_input_per_million_micros
            price.vendor_output_per_million_micros)
  free :
      (r.status_code ≤ℤ pos 199) ⊎ (pos 300 ≤ℤ r.status_code) ⊎ (r.model_catalogue_id ≡ [])
      → IsPrice d r (pos 0)

failed_is_not_success : str_eq (codes "error") success ≡ false
unfolding str_eq
failed_is_not_success = refl

failed_status :
    (r : ChatResult)
    → is_2xx r ≡ false
    → (r.status_code ≤ℤ pos 199) ⊎ (pos 300 ≤ℤ r.status_code) ⊎ (r.model_catalogue_id ≡ [])
unfolding is_2xx
failed_status r failed = elim (Bool-cases (ltb_ℤ r.status_code (pos 200))) [
  | inl low ↦ inl (ground (arith, low))
  | inr rest ↦ inr (inl (ground (arith, failed, rest)))
]

good_status :
    (r : ChatResult) → is_2xx r ≡ true → (pos 200 ≤ℤ r.status_code) × (r.status_code ≤ℤ pos 299)
unfolding is_2xx
good_status r good = (ground (arith, good), ground (arith, good))

job-IsPrice :
    (e : Setting) (text : Bytes) (r : ChatResult) (d : Db) {a : ℤ}
    → vendor_amount (λ st. false) (job_of e text r) d ≡ ok a
    → (b : ℤ) × IsPrice d r b × (cost_of (job_of e text r) a ≡ spend b)
unfolding vendor_amount load_pricing get_by_catalogue_id usage_job
job-IsPrice e text r d {a} answer = elim (Bool-cases (is_2xx r)) [
  | inr failed ↦
      (pos 0, free (failed_status r failed), ground (arith, failed, failed_is_not_success))
  | inl good ↦ elim (Bool-cases (is_empty r.model_catalogue_id)) [
    | inl unnamed ↦ (
      pos 0,
      free (inr (inr (is_empty-eq r.model_catalogue_id unnamed))),
      ground (arith, good, unnamed, answer),
    )
    | inr named ↦ elim (Option-cases (lookup pricing_key r.model_catalogue_id d.pricing)) [
      | inl missing ↦ absurd (ground (arith, good, named, missing, answer, str_eq_refl success))
      | inr (price, found) ↦
          let (least, most) = good_status r good in
          (
            _,
            priced price least most found,
            ground (arith, good, named, found, answer, str_eq_refl success),
          )
    ]
  ]
]

module _ {F S : Type 0} (float : Float64 F) (codec : JobCodec) (e : Setting) (text : Bytes) where
  -- How a request ends: with an error, for nothing; with an answer that is charged at the price of its
  -- tokens; or with an answer whose job goes to the queue.
  pub data Ended (answer : Result ChatError ChatResult) (w w' : Server float S) : Type 0 where
    unserved :
        (x : ChatError)
        → answer ≡ err x
        → (w'.db ≡ w.db) ⊎ Cost e.organization_id e.now (pos 0) w.db w'.db
        → Ended answer w w'
    charged :
        (r : ChatResult) (price : ℤ)
        → answer ≡ ok r
        → IsPrice w.db r price
        → Cost e.organization_id e.now (spend price) w.db w'.db
        → Ended answer w w'
    queued :
        (r : ChatResult)
        → answer ≡ ok r
        → w'.queue ≡ publish codec e.sent (job_of e text r) w.queue
        → Ended answer w w'

  billed-Ended :
      (r : ChatResult) (w w1 : Server float S)
      → e.hold_id ≢ []
      → Served float e w r w1
      → Ended (ok r) w (bill float S codec e text r w1)
  unfolding bill enqueue usage_job
  billed-Ended r w w1 named s =
      let j = job_of e text r in
      let d1 = w1.db in
      let org = e.organization_id in
      let same_job : j.hold_id ≡ e.hold_id = s.same_id in
      let held = place_hold-Held e.link e.now e.hold_id org _ _ s.plan w.db s.placed in
      let prices = place_keeps_prices e.link e.now e.hold_id org _ _ s.plan w.db s.placed in
      let after = (process_job e.link_after e.now_after e.request_id j d1).1 in
      result_known (λ (x : Shared). Ended (ok r) w (record w1 { db = x.db; queue = x.queue }))
        (process_job e.link_after e.now_after e.request_id j d1).0
        (λ u went.
          let whole = ap (λ (x : Result Error (Unit {0})). (x, after)) went in
          let (a, price, answer, recorded) =
            process_job-ok e.link_after e.now_after e.request_id j d1 whole in
          let (o', found, remaining, used) =
            place_then_record e.link e.link_after e.now e.now_after e.hold_id org e.request_id _ _
              s.plan (params_of j a) w.db held.row s.placed held.row_found same_job named
              recorded in
          let (b, is_price, same_cost) = job-IsPrice e text r w.db (
            sym (vendor_amount-prices (λ st. false) j w.db d1 prices)
            ∙ vendor_amount-answered e.link_after j d1 price) in
          charged r b refl is_price (record {
            before = held.before;
            before_found = held.before_found;
            after = o';
            after_found = found;
            remaining = remaining ∙ ap₂ (λ (x y : ℤ). x -ℤ y) held.sized same_cost;
            used = used ∙ ap₂ (λ (x y : ℤ). x +ℤ y) held.used_same same_cost;
          }))
        (λ x failed. queued r refl (ap (publish codec e.sent j) s.queue_same))

  -- The end of a route, of which it is known what it left.
  pub After-Ended :
      (answer : Result ChatError ChatResult) (w w' : Server float S)
      → e.hold_id ≢ []
      → After float e w (answer, w')
      → Ended answer w (elim answer [ err x ↦ w' | ok r ↦ bill float S codec e text r w' ])
  After-Ended (err x) w w' named left = unserved x refl left
  After-Ended (ok r) w w' named s = billed-Ended r w w' named s

-- What a result of Chat may be by the Responses API: any that it gives.
abbrev pub BySomeCall : {F J S : Type 0} → Outside F J S → ModelCatalogue → ChatResult → Type 0
BySomeCall {F} {J} {S} outside entry r =
    (q : ConverseRequest F J) × (s : S) × ((outside.call_mantle entry q s).0 ≡ ok r)

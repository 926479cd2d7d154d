-- ===== src/Billing/Processor.antt =====
-- internal/services/billing: reserving credits before a request, and processing its billing job.
pub mod Effect
pub mod Request
use orbit_api.Common.{
  ℕ, Bool, true, false, Option, none, some, List, [], ◌∷◌, ◌&&◌, not, if◌then◌else◌,
}
use orbit_api.Common.Int.{ℤ, pos, ltb_ℤ}
use orbit_api.Common.Word.{add64, mul64}
use orbit_api.Common.Str.{Str, str_eq, is_empty}
use orbit_api.Common.Table.{lookup}
use orbit_api.Common.Result.{Result, ok, err}
use orbit_api.Store.{ModelPricing, Db, pricing_key}
use orbit_api.Store.Tx.{
  Link, Error, insufficient_credits, low_on_credits, required, no_pricing_row, not_answered,
  load_price,
}
use orbit_api.Billing.Charge.{charge_micros}
use orbit_api.Billing.HoldPlan.{PlanError, HoldPlan, compute_hold}
use orbit_api.Billing.Holds.{Hold, HoldPlanner, SettleResult, place_hold}
use orbit_api.Billing.Sweep.{release_hold}
use orbit_api.Billing.Ledger.{success, RecordParams, record_usage}

-- GetByCatalogueID: no row is no error.
unfoldable pub get_by_catalogue_id : Link → Str → Db → Result Error (Option ModelPricing)
get_by_catalogue_id link id d =
    if link load_price then err (not_answered load_price) else ok (lookup pricing_key id d.pricing)

-- The price, which must be there.
unfoldable pub load_pricing : Link → Str → Db → Result Error ModelPricing
load_pricing link id d = elim (get_by_catalogue_id link id d) [
  | err e ↦ err e
  | ok none ↦ err no_pricing_row
  | ok (some price) ↦ ok price
]

-- What NewReserver keeps of the configuration.
pub record Reserver : Type 0 where
  pub threshold : ℤ
  pub default_max : ℤ
  pub hold_ttl : ℤ

-- A time.Duration counts nanoseconds: a second and a minute.
abbrev pub second : ℤ
second = pos 1000000000

abbrev pub minute : ℤ
minute = pos 60000000000

unfoldable pub new_reserver : ℤ → ℤ → ℤ → Reserver
new_reserver low_balance_threshold_micros default_output_tokens inference_timeout_seconds =
    let ttl = add64 (mul64 inference_timeout_seconds second) minute in
    record {
      threshold =
          if ltb_ℤ low_balance_threshold_micros (pos 1)
          then pos 10000
          else low_balance_threshold_micros;
      default_max = if ltb_ℤ default_output_tokens (pos 1) then pos 4096 else default_output_tokens;
      hold_ttl = if ltb_ℤ ttl (mul64 (pos 2) minute) then mul64 (pos 6) minute else ttl;
    }

pub record ReserveRequest : Type 0 where
  pub organization_id : Str
  pub catalogue_id : Str
  pub input_tokens : ℤ
  pub requested_max_tokens : ℤ

-- The planner that Reserve hands to PlaceHold.
unfoldable pub planner : Reserver → ReserveRequest → ModelPricing → HoldPlanner
planner r q price available =
    elim (compute_hold q.input_tokens q.requested_max_tokens r.default_max
      price.vendor_input_per_million_micros price.vendor_output_per_million_micros available
      r.threshold) [
        | ok plan ↦ ok (plan.amount_micros, plan.max_tokens)
        | err e ↦ err low_on_credits
      ]

-- Either kind of missing credits is reported as ErrLowCredits.
abbrev pub low_credits : Error → Error
low_credits insufficient_credits = low_on_credits
low_credits e = e

unfoldable pub reserve : Link → ℕ → Str → Reserver → ReserveRequest → Db → Result Error Hold × Db
reserve link now hold_id r q d =
    if is_empty q.organization_id
    then (err low_on_credits, d)
    else elim (load_pricing link q.catalogue_id d) [
      | err e ↦ (err e, d)
      | ok price ↦
          let (placed, d') =
            place_hold link now hold_id q.organization_id r.threshold r.hold_ttl
              (some (planner r q price)) d in
          (elim placed [ ok h ↦ ok h | err e ↦ err (low_credits e) ], d')
    ]

unfoldable pub release : Link → ℕ → Str → Db → Result Error (Unit {0}) × Db
release link now hold_id d =
    if is_empty hold_id
    then (ok tt, d)
    else let (settled, d') = release_hold link now hold_id d in
      (elim settled [ ok s ↦ ok tt | err e ↦ err e ], d')

pub record Job : Type 0 where
  pub idempotency_key : Str
  pub organization_id : Str
  pub api_key_id : Str
  pub model_catalogue_id : Str
  pub prompt : Str
  pub input_tokens : ℤ
  pub output_tokens : ℤ
  pub latency_ms : ℤ
  pub status : Str
  pub error : Str
  pub hold_id : Str

abbrev pub params_of : Job → ℤ → RecordParams
params_of j amount = record {
  idempotency_key = j.idempotency_key;
  organization_id = j.organization_id;
  api_key_id = j.api_key_id;
  model_catalogue_id = j.model_catalogue_id;
  prompt = j.prompt;
  input_tokens = j.input_tokens;
  output_tokens = j.output_tokens;
  latency_ms = j.latency_ms;
  status = j.status;
  error = j.error;
  amount_micros = amount;
  vendor_amount_micros = amount;
  hold_id = j.hold_id;
}

-- What the job costs at the vendor's prices: nothing, if it failed or names no model.
unfoldable pub vendor_amount : Link → Job → Db → Result Error ℤ
vendor_amount link j d =
    if str_eq j.status success && not (is_empty j.model_catalogue_id)
    then elim (load_pricing link j.model_catalogue_id d) [
      | err e ↦ err e
      | ok price ↦ ok (
          charge_micros j.input_tokens j.output_tokens price.vendor_input_per_million_micros
            price.vendor_output_per_million_micros)
    ]
    else ok (pos 0)

-- Process
unfoldable pub process_job : Link → ℕ → Str → Job → Db → Result Error (Unit {0}) × Db
process_job link now request_id j d =
    if is_empty j.idempotency_key then (err required, d) else elim (vendor_amount link j d) [
      | err e ↦ (err e, d)
      | ok amount ↦
          let (settled, d') = record_usage link now request_id (params_of j amount) d in
          (elim settled [ ok s ↦ ok tt | err e ↦ err e ], d')
    ]

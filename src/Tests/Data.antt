-- ===== src/Tests/Data.antt =====
-- A database with one organization that was granted a dollar, and what opens the model for a run.
use orbit_api.Common.{true, false, none, [], ◌∷◌}
use orbit_api.Common.Int.{pos, ◌+ℤ◌, ◌-ℤ◌, ◌*ℤ◌}
use orbit_api.Common.Word.{wrap64, add64, sub64, mul64, div64, in_range}
use orbit_api.Common.Str.{Str, codes, str_eq}
use orbit_api.Common.Table.{lookup, update, has}
use orbit_api.Store.{Organization, CreditLedgerEntry, ModelPricing, Plan, Db}
use orbit_api.Store.Tx.{Link}
use orbit_api.Billing.Charge.{charge_micros, charge_micros_ceil, max_tokens_for_budget}
use orbit_api.Billing.HoldPlan.{output_cap, affordable_out, freeze, clamp_and_freeze, compute_hold}
use orbit_api.Billing.Holds.{
  write_credits, expired_sum, expired_count, settle_expired, reclaim_expired_holds_tx_count,
  reclaim_expired_holds_tx, hold_seconds, insert_credit_hold, debit_hold_tx, place_sized, size_hold,
  place_hold_tx, place_hold, mark_settled, apply_settlement_tx, settle_locked, settle_found,
  settle_hold_tx,
}
use orbit_api.Billing.Holds.Sums.{open_sum}
use orbit_api.Billing.Invariants.{entry_sum}
use orbit_api.Billing.Sweep.{
  release_hold, any_expired, expired_organizations, reclaim_each, release_expired_tx,
  release_expired_holds, reclaim_for_org_tx, reclaim_expired_for_org, debit_usage_tx,
}
use orbit_api.Billing.Ledger.{
  grant, fits_integer, references, new_request, request_tx, append_entry, insert_entry, usage_tx,
  debit_swept, settle_recorded, debit_recorded, charge_tx, record_tx, record_usage, apply_grant_tx,
  grant_on, grant_credits, RecordParams, success,
}

-- Naming this opens every function that a run goes through.
unfoldable pub runs : Unit {0}
unfolding ◌+ℤ◌ ◌-ℤ◌ ◌*ℤ◌ wrap64 add64 sub64 mul64 div64 in_range str_eq lookup update has
    charge_micros charge_micros_ceil max_tokens_for_budget output_cap affordable_out freeze
    clamp_and_freeze compute_hold write_credits expired_sum expired_count settle_expired
    reclaim_expired_holds_tx_count reclaim_expired_holds_tx hold_seconds insert_credit_hold
    debit_hold_tx place_sized size_hold place_hold_tx place_hold mark_settled apply_settlement_tx
    settle_locked settle_found settle_hold_tx open_sum entry_sum release_hold any_expired
    expired_organizations reclaim_each release_expired_tx release_expired_holds reclaim_for_org_tx
    reclaim_expired_for_org debit_usage_tx fits_integer references new_request request_tx
    append_entry insert_entry usage_tx debit_swept settle_recorded debit_recorded charge_tx
    record_tx record_usage apply_grant_tx grant_on grant_credits
runs = tt

-- A database that answers every statement.
abbrev pub answers : Link
answers s = false

abbrev pub acme : Str
acme = codes "acme"

abbrev pub acme_row : Organization
acme_row = record {
  id = acme;
  name = acme;
  slug = acme;
  description = [];
  created_by = codes "ann";
  plan_slug = [];
  dodo_subscription_id = [];
  credits_granted_micros = pos 1000000;
  credits_used_micros = pos 0;
  credits_remaining_micros = pos 1000000;
}

abbrev pub first_grant : CreditLedgerEntry
first_grant = record {
  organization_id = acme;
  inference_request_id = none;
  entry_type = grant;
  amount_micros = pos 1000000;
  vendor_amount_micros = pos 0;
  idempotency_key = codes "signup";
  note = [];
  created_at = 1;
}

abbrev pub sonnet : ModelPricing
sonnet = record {
  model_catalogue_id = codes "sonnet";
  vendor_input_per_million_micros = pos 2000000;
  vendor_output_per_million_micros = pos 10000000;
}

abbrev pub free_plan : Plan
free_plan = record {
  id = codes "p0";
  slug = codes "free";
  name = codes "Free";
  dodo_product_id = [];
  price_micros = pos 0;
  credits_micros = pos 0;
  sort_order = pos 0;
  is_active = true;
  max_organizations = none;
  max_members_per_org = none;
}

abbrev pub pro_plan : Plan
pro_plan = record free_plan {
  id = codes "p1";
  slug = codes "pro";
  name = codes "Pro";
  sort_order = pos 2;
}

abbrev pub team_plan : Plan
team_plan = record free_plan {
  id = codes "p2";
  slug = codes "team";
  name = codes "Team";
  sort_order = pos 3;
}

abbrev pub wallet : Db
wallet = record {
  organizations = acme_row ∷ [];
  holds = [];
  ledger = first_grant ∷ [];
  requests = [];
  pricing = sonnet ∷ [];
  plans = free_plan ∷ pro_plan ∷ team_plan ∷ [];
  invoices = [];
  api_key_ids = [];
  model_ids = codes "sonnet" ∷ [];
}

-- A request of 200 tokens that was answered with 100, under the hold `h`.
abbrev pub answered : Str → RecordParams
answered h = record {
  idempotency_key = codes "k1";
  organization_id = acme;
  api_key_id = [];
  model_catalogue_id = codes "sonnet";
  prompt = codes "hi";
  input_tokens = pos 200;
  output_tokens = pos 100;
  latency_ms = pos 900;
  status = success;
  error = [];
  amount_micros = pos 1400;
  vendor_amount_micros = pos 1400;
  hold_id = h;
}

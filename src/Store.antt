-- ===== src/Store.antt =====
-- The database as the repositories see it: the rows of internal/model and of migrations/, one list
-- for each table. Ids are opaque texts; a time is a number of microseconds.
pub mod Tx
use orbit_api.Common.{ℕ, Bool, true, false, Option, none, some, List, ◌&&◌}
use orbit_api.Common.Int.{ℤ, pos, leb_ℤ}
use orbit_api.Common.Str.{Str}

pub record Organization : Type 0 where
  pub id : Str
  pub name : Str
  pub slug : Str
  pub description : Str
  pub created_by : Str
  pub plan_slug : Str
  pub dodo_subscription_id : Str
  pub credits_granted_micros : ℤ
  pub credits_used_micros : ℤ
  pub credits_remaining_micros : ℤ

pub record CreditHold : Type 0 where
  pub id : Str
  pub organization_id : Str
  pub amount_micros : ℤ
  pub created_at : ℕ
  pub expires_at : ℕ
  pub settled_at : Option ℕ

-- `id` of this table is never read by the operations here, and is left out.
pub record CreditLedgerEntry : Type 0 where
  pub organization_id : Str
  pub inference_request_id : Option Str
  pub entry_type : Str
  pub amount_micros : ℤ
  pub vendor_amount_micros : ℤ
  pub idempotency_key : Str
  pub note : Str
  pub created_at : ℕ

pub record InferenceRequest : Type 0 where
  pub id : Str
  pub organization_id : Str
  pub api_key_id : Option Str
  pub model_catalogue_id : Option Str
  pub prompt : Str
  pub input_tokens : ℤ
  pub output_tokens : ℤ
  pub latency_ms : ℤ
  pub status : Str
  pub error : Str
  pub idempotency_key : Str
  pub created_at : ℕ

pub record ModelPricing : Type 0 where
  pub model_catalogue_id : Str
  pub vendor_input_per_million_micros : ℤ
  pub vendor_output_per_million_micros : ℤ

pub record Plan : Type 0 where
  pub id : Str
  pub slug : Str
  pub name : Str
  pub dodo_product_id : Str
  pub price_micros : ℤ
  pub credits_micros : ℤ
  pub sort_order : ℤ
  pub is_active : Bool
  pub max_organizations : Option ℤ
  pub max_members_per_org : Option ℤ

-- An invoice is found by its payment, and its `id` and `created_at` are never read here.
pub record Invoice : Type 0 where
  pub organization_id : Str
  pub payment_id : Str
  pub invoice_id : Str
  pub plan_slug : Str
  pub amount : ℤ
  pub currency : Str
  pub status : Str
  pub refund_status : Str
  pub subscription_id : Str
  pub paid_at : ℕ

pub record Db : Type 0 where
  pub organizations : List Organization
  pub holds : List CreditHold
  pub ledger : List CreditLedgerEntry
  pub requests : List InferenceRequest
  pub pricing : List ModelPricing
  pub plans : List Plan
  pub invoices : List Invoice
  pub api_key_ids : List Str
  pub model_ids : List Str

-- The keys by which rows are found.
abbrev pub org_key : Organization → Str
org_key o = o.id

abbrev pub hold_key : CreditHold → Str
hold_key h = h.id

abbrev pub entry_key : CreditLedgerEntry → Str
entry_key e = e.idempotency_key

abbrev pub request_key : InferenceRequest → Str
request_key r = r.idempotency_key

abbrev pub request_id_key : InferenceRequest → Str
request_id_key r = r.id

abbrev pub pricing_key : ModelPricing → Str
pricing_key p = p.model_catalogue_id

abbrev pub plan_key : Plan → Str
plan_key p = p.slug

abbrev pub plan_id_key : Plan → Str
plan_id_key p = p.id

abbrev pub product_key : Plan → Str
product_key p = p.dodo_product_id

abbrev pub invoice_key : Invoice → Str
invoice_key i = i.payment_id

abbrev pub id_key : Str → Str
id_key i = i

-- CONSTRAINT organizations_credits_non_negative. The remaining credits may be negative.
abbrev pub credits_allowed : Organization → Bool
credits_allowed o = leb_ℤ (pos 0) o.credits_granted_micros && leb_ℤ (pos 0) o.credits_used_micros

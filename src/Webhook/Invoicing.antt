-- ===== src/Webhook/Invoicing.antt =====
-- internal/services/webhook/dodo.go: the invoice of a payment.
pub mod Frame
use orbit_api.Common.{ℕ, Bool, true, false, Option, none, some, List, [], ◌∷◌, ◌||◌, if◌then◌else◌}
use orbit_api.Common.Int.{ℤ, pos, ltb_ℤ, leb_ℤ}
use orbit_api.Common.Str.{Str, codes, is_empty}
use orbit_api.Common.Result.{Result, ok, err}
use orbit_api.Invoices.{UpsertParams, or_else, upsert}
use orbit_api.Webhook.Text.{trim_space, first_non_empty}
use orbit_api.Webhook.Provider.{Payment, get_payment, latest_subscription_payment}
use orbit_api.Webhook.Object.{DodoObject, empty_object, payment_id_of, amount_of}
use orbit_api.Webhook.Resolve.{org_id_from_payment, organization_in}
use orbit_api.Webhook.Act.{Env, Act, pure, run, choose, when_some}

-- What is known from the event alone.
abbrev pub from_object : DodoObject → Str → Str → UpsertParams
from_object obj org plan_slug = record {
  organization_id = org;
  payment_id = payment_id_of obj;
  invoice_id = trim_space obj.invoice_id;
  plan_slug = plan_slug;
  amount = amount_of obj;
  currency = trim_space obj.currency;
  status = first_non_empty (obj.status ∷ codes "succeeded" ∷ []);
  refund_status = trim_space obj.refund_status;
  subscription_id = first_non_empty (obj.subscription_id ∷ []);
  paid_at = obj.created_at;
}

-- What is missing, from the payment.
abbrev pub enrich : Payment → UpsertParams → UpsertParams
enrich v p = record p {
  invoice_id = or_else p.invoice_id (trim_space v.invoice_id);
  amount = if leb_ℤ p.amount (pos 0) then v.total_amount else p.amount;
  currency = or_else p.currency v.currency;
  refund_status = or_else p.refund_status v.refund_status;
  subscription_id = or_else p.subscription_id v.subscription_id;
  paid_at = elim p.paid_at [ none ↦ v.created_at | some t ↦ some t ];
  status = or_else v.status p.status;
}

unfoldable pub complete : Env → UpsertParams → UpsertParams
complete env p =
    if leb_ℤ p.amount (pos 0) || (is_empty p.invoice_id || is_empty p.currency)
    then elim (get_payment env.provider p.payment_id) [ err e ↦ p | ok v ↦ enrich v p ]
    else p

abbrev pub with_currency : UpsertParams → UpsertParams
with_currency p = record p { currency = or_else p.currency (codes "USD") }

unfoldable pub record_invoice : Env → Str → Str → DodoObject → Act (Unit {0})
record_invoice env org plan_slug obj =
    let org' = if is_empty org then org_id_from_payment env obj else org in
    choose (is_empty org') (pure tt) (
      choose (is_empty (payment_id_of obj)) (pure tt) (
        run (
          upsert env.link env.now (with_currency (complete env (from_object obj org' plan_slug))))))

abbrev pub payment_object : Payment → Str → DodoObject
payment_object v subscription_id = record empty_object {
  payload_type = codes "Payment";
  payment_id = v.payment_id;
  invoice_id = v.invoice_id;
  total_amount = v.total_amount;
  currency = v.currency;
  status = first_non_empty (v.status ∷ codes "succeeded" ∷ []);
  refund_status = v.refund_status;
  subscription_id = first_non_empty (v.subscription_id ∷ subscription_id ∷ []);
  created_at = v.created_at;
}

-- What there is of the subscription's latest payment.
unfoldable pub latest_payment : Env → Str → Option Payment
latest_payment env subscription_id =
    elim (latest_subscription_payment env.provider subscription_id) [
      | err e ↦ none
      | ok found ↦ found
    ]

-- The invoice of that payment.
unfoldable pub record_latest : Env → Str → Str → Str → Act (Unit {0})
record_latest env org plan_slug subscription_id =
    when_some (latest_payment env subscription_id)
      (λ v.
        record_invoice env (if is_empty org then organization_in v.metadata else org) plan_slug
          (payment_object v subscription_id))
      (pure tt)

unfoldable pub record_subscription_invoice : Env → Str → Str → DodoObject → Act (Unit {0})
record_subscription_invoice env org plan_slug obj =
    let subscription_id = first_non_empty (obj.subscription_id ∷ obj.id ∷ []) in
    choose (is_empty (payment_id_of obj))
      (choose (is_empty subscription_id) (pure tt)
        (record_latest env org plan_slug subscription_id))
      (record_invoice env org plan_slug obj)

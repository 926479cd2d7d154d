-- ===== src/Tests/Events.antt =====
-- The handlers of payment events on concrete deliveries.
use orbit_api.Common.{true, arith, ◌≡◌, refl, ◌⊎◌, inl, false, none, some, List, [], ◌∷◌}
use orbit_api.Common.Int.{◌+ℤ◌, pos}
use orbit_api.Common.Str.{Str, codes}
use orbit_api.Common.Dict.{put, get}
use orbit_api.Common.Result.{ok}
use orbit_api.Common.Table.{lookup}
use orbit_api.Store.{Organization, org_key, Invoice, Db, invoice_key}
use orbit_api.Billing.Ledger.{grant}
use orbit_api.Billing.Invariants.{entry_sum}
use orbit_api.Billing.Holds.Sums.{open_sum}
use orbit_api.Billing.History.{placing, recording, perform_all, perform}
use orbit_api.Billing.History.Books.{IsBooked}
use orbit_api.Webhook.Refund.Merge.{part}
use orbit_api.Webhook.Mandates.{
  stale_loop, add_each, merge_prior_subscription_ids, stale_invoice_ids,
}
use orbit_api.Tests.Records.{h1, half}
use orbit_api.Tests.Data.{answered, acme_row, runs, answers, acme, wallet, pro_plan, team_plan}
use orbit_api.Webhook.Delivery.Books.{step_all_conserves}
use orbit_api.Webhook.Delivery.{billing, delivered, Step, step, step_all}
use orbit_api.Webhook.Handlers.Twice.Second.{handle_subscription_grant_once}
use orbit_api.Webhook.Handlers.Paid.{handle_payment_succeeded_once}
use orbit_api.Webhook.Handlers.SamePlans.{later}
use orbit_api.Webhook.Handlers.Refunds.{handle_refund_succeeded-Settles, Settles}
use orbit_api.Webhook.Handlers.Stale.{uncounted_event-OnlyInvoices, OnlyInvoices}
use orbit_api.Webhook.Handlers.Accounts.{SameAccounts}
use orbit_api.Invoices.{
  UpsertParams, excluded, merge_invoice, write_invoice, upsert, get_by_payment,
  update_refund_status, subscriptions_for_org, latest_each, insert_latest, before, scan_refs,
}
use orbit_api.Invoices.Merge.{upsert_once}
use orbit_api.Webhook.Resolve.{
  Grant, enrich_plan_from_payment, enrich_plan_from_subscription, get_by_dodo_product_id,
  get_plan_by_id, org_id_from_payment, org_id_from_subscription, resolve_grant, resolve_plan,
  resolve_plan_from_payment,
}
use orbit_api.Webhook.Persist.{
  cancel_lower_plan_subscriptions, cancel_prior_subscriptions, cancel_subscription_ids,
  invoice_subscription_refs, persist_as, persist_decision, persist_named, persist_subscription,
  ref_ids, ref_plan, resolve_refs, stored_plan_order, subscription_action,
}
use orbit_api.Webhook.Invoicing.{
  complete, latest_payment, record_invoice, record_latest, record_subscription_invoice,
}
use orbit_api.Webhook.Handlers.{
  complete_grant, finish_subscription, grant_as, grant_due, grant_payment, grant_subscription,
  handle_one_time_payment, handle_subscription_payment, payment_as, previous_plan, refund_known,
  refund_payment, refund_unknown, DodoEvent, handle_event, handle_subscription_grant,
  handle_payment_succeeded, handle_refund_succeeded, RefundPayload,
}
use orbit_api.Webhook.Grants.{grant_period, has_idempotency_key, legacy_granted}
use orbit_api.Webhook.Subscription.{
  subscription_grant_key, ignore_stale, pick_higher_plan, subscription_persist_action,
}
use orbit_api.Webhook.Refund.{known_refund_status, merge_refund_status, normalize_refund_status}
use orbit_api.Webhook.Object.{
  put_json, merge_entries, merge_metadata, DodoObject, empty_object, payment_id_of, amount_of,
  metadata_of, parse_int64,
}
use orbit_api.Organization.Plans.{
  order_or_zero, raise_plan, set_plan_slug_if_higher, get_dodo_subscription_id,
  set_dodo_subscription_id, attach_plan, get_by_slug, plan_sort_order, higher_plan,
}
use orbit_api.Webhook.Text.{
  is_space, trim_left, trim_right, trim_space, to_lower_point, to_lower, first_non_empty, to_upper,
  fold_point, equal_fold,
}
use orbit_api.Webhook.Json.{text}
use orbit_api.Webhook.Provider.{
  Provider, get_payment, latest, latest_subscription_payment, cancel_subscription,
  is_already_cancelled,
}
use orbit_api.Webhook.Act.{
  Env, World, ◌>>=◌, ◌>>◌, pure, fail, run, query, cancel, both, choose, when_some,
}

abbrev silent : Provider
silent = record { payment_at = λ id. none; payments_of = λ id. none; patch_error = λ id. none }

abbrev env : Env
env = record { link = answers; now = 50; period = codes "2025-01"; provider = silent }

abbrev sub1 : Str
sub1 = codes "sub_1"

-- A purchase of the plan for a hundred credits.
abbrev on_sale : Db
on_sale = record wallet { plans = (record pro_plan { credits_micros = pos 100 }) ∷ [] }

abbrev purchase : DodoObject
purchase = record empty_object {
  id = sub1;
  metadata =
      some ((codes "organization_id", text acme) ∷ (codes "plan_slug", text (codes "pro")) ∷ []);
}

abbrev before_it : World
before_it = record { db = on_sale; cancelled = [] }

-- Naming this opens the handlers.
unfoldable handles : Unit {0}
unfolding runs excluded merge_invoice write_invoice upsert get_by_payment update_refund_status
    subscriptions_for_org latest_each insert_latest before scan_refs order_or_zero raise_plan
    set_plan_slug_if_higher get_dodo_subscription_id set_dodo_subscription_id attach_plan
    get_by_slug plan_sort_order higher_plan is_space trim_left trim_right trim_space to_lower_point
    to_lower first_non_empty to_upper fold_point equal_fold get_payment latest
    latest_subscription_payment cancel_subscription is_already_cancelled payment_id_of amount_of
    ◌>>=◌ ◌>>◌ pure fail run query cancel both choose when_some pick_higher_plan
    subscription_persist_action merge_metadata merge_entries put_json metadata_of parse_int64
    get_plan_by_id get_by_dodo_product_id resolve_plan enrich_plan_from_payment
    resolve_plan_from_payment enrich_plan_from_subscription org_id_from_payment
    org_id_from_subscription resolve_grant invoice_subscription_refs stored_plan_order ref_plan
    persist_decision subscription_action cancel_subscription_ids ref_ids cancel_prior_subscriptions
    resolve_refs cancel_lower_plan_subscriptions persist_as persist_named persist_subscription
    complete record_invoice latest_payment record_latest record_subscription_invoice previous_plan
    finish_subscription complete_grant grant_due grant_as grant_subscription
    handle_subscription_grant handle_subscription_payment grant_payment handle_one_time_payment
    payment_as handle_payment_succeeded refund_unknown refund_known refund_payment
    handle_refund_succeeded handle_event has_idempotency_key legacy_granted grant_period
    subscription_grant_key step step_all perform perform_all put get add_each
    merge_prior_subscription_ids stale_invoice_ids stale_loop normalize_refund_status
    merge_refund_status known_refund_status
handles = tt

abbrev after_it : World
after_it = (handle_subscription_grant env (codes "subscription.active") purchase before_it).1

handle_runs :
    handle_subscription_grant env (codes "subscription.active") purchase before_it
    ≡ (ok tt, after_it)
unfolding handles
handle_runs = refl

-- The organization has the credits, the plan and the subscription.
credited :
    lookup org_key acme after_it.db.organizations
    ≡ some (record acme_row {
      plan_slug = codes "pro";
      dodo_subscription_id = sub1;
      credits_granted_micros = pos 1000100;
      credits_remaining_micros = pos 1000100;
    })
unfolding handles
credited = refl

handle_subscription_grant_once_example :
    SameAccounts on_sale after_it.db
    ⊎ SameAccounts after_it.db
        (handle_subscription_grant
          (later env 99)
          (codes "subscription.renewed")
          purchase
          after_it).1.db
unfolding handles
handle_subscription_grant_once_example =
    handle_subscription_grant_once env 99 (codes "subscription.active")
      (codes "subscription.renewed") purchase before_it refl refl refl handle_runs

-- A payment of its own, in USD.
abbrev payment : DodoObject
payment = record empty_object {
  payment_id = codes "pay_1";
  total_amount = pos 900;
  currency = codes "usd";
  invoice_id = codes "inv_1";
  metadata = purchase.metadata;
}

abbrev paid : World
paid = (handle_payment_succeeded env payment before_it).1

payment_runs : handle_payment_succeeded env payment before_it ≡ (ok tt, paid)
unfolding handles
payment_runs = refl

-- Later, and no statement is answered.
abbrev down : Env
down = record env { link = λ st. true; now = 99 }

handle_payment_succeeded_once_example :
    SameAccounts before_it.db paid.db
    ⊎ SameAccounts paid.db (handle_payment_succeeded down payment paid).1.db
handle_payment_succeeded_once_example =
    handle_payment_succeeded_once env down payment before_it payment_runs

abbrev paid_invoice : Invoice
paid_invoice = record {
  organization_id = acme;
  payment_id = codes "pay_1";
  invoice_id = codes "inv_1";
  plan_slug = codes "pro";
  amount = pos 900;
  currency = codes "USD";
  status = codes "succeeded";
  refund_status = [];
  subscription_id = [];
  paid_at = 50;
}

invoiced : paid.db.invoices ≡ paid_invoice ∷ []
unfolding handles
invoiced = refl

invoice_found : lookup invoice_key (codes "pay_1") paid.db.invoices ≡ some paid_invoice
unfolding handles
invoice_found = refl

abbrev refund : RefundPayload
refund = record { payment_id = codes "pay_1"; is_partial = false; refund_type = codes "Partial" }

trimmed_id : trim_space (codes "pay_1") ≡ codes "pay_1"
unfolding handles
trimmed_id = refl

handle_refund_succeeded-Settles_example :
    Settles (codes "pay_1") part paid_invoice (handle_refund_succeeded env refund paid)
unfolding handles
handle_refund_succeeded-Settles_example =
    handle_refund_succeeded-Settles env refund paid paid_invoice refl refl refl invoice_found

abbrev row : UpsertParams
row = record {
  organization_id = acme;
  payment_id = codes " pay_1";
  invoice_id = [];
  plan_slug = codes "pro";
  amount = pos 900;
  currency = codes "usd";
  status = [];
  refund_status = [];
  subscription_id = [];
  paid_at = none;
}

upsert_runs : upsert answers 50 row on_sale ≡ (ok tt, (upsert answers 50 row on_sale).1)
unfolding handles
upsert_runs = refl

upsert_once_example :
    (upsert answers 60 row (upsert answers 50 row on_sale).1).1 ≡ (upsert answers 50 row on_sale).1
upsert_once_example = upsert_once answers answers 50 60 row on_sale upsert_runs

-- An organization on a higher plan, and the renewal of its old subscription.
abbrev upgraded : World
upgraded = record {
  db = record on_sale {
    organizations =
        (record acme_row { plan_slug = codes "team"; dodo_subscription_id = codes "sub_2" }) ∷ [];
    plans = pro_plan ∷ team_plan ∷ [];
  };
  cancelled = [];
}

abbrev old_grant : Grant
old_grant = record { organization_id = acme; plan_slug = codes "pro"; credits_micros = pos 0 }

old_resolved : resolve_grant env purchase upgraded.db ≡ ok old_grant
unfolding handles
old_resolved = refl

old_completed : complete_grant env purchase old_grant upgraded.db ≡ ok old_grant
unfolding handles
old_completed = refl

old_stale :
    subscription_action answers acme sub1
      (codes "pro")
      (previous_plan answers acme upgraded.db)
      upgraded.db
    ≡ ok ignore_stale
unfolding handles
old_stale = refl

uncounted_event-OnlyInvoices_example :
    OnlyInvoices upgraded.db
      (handle_subscription_grant env (codes "subscription.renewed") purchase upgraded).1.db
    × ((handle_subscription_grant env (codes "subscription.renewed") purchase upgraded).1.cancelled
        ≡ sub1 ∷ [])
unfolding handles
uncounted_event-OnlyInvoices_example =
    uncounted_event-OnlyInvoices env (codes "subscription.renewed") purchase old_grant old_grant
      ignore_stale upgraded old_resolved old_completed refl old_stale (inl refl)

abbrev bought : DodoEvent
bought = record {
  type = codes "subscription.active";
  event_type = [];
  object = some purchase;
  refund = none;
}

-- A hold is placed, the purchase is delivered twice, and the hold is recorded.
abbrev month : List Step
month =
    billing answers (placing 5 h1 acme (pos 10000) (pos 60000000000) half)
    ∷ delivered env bought
    ∷ delivered env bought
    ∷ billing answers (recording 60 (codes "r1") (answered h1))
    ∷ []

on_sale-IsBooked : IsBooked on_sale
unfolding runs
on_sale-IsBooked = record {
  balanced = λ id o found. ground arith;
  granted = λ id o found. ground arith;
}

abbrev month_row : Organization
month_row = record acme_row {
  plan_slug = codes "pro";
  dodo_subscription_id = sub1;
  credits_granted_micros = pos 1000100;
  credits_used_micros = pos 1400;
  credits_remaining_micros = pos 998700;
}

month_found : lookup org_key acme (step_all month before_it).db.organizations ≡ some month_row
unfolding handles
month_found = refl

step_all_conserves_example :
    pos 998700 +ℤ open_sum acme (step_all month before_it).db.holds +ℤ pos 1400
    ≡ entry_sum grant acme (step_all month before_it).db.ledger
step_all_conserves_example =
    step_all_conserves month before_it on_sale-IsBooked acme month_row month_found

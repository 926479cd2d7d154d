-- ===== src/Webhook/Handlers.antt =====
-- internal/services/webhook/dodo.go: the handlers of the payment provider's events.
pub mod Frame
pub mod Books
pub mod Accounts
pub mod Twice
pub mod Stale
pub mod SamePlans
pub mod Paid
pub mod Refunds
use orbit_api.Common.{
  ℕ, Bool, true, false, Option, none, some, List, [], ◌∷◌, ◌++◌, ◌&&◌, ◌||◌, not, if◌then◌else◌,
}
use orbit_api.Common.Int.{ℤ, pos, ltb_ℤ, leb_ℤ}
use orbit_api.Common.Str.{Str, codes, str_eq, is_empty}
use orbit_api.Common.Table.{lookup}
use orbit_api.Common.Result.{Result, ok, err}
use orbit_api.Store.{Invoice, Db, org_key}
use orbit_api.Store.Tx.{
  Link, Error, load_organization, payment_id_missing, invoice_missing, undecodable,
}
use orbit_api.Billing.Ledger.{GrantParams, grant_credits}
use orbit_api.Invoices.{get_by_payment, update_refund_status}
use orbit_api.Organization.Plans.{attach_plan}
use orbit_api.Webhook.Text.{trim_space, first_non_empty, equal_fold}
use orbit_api.Webhook.Provider.{Payment, get_payment}
use orbit_api.Webhook.Object.{DodoObject, empty_object, Metadata}
use orbit_api.Webhook.Refund.{normalize_refund_status, merge_refund_status}
use orbit_api.Webhook.Subscription.{PersistAction, keep, ignore_stale, adopt, defer}
use orbit_api.Webhook.Grants.{GrantEvent, grant_period}
use orbit_api.Webhook.Resolve.{
  Grant, resolve_grant, org_id_from_payment, org_id_from_subscription,
  enrich_plan_from_subscription,
}
use orbit_api.Webhook.Persist.{subscription_action, persist_subscription}
use orbit_api.Webhook.Invoicing.{record_invoice, record_subscription_invoice}
use orbit_api.Webhook.Act.{
  Env, World, Act, ◌>>=◌, ◌>>◌, pure, fail, run, query, both, choose, when_some,
}

-- The plan that the organization has, as far as it can be read.
unfoldable pub previous_plan : Link → Str → Db → Str
previous_plan link org d =
    if link load_organization
    then []
    else elim (lookup org_key org d.organizations) [ none ↦ [] | some o ↦ o.plan_slug ]

unfoldable pub finish_subscription : Env → Str → Str → Str → Str → DodoObject → Act (Unit {0})
finish_subscription env org subscription plan_slug previous obj = do
  persist_subscription env org subscription plan_slug previous
  record_subscription_invoice env org plan_slug obj

abbrev pub subscription_of : DodoObject → Str
subscription_of obj = first_non_empty (obj.subscription_id ∷ obj.id ∷ [])

-- The organization, looked for in the payment and in the subscription's payments.
abbrev pub find_organization_id : Env → DodoObject → Str → Str
find_organization_id env obj org =
    let paid = if is_empty org then org_id_from_payment env obj else org in
    if is_empty paid then org_id_from_subscription env (subscription_of obj) else paid

-- The plan, looked for in the subscription's payments.
unfoldable pub complete_grant : Env → DodoObject → Grant → Db → Result Error Grant
complete_grant env obj g d =
    let org = find_organization_id env obj g.organization_id in
    if is_empty g.plan_slug
    then elim (enrich_plan_from_subscription env (subscription_of obj) d) [
      | err e ↦ err e
      | ok none ↦ ok (record g { organization_id = org })
      | ok (some p) ↦
          ok (record {
            organization_id = org;
            plan_slug = p.slug;
            credits_micros = p.credits_micros;
          })
    ]
    else ok (record g { organization_id = org })

abbrev pub grant_event : Env → Str → DodoObject → Grant → GrantEvent
grant_event env event_type obj g = record {
  event_type = event_type;
  organization_id = g.organization_id;
  subscription_id = subscription_of obj;
  plan_slug = g.plan_slug;
  credits_micros = g.credits_micros;
  period = env.period;
}

abbrev pub is_due : Grant → Bool
is_due g = ltb_ℤ (pos 0) g.credits_micros && not (is_empty g.plan_slug)

-- The grant, the plan and the subscription, where there are credits to grant.
unfoldable pub grant_due : Env → Str → DodoObject → Grant → Str → Act (Unit {0})
grant_due env event_type obj g previous = do
  run (grant_period env.link env.now (grant_event env event_type obj g) previous)
  run (attach_plan env.link g.organization_id g.plan_slug)
  finish_subscription env g.organization_id (subscription_of obj) g.plan_slug previous obj

-- What follows from the action.
unfoldable pub grant_as : Env → Str → DodoObject → Grant → Str → PersistAction → Act (Unit {0})
grant_as env event_type obj g previous ignore_stale =
    finish_subscription env g.organization_id (subscription_of obj) g.plan_slug previous obj
grant_as env event_type obj g previous defer =
    finish_subscription env g.organization_id (subscription_of obj) g.plan_slug previous obj
grant_as env event_type obj g previous keep =
    choose (is_due g) (grant_due env event_type obj g previous)
      (finish_subscription env g.organization_id (subscription_of obj) g.plan_slug previous obj)
grant_as env event_type obj g previous adopt =
    choose (is_due g) (grant_due env event_type obj g previous)
      (finish_subscription env g.organization_id (subscription_of obj) g.plan_slug previous obj)

-- From the look at the organization's plan on.
unfoldable pub grant_subscription : Env → Str → DodoObject → Grant → Act (Unit {0})
grant_subscription env event_type obj g = do
  previous ← query (λ d. ok (previous_plan env.link g.organization_id d))
  action ←
      query
        (subscription_action env.link g.organization_id (subscription_of obj) g.plan_slug previous)
  grant_as env event_type obj g previous action

unfoldable pub handle_subscription_grant : Env → Str → DodoObject → Act (Unit {0})
handle_subscription_grant env event_type obj = do
  found ← query (resolve_grant env obj)
  g ← query (complete_grant env obj found)
  choose (is_empty g.organization_id) (pure tt) (grant_subscription env event_type obj g)

-- A payment of a subscription grants nothing.
unfoldable pub handle_subscription_payment : Env → DodoObject → Grant → Act (Unit {0})
handle_subscription_payment env obj g =
    let org =
      if is_empty g.organization_id then org_id_from_payment env obj else g.organization_id in
    do
      previous ← query (λ d. ok (if is_empty org then [] else previous_plan env.link org d))
      persist_subscription env org (first_non_empty (obj.subscription_id ∷ [])) g.plan_slug previous
      record_invoice env org g.plan_slug obj

abbrev pub payment_grant : DodoObject → Grant → GrantParams
payment_grant obj g = record {
  organization_id = g.organization_id;
  amount_micros = g.credits_micros;
  idempotency_key = codes "dodo_payment:" ++ first_non_empty (obj.payment_id ∷ obj.id ∷ []);
  note = if is_empty g.plan_slug then codes "plan_purchase" else codes "plan:" ++ g.plan_slug;
}

unfoldable pub grant_payment : Env → DodoObject → Grant → Act (Unit {0})
grant_payment env obj g = do
  run (grant_credits env.link env.now (payment_grant obj g))
  both (record_invoice env g.organization_id g.plan_slug obj)
      (run (attach_plan env.link g.organization_id g.plan_slug))

-- A payment of its own grants the plan's credits.
unfoldable pub handle_one_time_payment : Env → DodoObject → Grant → Act (Unit {0})
handle_one_time_payment env obj g =
    choose (is_empty g.organization_id || leb_ℤ g.credits_micros (pos 0))
      (record_invoice env g.organization_id g.plan_slug obj)
      (choose (is_empty (first_non_empty (obj.payment_id ∷ obj.id ∷ []))) (fail payment_id_missing)
        (grant_payment env obj g))

unfoldable pub payment_as : Env → DodoObject → Grant → Act (Unit {0})
payment_as env obj g =
    choose (is_empty (first_non_empty (obj.subscription_id ∷ [])))
      (handle_one_time_payment env obj g) (handle_subscription_payment env obj g)

unfoldable pub handle_payment_succeeded : Env → DodoObject → Act (Unit {0})
handle_payment_succeeded env obj = do g ← query (resolve_grant env obj); payment_as env obj g

pub record RefundPayload : Type 0 where
  pub payment_id : Str
  pub is_partial : Bool
  pub refund_type : Str

abbrev pub refunded_object : Payment → Str → Str → DodoObject
refunded_object v payment_id refund_status = record empty_object {
  payment_id = first_non_empty (v.payment_id ∷ payment_id ∷ []);
  invoice_id = v.invoice_id;
  total_amount = v.total_amount;
  currency = v.currency;
  status = first_non_empty (v.status ∷ codes "succeeded" ∷ []);
  refund_status = refund_status;
  subscription_id = v.subscription_id;
  created_at = v.created_at;
  metadata = some v.metadata;
}

-- An invoice that is not there is made from the payment.
unfoldable pub refund_unknown : Env → Str → Option Payment → Str → Act (Unit {0})
refund_unknown env payment_id none status = fail invoice_missing
refund_unknown env payment_id (some v) status = do
  g ← query (resolve_grant env (refunded_object v payment_id status))
  choose (is_empty g.organization_id) (fail invoice_missing)
      (record_invoice env g.organization_id g.plan_slug (refunded_object v payment_id status))

-- A full refund stays one.
unfoldable pub refund_known : Env → Str → Str → Invoice → Act (Unit {0})
refund_known env payment_id status i =
    choose (str_eq i.refund_status (codes "full")) (pure tt)
      (run (update_refund_status env.link payment_id status) >>= λ met. pure tt)

abbrev pub refund_status_of : RefundPayload → Option Payment → Str
refund_status_of refund payment =
    let own =
      normalize_refund_status []
        (if refund.is_partial then true else equal_fold refund.refund_type (codes "partial")) in
    elim payment [ none ↦ own | some v ↦ merge_refund_status own v.refund_status ]

abbrev pub fetched : Env → Str → Option Payment
fetched env payment_id = elim (get_payment env.provider payment_id) [ err e ↦ none | ok v ↦ some v ]

unfoldable pub refund_payment : Env → Str → RefundPayload → Act (Unit {0})
refund_payment env payment_id refund =
    let payment = fetched env payment_id in
    let status = refund_status_of refund payment in
    do
      existing ← query (get_by_payment env.link payment_id)
      when_some existing (refund_known env payment_id status)
          (refund_unknown env payment_id payment status)

unfoldable pub handle_refund_succeeded : Env → RefundPayload → Act (Unit {0})
handle_refund_succeeded env refund =
    let payment_id = trim_space refund.payment_id in
    choose (is_empty payment_id) (pure tt) (refund_payment env payment_id refund)

-- A verified event. Its payload (its data, or else the whole body) is decoded as an object and as a
-- refund; `none` is what encoding/json refuses.
pub record DodoEvent : Type 0 where
  pub type : Str
  pub event_type : Str
  pub object : Option DodoObject
  pub refund : Option RefundPayload

abbrev pub decoded : {A : Type 0} → Option A → (A → Act (Unit {0})) → Act (Unit {0})
decoded payload f = when_some payload f (fail undecodable)

abbrev pub type_of : DodoEvent → Str
type_of v = if is_empty v.type then v.event_type else v.type

abbrev pub is_subscription_event : Str → Bool
is_subscription_event t =
    str_eq t (codes "subscription.active")
    || (str_eq t (codes "subscription.renewed") || str_eq t (codes "subscription.plan_changed"))

unfoldable pub handle_event : Env → DodoEvent → Act (Unit {0})
handle_event env v =
    let t = type_of v in
    choose (is_subscription_event t) (decoded v.object (handle_subscription_grant env t)) (
      choose (str_eq t (codes "payment.succeeded"))
        (decoded v.object (handle_payment_succeeded env))
        (choose (str_eq t (codes "refund.succeeded"))
          (decoded v.refund (handle_refund_succeeded env)) (pure tt)))

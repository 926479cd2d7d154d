-- ===== src/Webhook/Persist.antt =====
-- internal/services/webhook/dodo.go: storing the live subscription of an organization, and cancelling
-- those that it replaces.
use orbit_api.Common.{Bool, false, Option, none, some, List, [], ◌∷◌, if◌then◌else◌}
use orbit_api.Common.Int.{ℤ, pos}
use orbit_api.Common.Str.{Str, str_eq, is_empty}
use orbit_api.Common.Result.{Result, ok, err}
use orbit_api.Store.{Db}
use orbit_api.Store.Tx.{Link, Error}
use orbit_api.Invoices.{SubscriptionRef, subscriptions_for_org}
use orbit_api.Organization.Plans.{
  get_dodo_subscription_id, set_dodo_subscription_id, plan_sort_order, higher_plan,
}
use orbit_api.Webhook.Text.{trim_space}
use orbit_api.Webhook.Subscription.{
  PersistAction, keep, ignore_stale, adopt, defer, subscription_persist_action,
}
use orbit_api.Webhook.Mandates.{InvoiceSubRef, stale_invoice_ids, merge_prior_subscription_ids}
use orbit_api.Webhook.Act.{Env, Act, ◌>>=◌, ◌>>◌, pure, run, query, cancel, choose}

-- invoiceSubscriptionRefs
unfoldable pub invoice_subscription_refs : Link → Str → Db → Result Error (List SubscriptionRef)
invoice_subscription_refs link org d =
    if is_empty (trim_space org) then ok [] else subscriptions_for_org link org d

unfoldable pub ref_plan : Str → List SubscriptionRef → Option Str
ref_plan stored [] = none
ref_plan stored (r ∷ refs) =
    let rest = ref_plan stored refs in
    if str_eq (trim_space r.id) stored then some r.plan_slug else rest

unfoldable pub stored_plan_order : Link → Str → Str → Db → Result Error (ℤ × Bool)
stored_plan_order link org stored d =
    if is_empty (trim_space stored)
    then ok (pos 0, false)
    else elim (invoice_subscription_refs link org d) [
      | err e ↦ err e
      | ok refs ↦ elim (ref_plan (trim_space stored) refs) [
        | none ↦ ok (pos 0, false)
        | some slug ↦ plan_sort_order link slug d
      ]
    ]

unfoldable pub persist_decision :
    Link → Str → Str → Str → Str → Str → Db → Result Error PersistAction
persist_decision link org stored incoming incoming_plan previous_plan d =
    elim (plan_sort_order link incoming_plan d) [
      | err e ↦ err e
      | ok (incoming_order, incoming_known) ↦ elim (plan_sort_order link previous_plan d) [
        | err e ↦ err e
        | ok (previous_order, previous_known) ↦ elim (stored_plan_order link org stored d) [
          | err e ↦ err e
          | ok (stored_order, stored_known) ↦ ok (
              subscription_persist_action stored incoming incoming_known incoming_order
                previous_order stored_known stored_order)
        ]
      ]
    ]

unfoldable pub subscription_action : Link → Str → Str → Str → Str → Db → Result Error PersistAction
subscription_action link org subscription incoming_plan previous_plan d =
    if is_empty org
    then ok adopt
    else if is_empty subscription
    then ok adopt
    else elim (get_dodo_subscription_id link org d) [
      | err e ↦ err e
      | ok stored ↦ persist_decision link org stored subscription incoming_plan previous_plan d
    ]

unfoldable pub cancel_subscription_ids : Env → List Str → Act (Unit {0})
cancel_subscription_ids env [] = pure tt
cancel_subscription_ids env (id ∷ ids) = cancel env id >> cancel_subscription_ids env ids

unfoldable pub ref_ids : List SubscriptionRef → List Str
ref_ids [] = []
ref_ids (r ∷ refs) = r.id ∷ ref_ids refs

-- cancelPriorSubscriptions, with priorSubscriptionIDs
unfoldable pub cancel_prior_subscriptions : Env → Str → Str → Str → Act (Unit {0})
cancel_prior_subscriptions env org stored incoming = do
  refs ← query (invoice_subscription_refs env.link org)
  cancel_subscription_ids env (merge_prior_subscription_ids stored incoming (ref_ids refs))

unfoldable pub resolve_refs : Link → List SubscriptionRef → Db → Result Error (List InvoiceSubRef)
resolve_refs link [] d = ok []
resolve_refs link (r ∷ refs) d = elim (plan_sort_order link r.plan_slug d) [
  | err e ↦ err e
  | ok (order, known) ↦ elim (resolve_refs link refs d) [
    | err e ↦ err e
    | ok rest ↦ ok ((record { id = r.id; order = order; known = known }) ∷ rest)
  ]
]

unfoldable pub cancel_lower_plan_subscriptions : Env → Str → Str → Str → Act (Unit {0})
cancel_lower_plan_subscriptions env org incoming current_plan = do
  current ← query (plan_sort_order env.link current_plan)
  refs ← query (invoice_subscription_refs env.link org)
  resolved ← query (resolve_refs env.link refs)
  cancel_subscription_ids env (stale_invoice_ids incoming current.0 current.1 resolved)

abbrev pub keep_subscription : Env → Str → Str → Str → Str → Act (Unit {0})
keep_subscription env org subscription incoming_plan previous_plan = do
  plan ← query (higher_plan env.link incoming_plan previous_plan)
  cancel_lower_plan_subscriptions env org subscription plan

abbrev pub adopt_subscription : Env → Str → Str → Str → Act (Unit {0})
adopt_subscription env org stored subscription = do
  run (set_dodo_subscription_id env.link org subscription)
  cancel_prior_subscriptions env org stored subscription

-- The switch on the action.
unfoldable pub persist_as : Env → Str → Str → Str → Str → Str → PersistAction → Act (Unit {0})
persist_as env org stored subscription incoming_plan previous_plan keep =
    keep_subscription env org subscription incoming_plan previous_plan
persist_as env org stored subscription incoming_plan previous_plan defer = pure tt
persist_as env org stored subscription incoming_plan previous_plan ignore_stale =
    cancel env subscription
persist_as env org stored subscription incoming_plan previous_plan adopt =
    adopt_subscription env org stored subscription

-- From the load of the stored subscription on.
unfoldable pub persist_named : Env → Str → Str → Str → Str → Act (Unit {0})
persist_named env org subscription incoming_plan previous_plan = do
  stored ← query (get_dodo_subscription_id env.link org)
  action ← query (persist_decision env.link org stored subscription incoming_plan previous_plan)
  persist_as env org stored subscription incoming_plan previous_plan action

unfoldable pub persist_subscription : Env → Str → Str → Str → Str → Act (Unit {0})
persist_subscription env org subscription incoming_plan previous_plan =
    choose (is_empty org) (pure tt) (
      choose (is_empty subscription) (pure tt)
        (persist_named env org subscription incoming_plan previous_plan))

-- ===== src/Webhook/Handlers/Frame.antt =====
-- What all handlers of internal/services/webhook/dodo.go keep but for their grants: a property of the
-- database that neither invoices nor an organization's plan and subscription are part of.
use orbit_api.Common.{Option, none, some, List, [], ◌∷◌, not}
use orbit_api.Common.Str.{Str, is_empty}
use orbit_api.Common.Table.{lookup, update, has}
use orbit_api.Common.Branches.{if_either, option_either}
use orbit_api.Common.Result.{Result}
use orbit_api.Common.Int.{leb_ℤ}
use orbit_api.Store.{Plan, Invoice, Db, org_key, plan_key}
use orbit_api.Store.Tx.{
  Link, Error, load_plan_order, update_plan, update_subscription, invoice_missing,
}
use orbit_api.Organization.Plans.{
  set_plan, order_or_zero, raise_plan, set_plan_slug_if_higher, set_dodo_subscription_id,
  attach_plan,
}
use orbit_api.Webhook.Text.{trim_space}
use orbit_api.Webhook.Object.{DodoObject}
use orbit_api.Webhook.Subscription.{PersistAction, keep, ignore_stale, adopt, defer}
use orbit_api.Webhook.Persist.{
  cancel_subscription_ids, cancel_prior_subscriptions, cancel_lower_plan_subscriptions, persist_as,
  persist_named, persist_subscription,
}
use orbit_api.Webhook.Provider.{Payment}
use orbit_api.Webhook.Resolve.{Grant}
use orbit_api.Webhook.Handlers.{
  finish_subscription, handle_subscription_payment, refund_known, refund_unknown, RefundPayload,
  refund_payment, handle_refund_succeeded,
}
use orbit_api.Webhook.Act.{Env}
use orbit_api.Webhook.Act.Keeps.{
  Keeps, bind-Keeps, then-Keeps, query-Keeps, cancel-Keeps, pure-Keeps, fail-Keeps, choose-Keeps,
  when_some-Keeps, run-Keeps,
}
use orbit_api.Webhook.Invoicing.Frame.{
  update_refund_status_keeps, record_invoice-Keeps, record_subscription_invoice-Keeps,
}

-- `P` does not look at them.
pub record Blind (P : Db → Type 0) : Type 0 where
  pub invoices : (d : Db) (is : List Invoice) → P d → P (record d { invoices = is })
  pub plan :
      (d : Db) (org slug : Str)
      → P d
      → P (record d { organizations = update org_key org (set_plan slug) d.organizations })
  pub subscription :
      (d : Db) (org id : Str)
      → P d
      → P (record d {
        organizations =
            update org_key org (λ o. record o { dodo_subscription_id = id }) d.organizations;
      })

module _ (P : Db → Type 0) (blind : Blind P) where
  abbrev At : {A : Type 0} → Result Error A × Db → Type 0
  At r = P r.1

  raise_plan_keeps :
      (link : Link) (org : Str) (p : Plan) (d : Db) → P d → P (raise_plan link org p d).1
  unfolding raise_plan
  raise_plan_keeps link org p d h = option_either At (lookup org_key org d.organizations) h (λ o.
      if_either At (leb_ℤ (order_or_zero o.plan_slug d) p.sort_order) (blind.plan d org p.slug h) h)

  pub attach_plan_keeps :
      (link : Link) (org slug : Str) (d : Db) → P d → P (attach_plan link org slug d).1
  unfolding attach_plan set_plan_slug_if_higher
  attach_plan_keeps link org slug d h = if_either At (is_empty org) h (
      if_either At (is_empty slug) h (
        if_either At (link load_plan_order) h (
          option_either At (lookup plan_key slug d.plans) h
            (λ p. if_either At (link update_plan) h (raise_plan_keeps link org p d h)))))

  pub set_dodo_subscription_id_keeps :
      (link : Link) (org id : Str) (d : Db) → P d → P (set_dodo_subscription_id link org id d).1
  unfolding set_dodo_subscription_id
  set_dodo_subscription_id_keeps link org id d h = if_either At (is_empty (trim_space org)) h (
      if_either At (is_empty (trim_space id)) h (
        if_either At (link update_subscription) h (
          if_either At (not (has org_key (trim_space org) d.organizations)) h
            (blind.subscription d (trim_space org) (trim_space id) h))))

  cancel_subscription_ids-Keeps :
      (env : Env) (ids : List Str) → Keeps P (cancel_subscription_ids env ids)
  unfolding cancel_subscription_ids
  cancel_subscription_ids-Keeps env [] = pure-Keeps tt
  cancel_subscription_ids-Keeps env (id ∷ ids) =
      then-Keeps (cancel-Keeps env id) (cancel_subscription_ids-Keeps env ids)

  cancel_prior-Keeps :
      (env : Env) (org stored incoming : Str)
      → Keeps P (cancel_prior_subscriptions env org stored incoming)
  unfolding cancel_prior_subscriptions
  cancel_prior-Keeps env org stored incoming =
      bind-Keeps (query-Keeps _) (λ refs. cancel_subscription_ids-Keeps env _)

  cancel_lower-Keeps :
      (env : Env) (org incoming plan : Str)
      → Keeps P (cancel_lower_plan_subscriptions env org incoming plan)
  unfolding cancel_lower_plan_subscriptions
  cancel_lower-Keeps env org incoming plan = bind-Keeps (query-Keeps _) (λ current.
      bind-Keeps (query-Keeps _)
        (λ refs. bind-Keeps (query-Keeps _) (λ resolved. cancel_subscription_ids-Keeps env _)))

  persist_as-Keeps :
      (env : Env) (org stored id incoming previous : Str) (action : PersistAction)
      → Keeps P (persist_as env org stored id incoming previous action)
  unfolding persist_as
  persist_as-Keeps env org stored id incoming previous keep =
      bind-Keeps (query-Keeps _) (λ plan. cancel_lower-Keeps env org id plan)
  persist_as-Keeps env org stored id incoming previous defer = pure-Keeps tt
  persist_as-Keeps env org stored id incoming previous ignore_stale = cancel-Keeps env id
  persist_as-Keeps env org stored id incoming previous adopt =
      then-Keeps (run-Keeps _ (set_dodo_subscription_id_keeps env.link org id))
        (cancel_prior-Keeps env org stored id)

  pub persist_subscription-Keeps :
      (env : Env) (org id incoming previous : Str)
      → Keeps P (persist_subscription env org id incoming previous)
  unfolding persist_subscription persist_named
  persist_subscription-Keeps env org id incoming previous =
      choose-Keeps (is_empty org) (pure-Keeps tt) (
        choose-Keeps (is_empty id) (pure-Keeps tt) (
          bind-Keeps (query-Keeps _) (λ stored.
            bind-Keeps (query-Keeps _)
              (λ action. persist_as-Keeps env org stored id incoming previous action))))

  pub finish_subscription-Keeps :
      (env : Env) (org id plan previous : Str) (obj : DodoObject)
      → Keeps P (finish_subscription env org id plan previous obj)
  unfolding finish_subscription
  finish_subscription-Keeps env org id plan previous obj =
      then-Keeps (persist_subscription-Keeps env org id plan previous)
        (record_subscription_invoice-Keeps P blind.invoices env org plan obj)

  pub handle_subscription_payment-Keeps :
      (env : Env) (obj : DodoObject) (g : Grant) → Keeps P (handle_subscription_payment env obj g)
  unfolding handle_subscription_payment
  handle_subscription_payment-Keeps env obj g = bind-Keeps (query-Keeps _) (λ previous.
      then-Keeps (persist_subscription-Keeps env _ _ g.plan_slug previous)
        (record_invoice-Keeps P blind.invoices env _ g.plan_slug obj))

  refund_known-Keeps :
      (env : Env) (payment_id status : Str) (i : Invoice)
      → Keeps P (refund_known env payment_id status i)
  unfolding refund_known
  refund_known-Keeps env payment_id status i = choose-Keeps _ (pure-Keeps tt) (
      bind-Keeps
        (run-Keeps _ (update_refund_status_keeps P blind.invoices env.link payment_id status))
        (λ met. pure-Keeps tt))

  refund_unknown-Keeps :
      (env : Env) (payment_id : Str) (payment : Option Payment) (status : Str)
      → Keeps P (refund_unknown env payment_id payment status)
  unfolding refund_unknown
  refund_unknown-Keeps env payment_id none status = fail-Keeps invoice_missing
  refund_unknown-Keeps env payment_id (some v) status = bind-Keeps (query-Keeps _) (λ g.
      choose-Keeps _ (fail-Keeps invoice_missing) (record_invoice-Keeps P blind.invoices env _ _ _))

  pub handle_refund_succeeded-Keeps :
      (env : Env) (refund : RefundPayload) → Keeps P (handle_refund_succeeded env refund)
  unfolding handle_refund_succeeded refund_payment
  handle_refund_succeeded-Keeps env refund = choose-Keeps _ (pure-Keeps tt) (
      bind-Keeps (query-Keeps _) (λ existing.
        when_some-Keeps existing (λ i. refund_known-Keeps env _ _ i)
          (refund_unknown-Keeps env _ _ _)))

-- ===== src/Webhook/Handlers/Books.antt =====
-- What all handlers of internal/services/webhook/dodo.go keep, with their grants.
use orbit_api.Common.{◌≡◌, refl, not, ◌&&◌}
use orbit_api.Common.Int.{ltb_ℤ, pos}
use orbit_api.Common.Str.{Str, is_empty}
use orbit_api.Common.Table.{rows_kept}
use orbit_api.Common.Branches.{if_either, result_either}
use orbit_api.Common.Result.{Result, ok}
use orbit_api.Store.{Db, org_key}
use orbit_api.Store.Tx.{Error, payment_id_missing, undecodable}
use orbit_api.Billing.Ledger.{GrantParams, grant_credits}
use orbit_api.Billing.Invariants.{Granted}
use orbit_api.Billing.History.{granting, perform}
use orbit_api.Billing.History.Books.{IsBooked, perform-IsBooked}
use orbit_api.Organization.Plans.{set_plan}
use orbit_api.Webhook.Subscription.{PersistAction, keep, ignore_stale, adopt, defer}
use orbit_api.Webhook.Grants.{GrantEvent, grant_params, legacy_granted, grant_period}
use orbit_api.Webhook.Resolve.{Grant, resolve_grant}
use orbit_api.Webhook.Object.{DodoObject}
use orbit_api.Webhook.Act.{Env}
use orbit_api.Webhook.Act.Keeps.{
  Keeps, bind-Keeps, query_then-Keeps, then-Keeps, both-Keeps, query-Keeps, pure-Keeps, fail-Keeps,
  choose-Keeps, when_some-Keeps, run-Keeps,
}
use orbit_api.Webhook.Invoicing.Frame.{record_invoice-Keeps}
use orbit_api.Webhook.Handlers.{
  grant_event, complete_grant, grant_due, grant_as, grant_subscription, handle_subscription_grant,
  grant_payment, handle_one_time_payment, payment_as, handle_payment_succeeded, DodoEvent, type_of,
  handle_event,
}
use orbit_api.Webhook.Handlers.Frame.{
  Blind, attach_plan_keeps, finish_subscription-Keeps, handle_subscription_payment-Keeps,
  handle_refund_succeeded-Keeps,
}

module _ (P : Db → Type 0) (blind : Blind P) (env : Env) where
  -- The grant of a period that the event is for keeps `P`.
  abbrev Periods : Str → DodoObject → Grant → Type 0
  Periods t obj g =
      (plan : Str) (d : Db)
      → P d
      → P (grant_period env.link env.now (grant_event env t obj g) plan d).1

  grant_due-Keeps :
      (t : Str) (obj : DodoObject) (g : Grant) (previous : Str)
      → Periods t obj g
      → Keeps P (grant_due env t obj g previous)
  unfolding grant_due
  grant_due-Keeps t obj g previous period = then-Keeps (run-Keeps _ (period previous)) (
      then-Keeps (run-Keeps _ (attach_plan_keeps P blind env.link _ _))
        (finish_subscription-Keeps P blind env _ _ _ previous obj))

  pub grant_as-Keeps :
      (t : Str) (obj : DodoObject) (g : Grant) (previous : Str) (action : PersistAction)
      → Periods t obj g
      → Keeps P (grant_as env t obj g previous action)
  unfolding grant_as
  grant_as-Keeps t obj g previous ignore_stale period =
      finish_subscription-Keeps P blind env _ _ _ previous obj
  grant_as-Keeps t obj g previous defer period =
      finish_subscription-Keeps P blind env _ _ _ previous obj
  grant_as-Keeps t obj g previous keep period =
      choose-Keeps _ (grant_due-Keeps t obj g previous period)
        (finish_subscription-Keeps P blind env _ _ _ previous obj)
  grant_as-Keeps t obj g previous adopt period =
      choose-Keeps _ (grant_due-Keeps t obj g previous period)
        (finish_subscription-Keeps P blind env _ _ _ previous obj)

  -- The period need only be kept for what the event is resolved to.
  pub handle_subscription_grant-Keeps :
      (t : Str) (obj : DodoObject)
      → ((found g : Grant) (d d' : Db)
          → P d
          → resolve_grant env obj d ≡ ok found
          → P d'
          → complete_grant env obj found d' ≡ ok g
          → Periods t obj g)
      → Keeps P (handle_subscription_grant env t obj)
  unfolding handle_subscription_grant grant_subscription
  handle_subscription_grant-Keeps t obj period = query_then-Keeps _ (λ found d p e.
      query_then-Keeps _ (λ g d' p' e'. choose-Keeps _ (pure-Keeps tt) (
        bind-Keeps (query-Keeps _) (λ previous.
          bind-Keeps (query-Keeps _)
            (λ action. grant_as-Keeps t obj g previous action (period found g d d' p e p' e'))))))

module _ (P : Db → Type 0) (blind : Blind P) (env : Env)
    (grants : (p : GrantParams) (d : Db) → P d → P (grant_credits env.link env.now p d).1) where
  abbrev Kept : {A : Type 0} → Result Error A × Db → Type 0
  Kept r = P r.1

  pub grant_period_keeps :
      (v : GrantEvent) (plan : Str) (d : Db) → P d → P (grant_period env.link env.now v plan d).1
  unfolding grant_period
  grant_period_keeps v plan d h =
      if_either Kept (ltb_ℤ (pos 0) v.credits_micros && not (is_empty v.plan_slug))
        (result_either Kept (legacy_granted env.link v d)
          (λ legacy. grants (grant_params v plan legacy) d h) (λ e. h))
        h

  grant_payment-Keeps : (obj : DodoObject) (g : Grant) → Keeps P (grant_payment env obj g)
  unfolding grant_payment
  grant_payment-Keeps obj g = then-Keeps (run-Keeps _ (grants _)) (
      both-Keeps (record_invoice-Keeps P blind.invoices env _ _ obj)
        (run-Keeps _ (attach_plan_keeps P blind env.link _ _)))

  handle_payment_succeeded-Keeps : (obj : DodoObject) → Keeps P (handle_payment_succeeded env obj)
  unfolding handle_payment_succeeded payment_as handle_one_time_payment
  handle_payment_succeeded-Keeps obj = bind-Keeps (query-Keeps _) (λ g.
      choose-Keeps _
        (choose-Keeps _ (record_invoice-Keeps P blind.invoices env _ _ obj)
          (choose-Keeps _ (fail-Keeps payment_id_missing) (grant_payment-Keeps obj g)))
        (handle_subscription_payment-Keeps P blind env obj g))

  pub handle_event-Keeps : (v : DodoEvent) → Keeps P (handle_event env v)
  unfolding handle_event
  handle_event-Keeps v =
      choose-Keeps _
        (when_some-Keeps v.object
          (λ obj.
            handle_subscription_grant-Keeps P blind env (type_of v) obj
              (λ found g d d' p e p' e'. grant_period_keeps (grant_event env (type_of v) obj g)))
          (fail-Keeps undecodable))
        (choose-Keeps _
          (when_some-Keeps v.object (λ obj. handle_payment_succeeded-Keeps obj)
            (fail-Keeps undecodable))
          (choose-Keeps _
            (when_some-Keeps v.refund (λ r. handle_refund_succeeded-Keeps P blind env r)
              (fail-Keeps undecodable))
            (pure-Keeps tt)))

-- The books do not look at invoices, plans and subscriptions.
IsBooked-Blind : Blind IsBooked
IsBooked-Blind = record {
  invoices = λ d is b. record { balanced = b.balanced; granted = b.granted };
  plan = λ d org slug b. record {
    balanced =
        rows_kept org_key _ org (set_plan slug) d.organizations (λ x. refl) (λ j x p. p) b.balanced;
    granted =
        rows_kept org_key (Granted d) org (set_plan slug) d.organizations (λ x. refl) (λ j x p. p)
          b.granted;
  };
  subscription = λ d org id b. record {
    balanced = rows_kept org_key _ org _ d.organizations (λ x. refl) (λ j x p. p) b.balanced;
    granted =
        rows_kept org_key (Granted d) org _ d.organizations (λ x. refl) (λ j x p. p) b.granted;
  };
}

pub handle_event-IsBooked : (env : Env) (v : DodoEvent) → Keeps IsBooked (handle_event env v)
unfolding grant_credits perform
handle_event-IsBooked env v =
    handle_event-Keeps IsBooked IsBooked-Blind env
      (λ p d b. perform-IsBooked env.link (granting env.now p) d b) v

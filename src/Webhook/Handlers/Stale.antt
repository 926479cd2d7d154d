-- ===== src/Webhook/Handlers/Stale.antt =====
-- handleSubscriptionGrant of internal/services/webhook/dodo.go on an event that does not count: a
-- stale subscription's, or one that is put off.
use orbit_api.Common.{
  ◌≡◌, refl, sym, ◌∙◌, ◌⊎◌, false, List, [], ◌∷◌, ◌++◌, arith, inl, inr, append_nil,
}
use orbit_api.Common.Str.{Str, is_empty}
use orbit_api.Common.Result.{ok, Result-cases}
use orbit_api.Store.{Invoice, Db}
use orbit_api.Store.Tx.{Link}
use orbit_api.Organization.Plans.{get_dodo_subscription_id}
use orbit_api.Webhook.Text.{trim_space}
use orbit_api.Webhook.Text.Trim.{first_non_empty_trimmed}
use orbit_api.Webhook.Subscription.{PersistAction, keep, ignore_stale, adopt, defer}
use orbit_api.Webhook.Object.{DodoObject}
use orbit_api.Webhook.Resolve.{Grant, resolve_grant}
use orbit_api.Webhook.Persist.{
  persist_decision, subscription_action, persist_as, persist_named, persist_subscription,
}
use orbit_api.Webhook.Act.{Env, World, pure, cancel, choose}
use orbit_api.Webhook.Act.Inverse.{query_step, then_either}
use orbit_api.Webhook.Invoicing.{record_subscription_invoice}
use orbit_api.Webhook.Invoicing.Frame.{
  record_subscription_invoice-Keeps, record_subscription_invoice-Quiet,
}
use orbit_api.Webhook.Handlers.{
  previous_plan, subscription_of, complete_grant, grant_as, grant_subscription, finish_subscription,
  handle_subscription_grant,
}

-- Such an event.
abbrev pub Idle : PersistAction → Type 0
Idle action = (action ≡ ignore_stale) ⊎ (action ≡ defer)

-- Of all that an event can change, only invoices have.
pub record OnlyInvoices (d d' : Db) : Type 0 where
  pub organizations : d'.organizations ≡ d.organizations
  pub holds : d'.holds ≡ d.holds
  pub ledger : d'.ledger ≡ d.ledger
  pub requests : d'.requests ≡ d.requests
  pub plans : d'.plans ≡ d.plans

unchanged_rows : (d : Db) → OnlyInvoices d d
unchanged_rows d = record {
  organizations = refl;
  holds = refl;
  ledger = refl;
  requests = refl;
  plans = refl;
}

through_invoices :
    (d0 d : Db) (is : List Invoice)
    → OnlyInvoices d0 d
    → OnlyInvoices d0 (record d { invoices = is })
through_invoices d0 d is s = record {
  organizations = s.organizations;
  holds = s.holds;
  ledger = s.ledger;
  requests = s.requests;
  plans = s.plans;
}

-- The subscriptions that the provider is asked to cancel.
abbrev pub cancelled_by : PersistAction → Str → List Str
cancelled_by ignore_stale subscription = subscription ∷ []
cancelled_by keep subscription = []
cancelled_by adopt subscription = []
cancelled_by defer subscription = []

-- The decision was made for a named organization and subscription, on the stored one.
record Decided (link : Link) (org subscription plan previous : Str) (d : Db)
    (action : PersistAction) : Type 0 where
  org_named : is_empty org ≡ false
  subscription_named : is_empty subscription ≡ false
  stored : Str
  loaded : get_dodo_subscription_id link org d ≡ ok stored
  decision : persist_decision link org stored subscription plan previous d ≡ ok action

action_inverse :
    (link : Link) (org subscription plan previous : Str) (d : Db) {action : PersistAction}
    → subscription_action link org subscription plan previous d ≡ ok action
    → Idle action
    → Decided link org subscription plan previous d action
unfolding subscription_action
action_inverse link org subscription plan previous d {action} e idle =
    elim (Result-cases (get_dodo_subscription_id link org d)) [
      | inl (stored, loaded) ↦ record {
        org_named = ground (arith, e, idle);
        subscription_named = ground (arith, e, idle);
        stored = stored;
        loaded = loaded;
        decision = ground (arith, e, idle, loaded);
      }
      | inr (x, failed) ↦ ground (arith, e, idle, failed)
    ]

-- What persistSubscription does on the same decision.
record Persisted (action : PersistAction) (subscription : Str) (w w' : World) : Type 0 where
  same : w'.db ≡ w.db
  asked : w'.cancelled ≡ w.cancelled ++ cancelled_by action subscription

persist_as_leaves :
    (env : Env) (org stored subscription plan previous : Str) (action : PersistAction) (w : World)
    → trim_space subscription ≡ subscription
    → is_empty subscription ≡ false
    → Idle action
    → Persisted action subscription w
        (persist_as env org stored subscription plan previous action w).1
unfolding persist_as cancel pure
persist_as_leaves env org stored subscription plan previous ignore_stale w trimmed named idle =
    record { same = refl; asked = rw trimmed (rw named refl) }
persist_as_leaves env org stored subscription plan previous defer w trimmed named idle = record {
  same = refl;
  asked = sym (append_nil w.cancelled);
}
persist_as_leaves env org stored subscription plan previous keep w trimmed named idle = ground arith
persist_as_leaves env org stored subscription plan previous adopt w trimmed named idle =
    ground arith

persist_leaves :
    (env : Env) (org subscription plan previous : Str) (w : World) {action : PersistAction}
    → trim_space subscription ≡ subscription
    → Decided env.link org subscription plan previous w.db action
    → Idle action
    → Persisted action subscription w (persist_subscription env org subscription plan previous w).1
unfolding persist_subscription persist_named choose
persist_leaves env org subscription plan previous w {action} trimmed d idle =
    let stored = d.stored in
    let steps : persist_named env org subscription plan previous w
        ≡ persist_as env org stored subscription plan previous action w =
      query_step _ _ w d.loaded ∙ query_step _ _ w d.decision in
    rw d.org_named (
      rw d.subscription_named (
        rw steps (
          persist_as_leaves env org stored subscription plan previous action w trimmed
            d.subscription_named idle)))

-- What the invoice's record after it adds.
record_leaves :
    (env : Env) (org subscription plan : Str) (obj : DodoObject) (w w' : World)
    (action : PersistAction)
    → Persisted action subscription w w'
    → OnlyInvoices w.db (record_subscription_invoice env org plan obj w').1.db
      × ((record_subscription_invoice env org plan obj w').1.cancelled
          ≡ w.cancelled ++ cancelled_by action subscription)
record_leaves env org subscription plan obj w w' action p = (
  (record_subscription_invoice-Keeps (OnlyInvoices w.db) (through_invoices w.db) env org plan
        obj).kept
      w' (rw p.same (unchanged_rows w.db)),
  (record_subscription_invoice-Quiet env org plan obj).quiet w' ∙ p.asked,
)

finish_leaves :
    (env : Env) (org subscription plan previous : Str) (obj : DodoObject) (w : World)
    {action : PersistAction}
    → trim_space subscription ≡ subscription
    → Decided env.link org subscription plan previous w.db action
    → Idle action
    → OnlyInvoices w.db (finish_subscription env org subscription plan previous obj w).1.db
      × ((finish_subscription env org subscription plan previous obj w).1.cancelled
          ≡ w.cancelled ++ cancelled_by action subscription)
unfolding finish_subscription
finish_leaves env org subscription plan previous obj w {action} trimmed d idle =
    let p = persist_leaves env org subscription plan previous w trimmed d idle in
    then_either
      (λ v.
        OnlyInvoices w.db v.db × (v.cancelled ≡ w.cancelled ++ cancelled_by action subscription))
      (persist_subscription env org subscription plan previous)
      (record_subscription_invoice env org plan obj) w
      (record_leaves env org subscription plan obj w _ action p)
      (rw p.same (unchanged_rows w.db), p.asked)

as_finish :
    (env : Env) (t : Str) (obj : DodoObject) (g : Grant) (previous : Str) (action : PersistAction)
    (w : World)
    → Idle action
    → grant_as env t obj g previous action w
      ≡ finish_subscription env g.organization_id (subscription_of obj) g.plan_slug previous obj w
unfolding grant_as
as_finish env t obj g previous ignore_stale w idle = refl
as_finish env t obj g previous defer w idle = refl
as_finish env t obj g previous keep w idle = ground arith
as_finish env t obj g previous adopt w idle = ground arith

-- An event whose subscription is found stale, or is put off, changes nothing but invoices, whether
-- it is handled to the end or fails: no plan, subscription or credits of any organization, no hold,
-- no request and no entry of the ledger. A stale one has the provider asked to cancel that
-- subscription, and no other; one that is put off has none cancelled.
pub uncounted_event-OnlyInvoices :
    (env : Env) (t : Str) (obj : DodoObject) (found g : Grant) (action : PersistAction) (w : World)
    → resolve_grant env obj w.db ≡ ok found
    → complete_grant env obj found w.db ≡ ok g
    → is_empty g.organization_id ≡ false
    → subscription_action env.link g.organization_id
        (subscription_of obj)
        g.plan_slug
        (previous_plan env.link g.organization_id w.db)
        w.db
      ≡ ok action
    → Idle action
    → OnlyInvoices w.db (handle_subscription_grant env t obj w).1.db
      × ((handle_subscription_grant env t obj w).1.cancelled
          ≡ w.cancelled ++ cancelled_by action (subscription_of obj))
unfolding handle_subscription_grant grant_subscription choose
uncounted_event-OnlyInvoices env t obj found g action w resolved completed somebody decided idle =
    let org = g.organization_id in
    let previous = previous_plan env.link org w.db in
    let looked : grant_subscription env t obj g w ≡ grant_as env t obj g previous action w =
      query_step _ _ w refl ∙ query_step _ _ w decided in
    let found_out : handle_subscription_grant env t obj w
        ≡ choose (is_empty org) (pure tt) (grant_subscription env t obj g) w =
      query_step _ _ w resolved ∙ query_step _ _ w completed in
    rw found_out (
      rw somebody (
        rw looked (
          rw (as_finish env t obj g previous action w idle) (
            finish_leaves env org (subscription_of obj) g.plan_slug previous obj w
              (first_non_empty_trimmed (obj.subscription_id ∷ obj.id ∷ []))
              (action_inverse env.link org (subscription_of obj) g.plan_slug previous w.db decided
                idle)
              idle))))

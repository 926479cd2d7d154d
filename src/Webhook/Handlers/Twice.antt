-- ===== src/Webhook/Handlers/Twice.antt =====
-- handleSubscriptionGrant of internal/services/webhook/dodo.go, when its event is delivered twice.
pub mod Second
use orbit_api.Common.{
  ℕ, ◌≡◌, refl, sym, ap, ◌∙◌, ◌⊎◌, inl, inr, Bool, true, false, arith, ◌&&◌, not, Bool-cases,
}
use orbit_api.Common.Int.{pos, ltb_ℤ}
use orbit_api.Common.Str.{Str, is_empty}
use orbit_api.Common.Table.{has}
use orbit_api.Common.Result.{Result, ok, err}
use orbit_api.Store.{Plan, Db, entry_key}
use orbit_api.Store.Tx.{Error}
use orbit_api.Webhook.Text.{trim_space}
use orbit_api.Webhook.Subscription.{PersistAction, keep, ignore_stale, adopt, defer}
use orbit_api.Webhook.Grants.{GrantEvent, legacy_key, grant_period}
use orbit_api.Webhook.Grants.Once.{plan_key, grant_period_leaves, grant_period_again}
use orbit_api.Webhook.Object.{DodoObject}
use orbit_api.Webhook.Resolve.{Grant, resolve_grant}
use orbit_api.Webhook.Persist.{subscription_action}
use orbit_api.Webhook.Act.{Env, World, Act, choose, pure}
use orbit_api.Webhook.Act.Keeps.{Keeps, kept_ok, pure-Keeps, then-Keeps, run-Keeps}
use orbit_api.Webhook.Act.Inverse.{query_inverse, run_inverse}
use orbit_api.Webhook.Handlers.{
  previous_plan, subscription_of, complete_grant, grant_event, is_due, grant_due, grant_as,
  grant_subscription, finish_subscription, handle_subscription_grant,
}
use orbit_api.Webhook.Handlers.Frame.{Blind, attach_plan_keeps, finish_subscription-Keeps}
use orbit_api.Webhook.Handlers.Accounts.{SameAccounts, unchanged_accounts, SameAccounts-Blind}

-- The key of the period is in the ledger.
abbrev pub Settled : Env → Str → DodoObject → Grant → Db → Type 0
Settled env t obj g d = has entry_key (plan_key (grant_event env t obj g)) d.ledger ≡ true

Settled-Blind : (env : Env) (t : Str) (obj : DodoObject) (g : Grant) → Blind (Settled env t obj g)
Settled-Blind env t obj g = record {
  invoices = λ d is s. s;
  plan = λ d org slug s. s;
  subscription = λ d org id s. s;
}

finish_same :
    (env : Env) (obj : DodoObject) (g : Grant) (previous : Str) (w : World) {x : Unit {0}}
    {w' : World}
    → finish_subscription env g.organization_id (subscription_of obj) g.plan_slug previous obj w
      ≡ (ok x, w')
    → SameAccounts w.db w'.db
finish_same env obj g previous w e =
    kept_ok w (finish_subscription-Keeps _ (SameAccounts-Blind w.db) env _ _ _ previous obj)
      (unchanged_accounts w.db) e

module _ (env : Env) (t : Str) (obj : DodoObject)
    (named : is_empty (subscription_of obj) ≡ false) where
  abbrev pub Trimmed : Grant → Type 0
  Trimmed g =
      trim_space (legacy_key (grant_event env t obj g)) ≡ legacy_key (grant_event env t obj g)

  abbrev pub Fresh : Grant → Db → Type 0
  Fresh g d = has entry_key (legacy_key (grant_event env t obj g)) d.ledger ≡ false

  due_settles :
      (g : Grant) (previous : Str) (w : World) {x : Unit {0}} {w' : World}
      → Trimmed g
      → Fresh g w.db
      → is_due g ≡ true
      → grant_due env t obj g previous w ≡ (ok x, w')
      → Settled env t obj g w'.db
  unfolding grant_due
  due_settles g previous w {x} {w'} trimmed fresh due e =
      let v = grant_event env t obj g in
      let (went, rest) = run_inverse (grant_period env.link env.now v previous) _ w e in
      let d1 = (grant_period env.link env.now v previous w.db).1 in
      let whole = ap (λ (r : Result Error (Unit {0})). (r, d1)) went in
      let there =
        grant_period_leaves env.link env.now v previous w.db {x = tt} {d' = d1} whole due named
          trimmed fresh in
      kept_ok _
        (then-Keeps (run-Keeps _ (attach_plan_keeps _ (Settled-Blind env t obj g) env.link _ _))
          (finish_subscription-Keeps _ (Settled-Blind env t obj g) env _ _ _ previous obj))
        there rest

  as_settles :
      (g : Grant) (previous : Str) (action : PersistAction) (w : World) {x : Unit {0}} {w' : World}
      → Trimmed g
      → Fresh g w.db
      → grant_as env t obj g previous action w ≡ (ok x, w')
      → SameAccounts w.db w'.db ⊎ Settled env t obj g w'.db
  unfolding grant_as choose
  as_settles g previous ignore_stale w trimmed fresh e = inl (finish_same env obj g previous w e)
  as_settles g previous defer w trimmed fresh e = inl (finish_same env obj g previous w e)
  as_settles g previous keep w {x} {w'} trimmed fresh e = elim (Bool-cases (is_due g)) [
    | inl due ↦
        inr (due_settles g previous w {x = x} {w' = w'} trimmed fresh due (ground (arith, e, due)))
    | inr nothing ↦
        inl (finish_same env obj g previous w {x = x} {w' = w'} (ground (arith, e, nothing)))
  ]
  as_settles g previous adopt w {x} {w'} trimmed fresh e = elim (Bool-cases (is_due g)) [
    | inl due ↦
        inr (due_settles g previous w {x = x} {w' = w'} trimmed fresh due (ground (arith, e, due)))
    | inr nothing ↦
        inl (finish_same env obj g previous w {x = x} {w' = w'} (ground (arith, e, nothing)))
  ]

  looked_settles :
      (g : Grant) (w : World) {x : Unit {0}} {w' : World}
      → Trimmed g
      → Fresh g w.db
      → grant_subscription env t obj g w ≡ (ok x, w')
      → SameAccounts w.db w'.db ⊎ Settled env t obj g w'.db
  unfolding grant_subscription
  looked_settles g w trimmed fresh e =
      let org = g.organization_id in
      let (previous, seen, rest) = query_inverse (λ d. ok (previous_plan env.link org d)) _ w e in
      let (action, decided, last) =
        query_inverse (subscription_action env.link org (subscription_of obj) g.plan_slug previous)
          _ w rest in
      as_settles g previous action w trimmed fresh last

  -- What the event was resolved to, and that its period is settled.
  abbrev pub Granted : Db → Db → Type 0
  Granted d d' =
      (found : Grant) × (g : Grant) × (resolve_grant env obj d ≡ ok found)
      × (complete_grant env obj found d ≡ ok g)
      × Settled env t obj g d'

  pub first_delivery :
      (w : World) {x : Unit {0}} {w' : World}
      → ((g : Grant) → Trimmed g)
      → ((g : Grant) → Fresh g w.db)
      → handle_subscription_grant env t obj w ≡ (ok x, w')
      → SameAccounts w.db w'.db ⊎ Granted w.db w'.db
  unfolding handle_subscription_grant choose pure
  first_delivery w {x} {w'} trimmed fresh e =
      let (found, resolved, e1) = query_inverse (resolve_grant env obj) _ w e in
      let (g, completed, e2) = query_inverse (complete_grant env obj found) _ w e1 in
      elim (Bool-cases (is_empty g.organization_id)) [
        | inl nobody ↦
            let same : w ≡ w' = ground (arith, e2, nobody) in
            inl (rw (sym same) (unchanged_accounts w.db))
        | inr somebody ↦
            elim (looked_settles g w {x = x} {w' = w'} (trimmed g) (fresh g)
              (ground (arith, e2, somebody))) [
                | inl same ↦ inl same
                | inr settled ↦ inr (found, g, resolved, completed, settled)
              ]
      ]

-- ===== src/Webhook/Handlers/Twice/Second.antt =====
-- The second delivery of an event to handleSubscriptionGrant of internal/services/webhook/dodo.go.
use orbit_api.Common.{ℕ, ◌≡◌, refl, sym, ap, ◌∙◌, ◌⊎◌, inl, inr, true, false, arith, List, ◌++◌}
use orbit_api.Common.Str.{Str, codes, is_empty}
use orbit_api.Common.Table.{has}
use orbit_api.Common.Result.{ok}
use orbit_api.Store.{Plan, Db, entry_key}
use orbit_api.Webhook.Text.{trim_space}
use orbit_api.Webhook.Grants.Once.{plan_key, grant_period_again}
use orbit_api.Webhook.Object.{DodoObject}
use orbit_api.Webhook.Resolve.{
  Grant, resolve_grant, org_id_from_payment, org_id_from_subscription, enrich_plan_from_payment,
  enrich_plan_from_subscription,
}
use orbit_api.Webhook.Act.{Env, World}
use orbit_api.Webhook.Handlers.{
  subscription_of, complete_grant, grant_event, handle_subscription_grant,
}
use orbit_api.Webhook.Handlers.Books.{handle_subscription_grant-Keeps, grant_period_keeps}
use orbit_api.Webhook.Handlers.SamePlans.{
  with_plans, same_resolved, complete_grant_plans, grant_credits_plans, PlansAre, PlansAre-Blind,
  later,
}
use orbit_api.Webhook.Handlers.Accounts.{SameAccounts, unchanged_accounts, SameAccounts-Blind}
use orbit_api.Webhook.Handlers.Twice.{Trimmed, Granted, first_delivery}

plans_kept :
    (env : Env) (t : Str) (obj : DodoObject) (w : World)
    → (handle_subscription_grant env t obj w).1.db.plans ≡ w.db.plans
plans_kept env t obj w =
    let ps = w.db.plans in
    (handle_subscription_grant-Keeps (PlansAre ps) (PlansAre-Blind ps) env t obj
        (λ found g d d' p e p' e'.
          grant_period_keeps (PlansAre ps) (PlansAre-Blind ps) env
            (λ params d same. grant_credits_plans env.link env.now params ps d same)
            (grant_event env t obj g))).kept
      w refl

module _ (env : Env) (now' : ℕ) (t t' : Str) (obj : DodoObject)
    (named : is_empty (subscription_of obj) ≡ false) where
  -- An event is resolved as it was while the plans are the same.
  same_grant :
      (d d1 d2 : Db) {found found' g g' : Grant}
      → d1.plans ≡ d.plans
      → d2.plans ≡ d.plans
      → resolve_grant env obj d ≡ ok found
      → complete_grant env obj found d ≡ ok g
      → resolve_grant env obj d1 ≡ ok found'
      → complete_grant env obj found' d2 ≡ ok g'
      → g' ≡ g
  same_grant d d1 d2 {found} {found'} {g} {g'} plans1 plans2 r c r' c' =
      let completed : complete_grant env obj found d2 ≡ complete_grant env obj found d =
        complete_grant_plans env obj found d2
        ∙ ap (λ (ps : List Plan). complete_grant env obj found (with_plans ps)) plans2
        ∙ sym (complete_grant_plans env obj found d) in
      let one : found' ≡ found = same_resolved env obj d d1 plans1 r r' in
      let two : complete_grant env obj found d2 ≡ ok g' = rw (sym one) c' in
      ground (arith, completed, two, c)

  second_delivery :
      (d : Db) (w : World)
      → w.db.plans ≡ d.plans
      → ((g : Grant) → Trimmed env t' obj named g)
      → Granted env t obj named d w.db
      → SameAccounts w.db (handle_subscription_grant (later env now') t' obj w).1.db
  unfolding resolve_grant enrich_plan_from_payment complete_grant enrich_plan_from_subscription
      org_id_from_payment org_id_from_subscription
  second_delivery d w plans trimmed (found, g, r, c, settled) =
      (handle_subscription_grant-Keeps (SameAccounts w.db) (SameAccounts-Blind w.db)
          (later env now') t' obj
          (λ found' g' d1 d2 p1 r' p2 c' plan d3 p3.
            let same : g' ≡ g =
              same_grant d d1 d2 {found' = found'} (p1.plans ∙ plans) (p2.plans ∙ plans) r c r'
                c' in
            let there : has entry_key (plan_key (grant_event env t' obj g')) d3.ledger ≡ true =
              rw same (rw p3.ledger settled) in
            rw
              (grant_period_again env.link now' (grant_event env t' obj g') plan d3 named
                (trimmed g') there)
              p3)).kept
        w (unchanged_accounts w.db)

-- The key of before there were plans in keys.
abbrev pub unplanned_key : Env → DodoObject → Str
unplanned_key env obj = codes "dodo_period:" ++ subscription_of obj ++ codes ":" ++ env.period

-- A period is credited at most once: when an event about a named subscription has been handled to the
-- end, and is handled again straight after, in the same month, reported as any of its types, one of the
-- two runs leaves all credits, holds, requests, ledger entries and plans as they are. (The provider and
-- the database answer the second run as they did the first, so both find the same plan. The first finds
-- no grant under the key without a plan, and that key has no space around it.)
pub handle_subscription_grant_once :
    (env : Env) (now' : ℕ) (t t' : Str) (obj : DodoObject) (w : World) {x : Unit {0}} {w' : World}
    → is_empty (subscription_of obj) ≡ false
    → trim_space (unplanned_key env obj) ≡ unplanned_key env obj
    → has entry_key (unplanned_key env obj) w.db.ledger ≡ false
    → handle_subscription_grant env t obj w ≡ (ok x, w')
    → SameAccounts w.db w'.db
      ⊎ SameAccounts w'.db (handle_subscription_grant (later env now') t' obj w').1.db
handle_subscription_grant_once env now' t t' obj w {x} {w'} named trimmed fresh e =
    elim (first_delivery env t obj named w (λ g. trimmed) (λ g. fresh) e) [
      | inl same ↦ inl same
      | inr granted ↦ inr (
          second_delivery env now' t t' obj named w.db w'
            (ap (λ r. r.1.db.plans) (sym e) ∙ plans_kept env t obj w) (λ g. trimmed) granted)
    ]

-- ===== src/Webhook/Handlers/SamePlans.antt =====
-- Plans on sale: what internal/services/webhook/dodo.go resolves an event to reads nothing else of
-- the database, and no handler changes them.
use orbit_api.Common.{ℕ, ◌≡◌, refl, sym, ap, ◌∙◌, inl, inr, arith, List, []}
use orbit_api.Common.Result.{ok}
use orbit_api.Store.{Plan, Db}
use orbit_api.Store.Tx.{Link}
use orbit_api.Billing.Ledger.{GrantParams, grant_credits, grant_on}
use orbit_api.Billing.Ledger.Steps.{grant_on-ok}
use orbit_api.Billing.History.Books.{transact_keeps}
use orbit_api.Webhook.Object.{DodoObject}
use orbit_api.Organization.Plans.{get_by_slug}
use orbit_api.Webhook.Resolve.{
  Grant, resolve_grant, resolve_plan, get_plan_by_id, get_by_dodo_product_id,
  enrich_plan_from_payment, resolve_plan_from_payment, enrich_plan_from_subscription,
}
use orbit_api.Webhook.Act.{Env}
use orbit_api.Webhook.Handlers.{complete_grant}
use orbit_api.Webhook.Handlers.Frame.{Blind}

-- A database with these plans and nothing else.
abbrev pub with_plans : List Plan → Db
with_plans ps = record {
  organizations = [];
  holds = [];
  ledger = [];
  requests = [];
  pricing = [];
  plans = ps;
  invoices = [];
  api_key_ids = [];
  model_ids = [];
}

pub resolve_grant_plans :
    (env : Env) (obj : DodoObject) (d : Db)
    → resolve_grant env obj d ≡ resolve_grant env obj (with_plans d.plans)
unfolding resolve_grant resolve_plan get_plan_by_id get_by_dodo_product_id get_by_slug
    enrich_plan_from_payment resolve_plan_from_payment
resolve_grant_plans env obj d = refl

pub complete_grant_plans :
    (env : Env) (obj : DodoObject) (g : Grant) (d : Db)
    → complete_grant env obj g d ≡ complete_grant env obj g (with_plans d.plans)
unfolding complete_grant resolve_plan get_plan_by_id get_by_dodo_product_id get_by_slug
    enrich_plan_from_subscription resolve_plan_from_payment
complete_grant_plans env obj g d = refl

-- An event is resolved as it was while the plans are the same, also later.
pub same_resolved :
    (env : Env) (obj : DodoObject) (d d' : Db) {g g' : Grant}
    → d'.plans ≡ d.plans
    → resolve_grant env obj d ≡ ok g
    → resolve_grant env obj d' ≡ ok g'
    → g' ≡ g
same_resolved env obj d d' {g} {g'} plans r r' =
    let resolved : resolve_grant env obj d' ≡ resolve_grant env obj d =
      resolve_grant_plans env obj d'
      ∙ ap (λ (ps : List Plan). resolve_grant env obj (with_plans ps)) plans
      ∙ sym (resolve_grant_plans env obj d) in
    ground (arith, resolved, r, r')

-- No handler changes the plans on sale.
pub grant_credits_plans :
    (link : Link) (now : ℕ) (p : GrantParams) (ps : List Plan) (d : Db)
    → d.plans ≡ ps
    → (grant_credits link now p d).1.plans ≡ ps
unfolding grant_credits
grant_credits_plans link now p ps d same =
    transact_keeps (λ d'. d'.plans ≡ ps) link (grant_on link now p) d
      (λ x d' e. elim (grant_on-ok link now p d e) [
        | inl (kept, taken) ↦ rw kept same
        | inr (o, found, fresh, positive, written) ↦ rw written same
      ])
      same

abbrev pub PlansAre : List Plan → Db → Type 0
PlansAre ps d = d.plans ≡ ps

pub PlansAre-Blind : (ps : List Plan) → Blind (PlansAre ps)
PlansAre-Blind ps = record {
  invoices = λ d is s. s;
  plan = λ d org slug s. s;
  subscription = λ d org id s. s;
}

-- The same event, later, where the provider and the database answer as before.
abbrev pub later : Env → ℕ → Env
later env now = record env { now = now }

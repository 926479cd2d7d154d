-- ===== src/Webhook/Grants.antt =====
-- internal/services/webhook/dodo.go: the grant of a period's credits in handleSubscriptionGrant.
pub mod Once
use orbit_api.Common.{ℕ, Bool, true, false, [], ◌∷◌, ◌++◌, ◌&&◌, not, if◌then◌else◌}
use orbit_api.Common.Int.{ℤ, pos, ltb_ℤ}
use orbit_api.Common.Str.{Str, codes, is_empty}
use orbit_api.Common.Table.{has}
use orbit_api.Common.Result.{Result, ok, err}
use orbit_api.Store.{Db, entry_key}
use orbit_api.Store.Tx.{Link, Error, check_key, not_answered}
use orbit_api.Billing.Ledger.{GrantParams, grant_credits}
use orbit_api.Webhook.Text.{trim_space}
use orbit_api.Webhook.Subscription.{subscription_grant_key}

-- HasIdempotencyKey of internal/repositories/billing/repository.go
unfoldable pub has_idempotency_key : Link → Str → Db → Result Error Bool
has_idempotency_key link key d =
    if is_empty (trim_space key)
    then ok false
    else if link check_key
    then err (not_answered check_key)
    else ok (has entry_key (trim_space key) d.ledger)

-- An event about a subscription, with what the handler has looked up for it.
pub record GrantEvent : Type 0 where
  pub event_type : Str
  pub organization_id : Str
  pub subscription_id : Str
  pub plan_slug : Str
  pub credits_micros : ℤ
  pub period : Str

abbrev pub legacy_key : GrantEvent → Str
legacy_key v = codes "dodo_period:" ++ v.subscription_id ++ codes ":" ++ v.period

-- Whether the key of before there were plans in keys is in the ledger.
unfoldable pub legacy_granted : Link → GrantEvent → Db → Result Error Bool
legacy_granted link v d =
    if is_empty v.subscription_id then ok false else has_idempotency_key link (legacy_key v) d

abbrev pub grant_params : GrantEvent → Str → Bool → GrantParams
grant_params v current_plan legacy = record {
  organization_id = v.organization_id;
  amount_micros = v.credits_micros;
  idempotency_key =
      subscription_grant_key v.subscription_id v.plan_slug current_plan v.event_type v.period
        v.organization_id legacy;
  note = if is_empty v.plan_slug then codes "plan_purchase" else codes "plan:" ++ v.plan_slug;
}

-- From the test on the credits to GrantCredits.
unfoldable pub grant_period : Link → ℕ → GrantEvent → Str → Db → Result Error (Unit {0}) × Db
grant_period link now v current_plan d =
    if ltb_ℤ (pos 0) v.credits_micros && not (is_empty v.plan_slug)
    then elim (legacy_granted link v d) [
      | err e ↦ (err e, d)
      | ok legacy ↦ grant_credits link now (grant_params v current_plan legacy) d
    ]
    else (ok tt, d)

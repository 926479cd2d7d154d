-- ===== src/Tests/Webhooks.antt =====
-- The decisions about the payment provider's events on concrete events.
use orbit_api.Common.{◌++◌, ◌≡◌, refl, inl, ◌⊎◌, true, false, not, ◌&&◌, none, some, [], ◌∷◌, List}
use orbit_api.Common.Int.{pos, ◌≤ℤ◌}
use orbit_api.Common.Str.{Str, codes, str_eq, is_empty}
use orbit_api.Common.Result.{ok}
use orbit_api.Common.Table.{lookup}
use orbit_api.Store.{Organization, Db, org_key, plan_key}
use orbit_api.Webhook.Text.{to_lower_point, to_lower, trim_space, trim_left, trim_right, is_space}
use orbit_api.Organization.Plans.{
  set_plan, order_or_zero, raise_plan, set_plan_slug_if_higher, get_by_slug,
}
use orbit_api.Checkout.{plan_change_error, guard_plan_change}
use orbit_api.Checkout.Guard.{guard_plan_change-attaches}
use orbit_api.Organization.Plans.Higher.{set_plan_slug_if_higher_rises}
use orbit_api.Webhook.Mandates.{
  InvoiceSubRef, member, merge_prior_subscription_ids, stale_invoice_ids,
}
use orbit_api.Webhook.Mandates.Exact.{
  all_distinct, named, lower_invoice, merge_prior_subscription_ids-exact, stale_invoice_ids-exact,
}
use orbit_api.Webhook.Subscription.{
  ignore_stale, subscription_persist_action, subscription_grant_key,
}
use orbit_api.Webhook.Subscription.Replay.{ignore_stale-lower}
use orbit_api.Webhook.Refund.{known_refund_status, normalize_refund_status, merge_refund_status}
use orbit_api.Webhook.Refund.Merge.{merge_refund_status-larger}
use orbit_api.Webhook.Grants.{
  GrantEvent, legacy_key, legacy_granted, has_idempotency_key, grant_period,
}
use orbit_api.Webhook.Grants.Once.{grant_period_once}
use orbit_api.Organization.Entitlement.{entitlement_for, member_entitlement}
use orbit_api.Organization.Entitlement.Limits.{allows, entitlement_for-consistent}
use orbit_api.Tests.Data.{runs, answers, acme, acme_row, pro_plan, team_plan, wallet}

abbrev old_id : Str
old_id = codes "sub_1"

abbrev new_id : Str
new_id = codes "sub_2"

abbrev invoices : List InvoiceSubRef
invoices =
    (record { id = old_id; order = pos 1; known = true })
    ∷ (record { id = new_id; order = pos 2; known = true })
    ∷ []

merge_prior_subscription_ids-exact_example :
    (member old_id (merge_prior_subscription_ids old_id new_id (new_id ∷ old_id ∷ [])) ≡ (
      not (is_empty old_id)
      && (not (str_eq old_id (trim_space new_id)) && named old_id (old_id ∷ new_id ∷ old_id ∷ []))))
    × (all_distinct (merge_prior_subscription_ids old_id new_id (new_id ∷ old_id ∷ [])) ≡ true)
merge_prior_subscription_ids-exact_example =
    merge_prior_subscription_ids-exact old_id old_id new_id (new_id ∷ old_id ∷ [])

stale_invoice_ids-exact_example :
    (member old_id (stale_invoice_ids new_id (pos 2) true invoices) ≡ (
      true
      && (not (is_empty old_id)
          && (not (str_eq old_id (trim_space new_id)) && lower_invoice old_id (pos 2) invoices))))
    × (all_distinct (stale_invoice_ids new_id (pos 2) true invoices) ≡ true)
stale_invoice_ids-exact_example = stale_invoice_ids-exact old_id new_id (pos 2) true invoices

stale_runs :
    subscription_persist_action new_id old_id true (pos 1) (pos 2) true (pos 2) ≡ ignore_stale
unfolding runs subscription_persist_action
stale_runs = refl

ignore_stale-lower_example :
    (true ≡ true) × (pos 1 ≤ℤ pos 2) × ((new_id ≡ old_id) ⊎ (true ≡ false) ⊎ (pos 1 ≤ℤ pos 2))
ignore_stale-lower_example =
    ignore_stale-lower new_id old_id true (pos 1) (pos 2) true (pos 2) stale_runs

-- A payment that is refunded outranks an event that says a part of it is.
merge_refund_status-larger_example :
    (merge_refund_status (normalize_refund_status (codes "Partial") false) (codes " Refunded")
      ≡ codes "full")
    × (known_refund_status (
          merge_refund_status (normalize_refund_status (codes "Partial") false) (codes " Refunded"))
        ≡ merge_refund_status (normalize_refund_status (codes "Partial") false) (codes " Refunded"))
unfolding to_lower to_lower_point trim_space trim_left trim_right is_space str_eq
merge_refund_status-larger_example =
    merge_refund_status-larger (codes "Partial") (codes " Refunded") false

abbrev renewed : GrantEvent
renewed = record {
  event_type = codes "subscription.renewed";
  organization_id = acme;
  subscription_id = old_id;
  plan_slug = codes "pro";
  credits_micros = pos 500000;
  period = codes "2025-11";
}

abbrev granted : Db
granted = (grant_period answers 7 renewed [] wallet).1

grant_runs : grant_period answers 7 renewed [] wallet ≡ (ok tt, granted)
unfolding runs grant_period legacy_granted has_idempotency_key subscription_grant_key trim_space
    trim_left trim_right is_space
grant_runs = refl

key_trimmed : trim_space (legacy_key renewed) ≡ legacy_key renewed
unfolding trim_space trim_left trim_right is_space
key_trimmed = refl

same_plan : str_eq (codes "pro") (codes "pro") ≡ true
unfolding runs
same_plan = refl

grant_period_once_example :
    (grant_period answers 8
      (record renewed { event_type = codes "subscription.active" })
      (codes "pro")
      granted).1
    ≡ granted
grant_period_once_example =
    grant_period_once answers answers 7 8 renewed (codes "subscription.active") [] (codes "pro")
      wallet grant_runs refl key_trimmed (inl same_plan)

entitlement_for-consistent_example :
    ((entitlement_for (codes "pro") (pos 2) (some (pos 3)) none).can_create_organization
      ≡ allows
          (entitlement_for (codes "pro") (pos 2) (some (pos 3)) none).max_organizations
          (pos 2))
    × ((member_entitlement
          (entitlement_for (codes "pro") (pos 2) (some (pos 3)) none)
          (pos 9)).can_add_member
        ≡ allows
            (entitlement_for (codes "pro") (pos 2) (some (pos 3)) none).max_members_per_org
            (pos 9))
    × ((entitlement_for (codes "pro") (pos 2) (some (pos 3)) none).max_organizations ≡ some (pos 3))
    × ((entitlement_for (codes "pro") (pos 2) (some (pos 3)) none).max_members_per_org ≡ none)
entitlement_for-consistent_example =
    entitlement_for-consistent (codes "pro") (pos 2) (pos 9) (some (pos 3)) none

abbrev upgraded : Db
upgraded = (set_plan_slug_if_higher answers acme (codes "pro") wallet).1

upgrade_runs : set_plan_slug_if_higher answers acme (codes "pro") wallet ≡ (ok tt, upgraded)
unfolding runs set_plan_slug_if_higher raise_plan order_or_zero
upgrade_runs = refl

acme_found : lookup org_key acme wallet.organizations ≡ some acme_row
unfolding runs
acme_found = refl

pro_found : lookup plan_key (codes "pro") wallet.plans ≡ some pro_plan
unfolding runs
pro_found = refl

set_plan_slug_if_higher_rises_example :
    (o' : Organization) × (lookup org_key acme upgraded.organizations ≡ some o')
    × (o' ≡ set_plan o'.plan_slug acme_row)
    × (order_or_zero [] wallet ≤ℤ order_or_zero o'.plan_slug wallet)
    × (pos 2 ≤ℤ order_or_zero o'.plan_slug wallet)
set_plan_slug_if_higher_rises_example =
    set_plan_slug_if_higher_rises answers acme (codes "pro") wallet acme_row pro_plan upgrade_runs
      acme_found pro_found

abbrev pro_row : Organization
pro_row = set_plan (codes "pro") acme_row

guard_runs : guard_plan_change answers acme team_plan upgraded ≡ ok tt
unfolding runs guard_plan_change plan_change_error get_by_slug set_plan_slug_if_higher raise_plan
    order_or_zero trim_space trim_left trim_right is_space
guard_runs = refl

pro_row_found : lookup org_key acme upgraded.organizations ≡ some pro_row
unfolding runs set_plan_slug_if_higher raise_plan order_or_zero
pro_row_found = refl

pro_named : is_empty (trim_space (codes "pro")) ≡ false
unfolding trim_space trim_left trim_right is_space
pro_named = refl

pro_listed : lookup plan_key (codes "pro") upgraded.plans ≡ some pro_plan
unfolding runs set_plan_slug_if_higher raise_plan order_or_zero
pro_listed = refl

-- Between the checkout and its payment, another plan came on sale.
abbrev at_payment : Db
at_payment = record upgraded {
  plans = upgraded.plans ++ record pro_plan { slug = codes "new" } ∷ [];
}

abbrev team : Db
team = (set_plan_slug_if_higher answers acme (codes "team") at_payment).1

team_runs : set_plan_slug_if_higher answers acme (codes "team") at_payment ≡ (ok tt, team)
unfolding runs set_plan_slug_if_higher raise_plan order_or_zero
team_runs = refl

pro_listed' : lookup plan_key (codes "pro") at_payment.plans ≡ some pro_plan
unfolding runs set_plan_slug_if_higher raise_plan order_or_zero
pro_listed' = refl

team_listed : lookup plan_key (codes "team") at_payment.plans ≡ some team_plan
unfolding runs set_plan_slug_if_higher raise_plan order_or_zero
team_listed = refl

guard_plan_change-attaches_example :
    (str_eq (codes "pro") (codes "team") ≡ false)
    × (lookup org_key acme team.organizations ≡ some (set_plan (codes "team") pro_row))
guard_plan_change-attaches_example =
    guard_plan_change-attaches answers answers acme pro_plan pro_plan team_plan team_plan pro_row
      pro_row upgraded at_payment guard_runs pro_row_found pro_named pro_listed refl pro_row_found
      pro_listed' team_listed refl refl team_runs

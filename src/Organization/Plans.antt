-- ===== src/Organization/Plans.antt =====
-- internal/repositories/organization/repository.go: an organization's plan and subscription; and the
-- order of plans in internal/services/webhook/dodo.go.
pub mod Higher
use orbit_api.Common.{Bool, true, false, Option, none, some, [], ◌∷◌, ◌&&◌, not, if◌then◌else◌}
use orbit_api.Common.Int.{ℤ, pos, leb_ℤ}
use orbit_api.Common.Str.{Str, is_empty}
use orbit_api.Common.Table.{lookup, update, has}
use orbit_api.Common.Result.{Result, ok, err}
use orbit_api.Store.{Organization, Plan, Db, org_key, plan_key}
use orbit_api.Store.Tx.{
  Link, Error, not_answered, unknown_plan, organization_missing, load_plan, load_plan_order,
  update_plan, find_organization, load_subscription, update_subscription,
}
use orbit_api.Webhook.Text.{trim_space}
use orbit_api.Webhook.Subscription.{pick_higher_plan}

abbrev pub set_plan : Str → Organization → Organization
set_plan slug o = record o { plan_slug = slug }

-- COALESCE((SELECT sort_order …), 0)
unfoldable pub order_or_zero : Str → Db → ℤ
order_or_zero slug d = elim (lookup plan_key slug d.plans) [ none ↦ pos 0 | some p ↦ p.sort_order ]

-- The query after an update that met no row.
abbrev pub must_exist : Link → Str → Db → Result Error (Unit {0})
must_exist link org d =
    if link find_organization
    then err (not_answered find_organization)
    else if has org_key org d.organizations
    then ok tt
    else err organization_missing

-- The update of the row, whose plan is not above the new one.
unfoldable pub raise_plan : Link → Str → Plan → Db → Result Error (Unit {0}) × Db
raise_plan link org p d = elim (lookup org_key org d.organizations) [
  | none ↦ (must_exist link org d, d)
  | some o ↦
      if leb_ℤ (order_or_zero o.plan_slug d) p.sort_order
      then (
        ok tt,
        record d { organizations = update org_key org (set_plan p.slug) d.organizations },
      )
      else (must_exist link org d, d)
]

unfoldable pub set_plan_slug_if_higher : Link → Str → Str → Db → Result Error (Unit {0}) × Db
set_plan_slug_if_higher link org slug d =
    if link load_plan_order
    then (err (not_answered load_plan_order), d)
    else elim (lookup plan_key slug d.plans) [
      | none ↦ (err unknown_plan, d)
      | some p ↦
          if link update_plan then (err (not_answered update_plan), d) else raise_plan link org p d
    ]

-- No row is no subscription.
unfoldable pub get_dodo_subscription_id : Link → Str → Db → Result Error Str
get_dodo_subscription_id link org d =
    if link load_subscription
    then err (not_answered load_subscription)
    else elim (lookup org_key org d.organizations) [
      | none ↦ ok []
      | some o ↦ ok (trim_space o.dodo_subscription_id)
    ]

unfoldable pub set_dodo_subscription_id : Link → Str → Str → Db → Result Error (Unit {0}) × Db
set_dodo_subscription_id link org subscription d =
    let org' = trim_space org in
    let subscription' = trim_space subscription in
    if is_empty org'
    then (ok tt, d)
    else if is_empty subscription'
    then (ok tt, d)
    else if link update_subscription
    then (err (not_answered update_subscription), d)
    else if not (has org_key org' d.organizations)
    then (err organization_missing, d)
    else (
      ok tt,
      record d {
        organizations =
            update org_key org' (λ o. record o { dodo_subscription_id = subscription' })
              d.organizations;
      },
    )

-- attachPlan
unfoldable pub attach_plan : Link → Str → Str → Db → Result Error (Unit {0}) × Db
attach_plan link org slug d =
    if is_empty org
    then (ok tt, d)
    else if is_empty slug
    then (ok tt, d)
    else set_plan_slug_if_higher link org slug d

-- GetBySlug of internal/repositories/plan/repository.go, which finds active plans only.
unfoldable pub get_by_slug : Link → Str → Db → Result Error (Option Plan)
get_by_slug link slug d =
    if link load_plan then err (not_answered load_plan) else elim (lookup plan_key slug d.plans) [
      | none ↦ ok none
      | some p ↦ ok (if p.is_active then some p else none)
    ]

unfoldable pub plan_sort_order : Link → Str → Db → Result Error (ℤ × Bool)
plan_sort_order link slug d =
    if is_empty (trim_space slug)
    then ok (pos 0, false)
    else elim (get_by_slug link (trim_space slug) d) [
      | err e ↦ err e
      | ok none ↦ ok (pos 0, false)
      | ok (some p) ↦ ok (p.sort_order, true)
    ]

unfoldable pub higher_plan : Link → Str → Str → Db → Result Error Str
higher_plan link incoming previous d = elim (plan_sort_order link incoming d) [
  | err e ↦ err e
  | ok (incoming_order, incoming_known) ↦ elim (plan_sort_order link previous d) [
    | err e ↦ err e
    | ok (previous_order, previous_known) ↦ ok (
        pick_higher_plan incoming previous incoming_known incoming_order previous_known
          previous_order)
  ]
]

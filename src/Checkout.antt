-- ===== src/Checkout.antt =====
-- internal/services/checkout: which plan an organization may buy.
pub mod Guard
use orbit_api.Common.{Bool, true, false, Option, none, some, if◌then◌else◌}
use orbit_api.Common.Int.{ltb_ℤ}
use orbit_api.Common.Str.{Str, str_eq, is_empty}
use orbit_api.Common.Table.{lookup}
use orbit_api.Common.Result.{Result, ok, err}
use orbit_api.Store.{Plan, Db, org_key}
use orbit_api.Store.Tx.{Link, Error, not_answered, same_plan, downgrade, load_organization}
use orbit_api.Webhook.Text.{trim_space}
use orbit_api.Organization.Plans.{get_by_slug}

unfoldable pub plan_change_error : Option Plan → Option Plan → Result Error (Unit {0})
plan_change_error none target = ok tt
plan_change_error (some c) none = ok tt
plan_change_error (some c) (some t) =
    if str_eq c.slug t.slug
    then err same_plan
    else if ltb_ℤ t.sort_order c.sort_order
    then err downgrade
    else ok tt

unfoldable pub guard_plan_change : Link → Str → Plan → Db → Result Error (Unit {0})
guard_plan_change link org target d =
    if link load_organization
    then err (not_answered load_organization)
    else elim (lookup org_key org d.organizations) [
      | none ↦ ok tt
      | some o ↦
          if is_empty (trim_space o.plan_slug)
          then ok tt
          else elim (get_by_slug link o.plan_slug d) [
            | err e ↦ err e
            | ok current ↦ plan_change_error current (some target)
          ]
    ]

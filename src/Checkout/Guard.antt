-- ===== src/Checkout/Guard.antt =====
-- internal/services/checkout/service.go against internal/repositories/organization/repository.go: a
-- plan that can be bought can be attached.
use orbit_api.Common.{◌≡◌, refl, sym, ap, ◌∙◌, true, false, some, arith}
use orbit_api.Common.Int.{ltb_ℤ}
use orbit_api.Common.Str.{Str, str_eq, is_empty}
use orbit_api.Common.Table.{lookup_key, lookup, update, lookup-update_self}
use orbit_api.Common.Result.{ok}
use orbit_api.Store.{Organization, Plan, Db, org_key, plan_key}
use orbit_api.Store.Tx.{Link}
use orbit_api.Webhook.Text.{trim_space}
use orbit_api.Organization.Plans.{
  set_plan, order_or_zero, raise_plan, set_plan_slug_if_higher, get_by_slug,
}
use orbit_api.Checkout.{plan_change_error, guard_plan_change}

guard-upgrade :
    (link : Link) (org : Str) (c t : Plan) (o : Organization) (d : Db)
    → guard_plan_change link org t d ≡ ok tt
    → lookup org_key org d.organizations ≡ some o
    → is_empty (trim_space o.plan_slug) ≡ false
    → lookup plan_key o.plan_slug d.plans ≡ some c
    → c.is_active ≡ true
    → (str_eq c.slug t.slug ≡ false) × (ltb_ℤ t.sort_order c.sort_order ≡ false)
unfolding guard_plan_change get_by_slug plan_change_error
guard-upgrade link org c t o d passed found named current active =
    ground (arith, passed, found, named, current, active)

order_current :
    (slug : Str) (c : Plan) (d : Db)
    → lookup plan_key slug d.plans ≡ some c
    → order_or_zero slug d ≡ c.sort_order
unfolding order_or_zero
order_current slug c d current = ground (arith, current)

attached :
    (link : Link) (org : Str) (c : Plan) (slug : Str) (t : Plan) (o : Organization) (d : Db)
    {d' : Db}
    → set_plan_slug_if_higher link org slug d ≡ (ok tt, d')
    → lookup org_key org d.organizations ≡ some o
    → lookup plan_key slug d.plans ≡ some t
    → order_or_zero o.plan_slug d ≡ c.sort_order
    → ltb_ℤ t.sort_order c.sort_order ≡ false
    → update org_key org (set_plan t.slug) d.organizations ≡ d'.organizations
unfolding set_plan_slug_if_higher raise_plan
attached link org c slug t o d e found listed order up = ground (arith, e, found, listed, order, up)

-- What the checkout lets an organization buy is what its payment attaches: if the guard lets a plan
-- pass for an organization with an active plan, then it is another plan; and when SetPlanSlugIfHigher
-- goes through for it later, on any database in which the organization still has the plan that it had
-- and the two plans still have their orders, it becomes the organization's plan.
pub guard_plan_change-attaches :
    (link link' : Link) (org : Str) (c c' t t' : Plan) (o o' : Organization) (d d' : Db) {d'' : Db}
    → guard_plan_change link org t d ≡ ok tt
    → lookup org_key org d.organizations ≡ some o
    → is_empty (trim_space o.plan_slug) ≡ false
    → lookup plan_key o.plan_slug d.plans ≡ some c
    → c.is_active ≡ true
    → lookup org_key org d'.organizations ≡ some o'
    → lookup plan_key o'.plan_slug d'.plans ≡ some c'
    → lookup plan_key t.slug d'.plans ≡ some t'
    → c'.sort_order ≡ c.sort_order
    → t'.sort_order ≡ t.sort_order
    → set_plan_slug_if_higher link' org t.slug d' ≡ (ok tt, d'')
    → (str_eq c.slug t.slug ≡ false)
      × (lookup org_key org d''.organizations ≡ some (set_plan t.slug o'))
guard_plan_change-attaches link link' org c c' t t' o o' d d' passed found named current active
      found' current' listed' same_current same_target e =
    let (other, up) = guard-upgrade link org c t o d passed found named current active in
    let up' : ltb_ℤ t'.sort_order c'.sort_order ≡ false = rw (same_current, same_target) up in
    let slug : t'.slug ≡ t.slug = lookup_key plan_key t.slug d'.plans listed' in
    let written =
      attached link' org c' t.slug t' o' d' e found' listed'
        (order_current o'.plan_slug c' d' current') up' in
    (
      other,
      ap (lookup org_key org) (sym written)
          ∙ lookup-update_self org_key org (set_plan t'.slug) d'.organizations found' refl
          ∙ ap (λ (s : Str). some (set_plan s o')) slug,
    )

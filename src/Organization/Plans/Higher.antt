-- ===== src/Organization/Plans/Higher.antt =====
-- internal/repositories/organization/repository.go: an organization's plan only rises.
use orbit_api.Common.{◌≡◌, refl, sym, ap, ◌∙◌, inl, inr, some, arith, Bool-cases}
use orbit_api.Common.Int.{◌≤ℤ◌, leb_ℤ}
use orbit_api.Common.Str.{Str}
use orbit_api.Common.Table.{lookup, update, lookup_key, lookup-update_self}
use orbit_api.Common.Result.{ok}
use orbit_api.Store.{Organization, Plan, Db, org_key, plan_key}
use orbit_api.Store.Tx.{Link}
use orbit_api.Organization.Plans.{set_plan, order_or_zero, raise_plan, set_plan_slug_if_higher}

order_listed :
    (slug : Str) (p : Plan) (d : Db)
    → lookup plan_key slug d.plans ≡ some p
    → order_or_zero p.slug d ≡ p.sort_order
unfolding order_or_zero
order_listed slug p d listed =
    let same = lookup_key plan_key slug d.plans listed in
    let here : lookup plan_key p.slug d.plans ≡ some p =
      ap (λ (s : Str). lookup plan_key s d.plans) same ∙ listed in
    ground (arith, here)

-- What became of the organization's row.
abbrev Rises : Str → Plan → Db → Organization → Db → Type 0
Rises org p d o d' =
    (o' : Organization) × (lookup org_key org d'.organizations ≡ some o')
    × (o' ≡ set_plan o'.plan_slug o)
    × (order_or_zero o.plan_slug d ≤ℤ order_or_zero o'.plan_slug d)
    × (p.sort_order ≤ℤ order_or_zero o'.plan_slug d)

raise_plan-Rises :
    (link : Link) (org : Str) (p : Plan) (d : Db) (o : Organization) {d' : Db}
    → raise_plan link org p d ≡ (ok tt, d')
    → lookup org_key org d.organizations ≡ some o
    → order_or_zero p.slug d ≡ p.sort_order
    → Rises org p d o d'
unfolding raise_plan
raise_plan-Rises link org p d o {d'} e found listed =
    elim (Bool-cases (leb_ℤ (order_or_zero o.plan_slug d) p.sort_order)) [
      | inl up ↦
          let written : update org_key org (set_plan p.slug) d.organizations ≡ d'.organizations =
            ground (arith, e, found, up) in
          (
            set_plan p.slug o,
            ap (lookup org_key org) (sym written)
                ∙ lookup-update_self org_key org (set_plan p.slug) d.organizations found refl,
            refl,
            ground (arith, up, listed),
            ground (arith, listed),
          )
      | inr above ↦
          let kept : d.organizations ≡ d'.organizations = ground (arith, e, found, above) in
          (o, ap (lookup org_key org) (sym kept) ∙ found, refl, omega arith, ground (arith, above))
    ]

-- Attaching a plan never lowers an organization's plan: once SetPlanSlugIfHigher has gone through,
-- the organization's row has a plan whose order is at least that of its plan before and at least
-- that of the plan that was asked for, and nothing else of the row has changed.
pub set_plan_slug_if_higher_rises :
    (link : Link) (org slug : Str) (d : Db) (o : Organization) (p : Plan) {d' : Db}
    → set_plan_slug_if_higher link org slug d ≡ (ok tt, d')
    → lookup org_key org d.organizations ≡ some o
    → lookup plan_key slug d.plans ≡ some p
    → (o' : Organization) × (lookup org_key org d'.organizations ≡ some o')
      × (o' ≡ set_plan o'.plan_slug o)
      × (order_or_zero o.plan_slug d ≤ℤ order_or_zero o'.plan_slug d)
      × (p.sort_order ≤ℤ order_or_zero o'.plan_slug d)
unfolding set_plan_slug_if_higher
set_plan_slug_if_higher_rises link org slug d o p {d'} e found listed =
    let went : raise_plan link org p d ≡ (ok tt, d') = ground (arith, e, listed) in
    raise_plan-Rises link org p d o went found (order_listed slug p d listed)

-- ===== src/Organization/Entitlement/Limits.antt =====
-- internal/services/organization/entitlement.go: the limits are kept, and are not too strict.
use orbit_api.Common.{◌≡◌, refl, Bool, true, Option, none, some, [], ◌∷◌, if◌then◌else◌}
use orbit_api.Common.Int.{ℤ, pos, ltb_ℤ}
use orbit_api.Common.Str.{Str, is_empty}
use orbit_api.Organization.Entitlement.{entitlement_for, can_add_member, member_entitlement}

-- The limit that an entitlement reports, as the answer to a count: none is no limit.
unfoldable pub allows : Option ℤ → ℤ → Bool
allows none count = true
allows (some n) count = ltb_ℤ count n

-- What an entitlement reports as its limits is what it grants: another organization, and another
-- member at any count, are allowed exactly if there is no limit or the count is below it. The
-- reported limits are the plan's, and no plan at all allows one organization with one member.
pub entitlement_for-consistent :
    (plan_slug : Str) (org_count member_count : ℤ) (max_orgs max_members : Option ℤ)
    → let e = entitlement_for plan_slug org_count max_orgs max_members in
      (e.can_create_organization ≡ allows e.max_organizations org_count)
      × ((member_entitlement e member_count).can_add_member
          ≡ allows e.max_members_per_org member_count)
      × (e.max_organizations ≡ (if is_empty plan_slug then some (pos 1) else max_orgs))
      × (e.max_members_per_org ≡ (if is_empty plan_slug then some (pos 1) else max_members))
unfolding entitlement_for member_entitlement can_add_member allows
entitlement_for-consistent [] org_count member_count max_orgs max_members = (refl, refl, refl, refl)
entitlement_for-consistent (c ∷ cs) org_count member_count none none = (refl, refl, refl, refl)
entitlement_for-consistent (c ∷ cs) org_count member_count none (some m) = (refl, refl, refl, refl)
entitlement_for-consistent (c ∷ cs) org_count member_count (some n) none = (refl, refl, refl, refl)
entitlement_for-consistent (c ∷ cs) org_count member_count (some n) (some m) =
    (refl, refl, refl, refl)

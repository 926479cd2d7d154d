-- ===== src/Organization/Entitlement.antt =====
-- internal/services/organization/entitlement.go: how many organizations and members a plan allows.
pub mod Limits
use orbit_api.Common.{Bool, true, false, Option, none, some, [], ◌∷◌, ◌||◌, if◌then◌else◌}
use orbit_api.Common.Int.{ℤ, pos, ltb_ℤ}
use orbit_api.Common.Str.{Str, is_empty}

abbrev pub free_max_organizations : ℤ
free_max_organizations = pos 1

abbrev pub free_max_members_per_org : ℤ
free_max_members_per_org = pos 1

pub record Entitlement : Type 0 where
  pub plan_slug : Str
  pub organization_count : ℤ
  pub max_organizations : Option ℤ
  pub max_members_per_org : Option ℤ
  pub unlimited_organizations : Bool
  pub unlimited_members : Bool
  pub can_create_organization : Bool

pub record MemberEntitlement : Type 0 where
  pub plan_slug : Str
  pub member_count : ℤ
  pub max_members_per_org : Option ℤ
  pub unlimited_members : Bool
  pub can_add_member : Bool

-- `p == nil`
abbrev pub is_nil : Option ℤ → Bool
is_nil none = true
is_nil (some n) = false

-- `p != nil && count < *p`
abbrev pub below : Option ℤ → ℤ → Bool
below none count = false
below (some n) count = ltb_ℤ count n

unfoldable pub entitlement_for : Str → ℤ → Option ℤ → Option ℤ → Entitlement
entitlement_for plan_slug org_count max_orgs max_members =
    if is_empty plan_slug
    then record {
      plan_slug = [];
      organization_count = org_count;
      max_organizations = some free_max_organizations;
      max_members_per_org = some free_max_members_per_org;
      unlimited_organizations = false;
      unlimited_members = false;
      can_create_organization = ltb_ℤ org_count free_max_organizations;
    }
    else record {
      plan_slug = plan_slug;
      organization_count = org_count;
      max_organizations = max_orgs;
      max_members_per_org = max_members;
      unlimited_organizations = is_nil max_orgs;
      unlimited_members = is_nil max_members;
      can_create_organization = is_nil max_orgs || below max_orgs org_count;
    }

unfoldable pub can_add_member : Entitlement → ℤ → Bool
can_add_member e member_count =
    if e.unlimited_members then true else below e.max_members_per_org member_count

unfoldable pub member_entitlement : Entitlement → ℤ → MemberEntitlement
member_entitlement e member_count = record {
  plan_slug = e.plan_slug;
  member_count = member_count;
  max_members_per_org = e.max_members_per_org;
  unlimited_members = e.unlimited_members;
  can_add_member = can_add_member e member_count;
}

-- ===== src/Webhook/Resolve.antt =====
-- internal/services/webhook/dodo.go: which organization an event is about, and which plan and
-- credits it is for.
use orbit_api.Common.{
  ℕ, zero, suc, Bool, false, Option, none, some, List, [], ◌∷◌, ◌&&◌, ◌||◌, ◌==◌, if◌then◌else◌,
}
use orbit_api.Common.Int.{ℤ}
use orbit_api.Common.Str.{Str, codes, str_eq, is_empty}
use orbit_api.Common.Dict.{Dict, get}
use orbit_api.Common.Table.{lookup}
use orbit_api.Common.Result.{Result, ok, err}
use orbit_api.Store.{Plan, Db, plan_id_key, product_key}
use orbit_api.Store.Tx.{Link, Error, not_answered, load_plan}
use orbit_api.Organization.Plans.{get_by_slug}
use orbit_api.Webhook.Json.{Json, sprint, string_map_value}
use orbit_api.Webhook.Text.{trim_space, to_lower, between, first_non_empty}
use orbit_api.Webhook.Provider.{Payment, get_payment, latest_subscription_payment}
use orbit_api.Webhook.Object.{DodoObject, empty_object, payment_id_of, metadata_of, parse_int64}
use orbit_api.Webhook.Act.{Env}

-- uuidPattern of internal/repositories/plan/repository.go: groups of hexadecimal digits.
abbrev pub is_hex : ℕ → Bool
is_hex c = between 48 57 c || (between 65 70 c || between 97 102 c)

unfoldable pub hex_groups : List ℕ → Str → Bool
hex_groups [] s = is_empty s
hex_groups (zero ∷ []) s = is_empty s
hex_groups (zero ∷ g ∷ gs) [] = false
hex_groups (zero ∷ g ∷ gs) (c ∷ cs) = let rest = hex_groups (g ∷ gs) cs in c == 45 && rest
hex_groups (suc n ∷ gs) [] = false
hex_groups (suc n ∷ gs) (c ∷ cs) = let rest = hex_groups (n ∷ gs) cs in is_hex c && rest

abbrev pub is_uuid : Str → Bool
is_uuid s = hex_groups (8 ∷ 4 ∷ 4 ∷ 4 ∷ 12 ∷ []) s

-- GetByID: an id is stored in lower case.
unfoldable pub get_plan_by_id : Link → Str → Db → Result Error (Option Plan)
get_plan_by_id link id d =
    if is_uuid id
    then (if link load_plan
        then err (not_answered load_plan)
        else ok (lookup plan_id_key (to_lower id) d.plans))
    else ok none

unfoldable pub get_by_dodo_product_id : Link → Str → Db → Result Error (Option Plan)
get_by_dodo_product_id link product d =
    if link load_plan then err (not_answered load_plan) else ok (lookup product_key product d.plans)

-- `if found != nil { return found, nil }`
abbrev pub or_next :
    Result Error (Option Plan) → Result Error (Option Plan) → Result Error (Option Plan)
or_next (err e) next = err e
or_next (ok (some p)) next = ok (some p)
or_next (ok none) next = next

-- A query by a key that may be blank.
abbrev pub by_key : (Str → Db → Result Error (Option Plan)) → Str → Db → Result Error (Option Plan)
by_key find key d = if is_empty key then ok none else find key d

-- The product, or that of the first item's price.
abbrev pub product_of : DodoObject → Str
product_of obj =
    let own = first_non_empty (obj.product_id ∷ []) in
    if is_empty own
    then elim obj.items [ [] ↦ own | none ∷ items ↦ own | some product ∷ items ↦ product ]
    else own

unfoldable pub resolve_plan : Link → Dict → DodoObject → Db → Result Error (Option Plan)
resolve_plan link meta obj d =
    or_next (by_key (get_plan_by_id link) (first_non_empty (get (codes "plan_id") meta ∷ [])) d) (
      or_next (by_key (get_by_slug link) (first_non_empty (get (codes "plan_slug") meta ∷ [])) d)
        (by_key (get_by_dodo_product_id link) (product_of obj) d))

-- The payment's metadata without those that are blank or nil.
unfoldable pub payment_metadata : List (Str × Json) → Dict
payment_metadata [] = []
payment_metadata ((k, j) ∷ m) =
    let rest = payment_metadata m in
    let typed = trim_space (sprint j) in
    if is_empty typed || str_eq typed (codes "<nil>") then rest else (k, typed) ∷ rest

unfoldable pub resolve_plan_from_payment :
    Link → DodoObject → Payment → Db → Result Error (Option Plan)
resolve_plan_from_payment link obj p d =
    resolve_plan link (payment_metadata p.metadata)
      (if is_empty obj.product_id then record obj { product_id = trim_space p.product_id } else obj)
      d

unfoldable pub enrich_plan_from_payment : Env → DodoObject → Db → Result Error (Option Plan)
enrich_plan_from_payment env obj d =
    if is_empty (payment_id_of obj)
    then ok none
    else elim (get_payment env.provider (payment_id_of obj)) [
      | err e ↦ ok none
      | ok p ↦ resolve_plan_from_payment env.link obj p d
    ]

unfoldable pub enrich_plan_from_subscription : Env → Str → Db → Result Error (Option Plan)
enrich_plan_from_subscription env subscription_id d =
    if is_empty (trim_space subscription_id)
    then ok none
    else elim (latest_subscription_payment env.provider subscription_id) [
      | err e ↦ ok none
      | ok none ↦ ok none
      | ok (some p) ↦ resolve_plan_from_payment env.link empty_object p d
    ]

-- stringMapValue of both spellings.
abbrev pub organization_in : List (Str × Json) → Str
organization_in meta = first_non_empty (
    string_map_value meta (codes "organization_id")
    ∷ string_map_value meta (codes "organizationId")
    ∷ [])

unfoldable pub org_id_from_payment : Env → DodoObject → Str
org_id_from_payment env obj =
    if is_empty (payment_id_of obj)
    then []
    else elim (get_payment env.provider (payment_id_of obj)) [
      | err e ↦ []
      | ok p ↦ organization_in p.metadata
    ]

unfoldable pub org_id_from_subscription : Env → Str → Str
org_id_from_subscription env subscription_id =
    if is_empty (trim_space subscription_id)
    then []
    else elim (latest_subscription_payment env.provider subscription_id) [
      | err e ↦ []
      | ok none ↦ []
      | ok (some p) ↦ organization_in p.metadata
    ]

-- What an event is about.
pub record Grant : Type 0 where
  pub organization_id : Str
  pub plan_slug : Str
  pub credits_micros : ℤ

abbrev pub grant_of : Dict → Option Plan → Grant
grant_of meta none = record {
  organization_id =
      first_non_empty (get (codes "organization_id") meta ∷ get (codes "organizationId") meta ∷ []);
  plan_slug = [];
  credits_micros = parse_int64 (get (codes "credits_micros") meta);
}
grant_of meta (some p) = record {
  organization_id =
      first_non_empty (get (codes "organization_id") meta ∷ get (codes "organizationId") meta ∷ []);
  plan_slug = p.slug;
  credits_micros = p.credits_micros;
}

unfoldable pub resolve_grant : Env → DodoObject → Db → Result Error Grant
resolve_grant env obj d =
    let meta = metadata_of obj in
    elim (resolve_plan env.link meta obj d) [
      | err e ↦ err e
      | ok (some p) ↦ ok (grant_of meta (some p))
      | ok none ↦ elim (enrich_plan_from_payment env obj d) [
        | err e ↦ err e
        | ok found ↦ ok (grant_of meta found)
      ]
    ]

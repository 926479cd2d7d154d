-- ===== src/Webhook/Subscription.antt =====
-- internal/services/webhook/dodo.go: which of two plans and two subscriptions counts, and the key
-- under which a period's credits are granted.
pub mod Replay
use orbit_api.Common.{
  Bool, true, false, Option, none, some, List, [], ◌∷◌, ◌++◌, ◌&&◌, ◌||◌, not, if◌then◌else◌,
}
use orbit_api.Common.Int.{ℤ, pos, ltb_ℤ, leb_ℤ, eqb_ℤ}
use orbit_api.Common.Str.{Str, codes, str_eq, is_empty}

-- An unknown plan's order is not looked at.
unfoldable pub pick_higher_plan : Str → Str → Bool → ℤ → Bool → ℤ → Str
pick_higher_plan incoming_plan previous_plan incoming_known incoming_order previous_known
      previous_order =
    if incoming_known && (not previous_known || ltb_ℤ previous_order incoming_order)
    then incoming_plan
    else previous_plan

-- "keep", "stale", "adopt" and "defer".
pub data PersistAction : Type 0 where
  keep ignore_stale adopt defer : PersistAction

unfoldable pub subscription_persist_action : Str → Str → Bool → ℤ → ℤ → Bool → ℤ → PersistAction
subscription_persist_action stored incoming incoming_known incoming_order previous_order
      stored_known stored_order =
    let is_upgrade = ltb_ℤ previous_order incoming_order in
    let is_first = is_empty stored && eqb_ℤ previous_order (pos 0) in
    if is_empty incoming
    then keep
    else if str_eq stored incoming
    then if incoming_known && ltb_ℤ incoming_order previous_order then ignore_stale else keep
    else if not incoming_known
    then if is_first then adopt else defer
    else if stored_known && ltb_ℤ stored_order incoming_order
    then adopt
    else if is_upgrade || (is_first || (is_empty stored && leb_ℤ previous_order incoming_order))
    then adopt
    else ignore_stale

unfoldable pub subscription_grant_key : Str → Str → Str → Str → Str → Str → Bool → Str
subscription_grant_key subscription_id incoming_plan current_plan event_type period org_id
      legacy_granted =
    if is_empty subscription_id
    then codes "dodo_event:" ++ event_type ++ codes ":" ++ period ++ codes ":" ++ org_id
    else let legacy = codes "dodo_period:" ++ subscription_id ++ codes ":" ++ period in
      if is_empty incoming_plan || (str_eq incoming_plan current_plan && legacy_granted)
      then legacy
      else codes "dodo_period:"
        ++ subscription_id
        ++ codes ":"
        ++ incoming_plan
        ++ codes ":"
        ++ period

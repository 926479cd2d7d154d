-- ===== src/Webhook/Subscription/Replay.antt =====
-- internal/services/webhook/dodo.go: what the decisions mean for a subscription.
use orbit_api.Common.{◌≡◌, ◌⊎◌, inl, inr, Bool, true, false, arith, Bool-cases}
use orbit_api.Common.Int.{ℤ, ◌≤ℤ◌}
use orbit_api.Common.Str.{Str, str_eq, str_eq-eq}
use orbit_api.Webhook.Subscription.{ignore_stale, subscription_persist_action}

-- A subscription is cancelled as stale only if its plan is known and not above the organization's;
-- and, unless it is the stored subscription itself, not above the stored one's plan either, if that
-- is known.
pub ignore_stale-lower :
    (stored incoming : Str) (incoming_known : Bool) (incoming_order previous_order : ℤ)
    (stored_known : Bool) (stored_order : ℤ)
    → subscription_persist_action stored incoming incoming_known incoming_order previous_order
        stored_known stored_order
      ≡ ignore_stale
    → (incoming_known ≡ true)
      × (incoming_order ≤ℤ previous_order)
      × ((stored ≡ incoming) ⊎ (stored_known ≡ false) ⊎ (incoming_order ≤ℤ stored_order))
unfolding subscription_persist_action
ignore_stale-lower stored incoming incoming_known incoming_order previous_order stored_known
      stored_order h =
    elim (Bool-cases (str_eq stored incoming)) [
      | inl e ↦ (ground arith, ground arith, inl (str_eq-eq stored incoming e))
      | inr ne ↦ elim (Bool-cases stored_known) [
        | inl k ↦ (ground arith, ground arith, inr (inr (ground arith)))
        | inr n ↦ (ground arith, ground arith, inr (inl n))
      ]
    ]

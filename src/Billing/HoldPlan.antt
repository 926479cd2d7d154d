-- ===== src/Billing/HoldPlan.antt =====
-- internal/services/billing/hold_plan.go: how much of a balance a request freezes.
pub mod Facts
pub mod Cover
use orbit_api.Common.{Bool, if◌then◌else◌}
use orbit_api.Common.Int.{ℤ, pos, ltb_ℤ, leb_ℤ}
use orbit_api.Common.Word.{add64, sub64}
use orbit_api.Common.Result.{Result, ok, err}
use orbit_api.Billing.Charge.{
  max_output_tokens, at_least_zero, charge_micros_ceil, max_tokens_for_budget,
}

-- ErrInsufficientCredits of the service, "low on credits": the only error of ComputeHold.
pub data PlanError : Type 0 where
  low_on_credits : PlanError

pub record HoldPlan : Type 0 where
  pub amount_micros : ℤ
  pub max_tokens : ℤ

-- The client's max_tokens, or the default, or 4096, at most MaxOutputTokens.
unfoldable pub output_cap : ℤ → ℤ → ℤ
output_cap requested_max default_max =
    let default_max' = if ltb_ℤ default_max (pos 1) then pos 4096 else default_max in
    let requested = if leb_ℤ requested_max (pos 0) then default_max' else requested_max in
    if ltb_ℤ max_output_tokens requested then max_output_tokens else requested

-- The output tokens that the budget affords; all that were asked for where output is free.
unfoldable pub affordable_out : ℤ → ℤ → ℤ → ℤ
affordable_out requested_max output_per_million out_budget =
    if leb_ℤ output_per_million (pos 0)
    then requested_max
    else max_tokens_for_budget out_budget output_per_million

-- The freeze for a clamped number of output tokens.
unfoldable pub freeze : ℤ → ℤ → ℤ → ℤ → Result PlanError HoldPlan
freeze max_tokens output_per_million available input_hold =
    let sum = add64 input_hold (charge_micros_ceil max_tokens output_per_million) in
    let hold = if ltb_ℤ sum (pos 1) then pos 1 else sum in
    if ltb_ℤ available hold
    then err low_on_credits
    else ok (record { amount_micros = hold; max_tokens = max_tokens })

unfoldable pub clamp_and_freeze : ℤ → ℤ → ℤ → ℤ → ℤ → Result PlanError HoldPlan
unfolding freeze
clamp_and_freeze affordable requested_max output_per_million available input_hold =
    if ltb_ℤ affordable (pos 1)
    then err low_on_credits
    else freeze (if ltb_ℤ affordable requested_max then affordable else requested_max)
        output_per_million available input_hold

unfoldable pub compute_hold : ℤ → ℤ → ℤ → ℤ → ℤ → ℤ → ℤ → Result PlanError HoldPlan
unfolding output_cap affordable_out clamp_and_freeze
compute_hold input_tokens requested_max default_max input_per_million output_per_million available
      threshold =
    if ltb_ℤ available threshold
    then err low_on_credits
    else let input_hold = charge_micros_ceil (at_least_zero input_tokens) input_per_million in
      if leb_ℤ available input_hold
      then err low_on_credits
      else let requested = output_cap requested_max default_max in
        clamp_and_freeze (affordable_out requested output_per_million (sub64 available input_hold))
          requested output_per_million available input_hold

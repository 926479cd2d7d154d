-- ===== src/Billing/HoldPlan/Facts.antt =====
-- ComputeHold of internal/services/billing/hold_plan.go over numbers, where no product overflows.
use orbit_api.Common.{
  ℕ, ◌+◌, ◌-◌, ◌*◌, ◌/◌, ◌≤◌, ◌<◌, ◌≡◌, arith, if◌then◌else◌, ltb, leb, Bool-cases, inl, inr,
}
use Prim.Native.Nat.{min, max}
use orbit_api.Common.Int.{ℤ, pos, negsuc}
use orbit_api.Common.Word.{two63, add64-pos}
use orbit_api.Common.Result.{Result, ok, err}
use orbit_api.Billing.Charge.Bounds.{charge_micros_ceil-pos, max_tokens_for_budget-pos}
use orbit_api.Billing.HoldPlan.{
  PlanError, low_on_credits, HoldPlan, output_cap, affordable_out, freeze, clamp_and_freeze,
}

pub output_cap-pos : (r d : ℤ) → (c : ℕ) × (output_cap r d ≡ pos c) × (1 ≤ c) × (c ≤ 128000)
unfolding output_cap
output_cap-pos (pos r) (pos d) = (
  if ltb 128000 (if leb r 0 then (if ltb d 1 then 4096 else d) else r)
      then 128000
      else (if leb r 0 then (if ltb d 1 then 4096 else d) else r),
  ground arith,
  ground arith,
  ground arith,
)
output_cap-pos (pos r) (negsuc d) = (
  if ltb 128000 (if leb r 0 then 4096 else r) then 128000 else (if leb r 0 then 4096 else r),
  ground arith,
  ground arith,
  ground arith,
)
output_cap-pos (negsuc r) (pos d) = (
  if ltb 128000 (if ltb d 1 then 4096 else d) then 128000 else (if ltb d 1 then 4096 else d),
  ground arith,
  ground arith,
  ground arith,
)
output_cap-pos (negsuc r) (negsuc d) = (4096, ground arith, ground arith, ground arith)

pub div_mul_le : (b p : ℕ) → b / p * p ≤ b
div_mul_le b p = grind arith

pub above_div : (b p : ℕ) → 0 < p → b < (b / p + 1) * p
above_div b p h = grind arith

-- The output tokens that a budget of `b` millionths affords, up to the cap `c`.
abbrev pub affordable : ℕ → ℕ → ℕ → ℕ
affordable c q b = if leb q 0 then c else min 128000 (b * 1000000 / q)

-- The cost of `t` tokens at `p` per million, rounded up.
abbrev pub ceil_cost : ℕ → ℕ → ℕ
ceil_cost t p = (t * p + 999999) / 1000000

pub affordable_out-pos :
    (c q b : ℕ)
    → b * 1000000 < two63
    → affordable_out (pos c) (pos q) (pos b) ≡ pos (affordable c q b)
unfolding affordable_out
affordable_out-pos c q b h = elim (Bool-cases (leb q 0)) [
  | inl e ↦ ground arith
  | inr e ↦ ground (arith, max_tokens_for_budget-pos b q)
]

pub affordable-fits : (c q b : ℕ) → min (affordable c q b) c * q ≤ b * 1000000
affordable-fits c q b = elim (Bool-cases (leb q 0)) [
  | inl e ↦ grind arith
  | inr e ↦ grind (arith, div_mul_le (b * 1000000) q)
]

pub mul_mono : (a b c : ℕ) → a ≤ b → a * c ≤ b * c
mul_mono a b c h = grind arith

-- A freeze that the budget affords is never refused: the last guard is not reached.
freeze-pos :
    (m q a h : ℕ)
    → m ≤ 128000
    → h < a
    → a < two63
    → 128000 * q + 1000000 < two63
    → m * q ≤ (a - h) * 1000000
    → freeze (pos m) (pos q) (pos a) (pos h)
      ≡ ok (record { amount_micros = pos (max 1 (h + ceil_cost m q)); max_tokens = pos m })
unfolding freeze
freeze-pos m q a h hm ha fit small afford =
    ground (arith, mul_mono m 128000 q, charge_micros_ceil-pos m q, add64-pos h (ceil_cost m q))

-- ComputeHold without machine words: what is asked for, what is affordable, what is frozen.
abbrev pub planned : ℕ → ℕ → ℕ → ℕ → Result PlanError HoldPlan
planned c q a h =
    let m = min (affordable c q (a - h)) c in
    if leb 1 m
    then ok (record { amount_micros = pos (max 1 (h + ceil_cost m q)); max_tokens = pos m })
    else err low_on_credits

pub clamp_and_freeze-planned :
    (c q a h : ℕ)
    → 1 ≤ c
    → c ≤ 128000
    → h < a
    → a < two63
    → 128000 * q + 1000000 < two63
    → clamp_and_freeze (pos (affordable c q (a - h))) (pos c) (pos q) (pos a) (pos h)
      ≡ planned c q a h
unfolding clamp_and_freeze
clamp_and_freeze-planned c q a h h1 hc ha fit small =
    ground (arith, affordable-fits c q (a - h), freeze-pos (min (affordable c q (a - h)) c) q a h)

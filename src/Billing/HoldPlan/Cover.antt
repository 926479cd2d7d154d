-- ===== src/Billing/HoldPlan/Cover.antt =====
-- What ComputeHold of internal/services/billing/hold_plan.go promises about a freeze.
use Prim.Native.Nat.{min, max}
use orbit_api.Common.{
  ℕ, ◌+◌, ◌-◌, ◌*◌, ◌/◌, ◌≤◌, ◌<◌, ◌≡◌, ◌≢◌, ◌∙◌, sym, ap, refl, inl, inr, arith, if◌then◌else◌,
  leb, Bool-cases,
}
use orbit_api.Common.Int.{ℤ, pos, pos_part, ◌≤ℤ◌, ltb_ℤ}
use orbit_api.Common.Word.{two63, sub64-pos}
use orbit_api.Common.Result.{Result, ok, err}
use orbit_api.Billing.Charge.{charge_micros}
use orbit_api.Billing.Charge.Bounds.{charge_micros-pos, charge_micros_ceil-pos}
use orbit_api.Billing.HoldPlan.{PlanError, low_on_credits, HoldPlan, output_cap, compute_hold}
use orbit_api.Billing.HoldPlan.Facts.{
  output_cap-pos, affordable, affordable_out-pos, affordable-fits, ceil_cost, planned,
  clamp_and_freeze-planned, mul_mono, above_div,
}

-- No product of the call leaves the int64 range: the balance is below nine million dollars, and
-- the prices and the prompt are as small.
pub record Fits (i p q a : ℕ) : Type 0 where
  pub input_fits : i * p + 1000000 < two63
  pub budget_fits : a * 1000000 < two63
  pub output_fits : 128000 * q + 1000000 < two63

-- The plan in plain arithmetic: the balance reaches the threshold, exceeds the input's cost, and
-- what it affords of the output is at least one token.
abbrev pub reference : ℕ → ℕ → ℕ → ℕ → ℕ → ℤ → Result PlanError HoldPlan
reference c i p q a threshold =
    if ltb_ℤ (pos a) threshold
    then err low_on_credits
    else if leb a (ceil_cost i p)
    then err low_on_credits
    else planned c q a (ceil_cost i p)

-- Where no product overflows, ComputeHold is the plain arithmetic of `reference`, on every branch:
-- neither machine words nor the guard on a hold above the balance change its result.
pub compute_hold-reference :
    (i p q a : ℕ) (r d threshold : ℤ)
    → Fits i p q a
    → compute_hold (pos i) r d (pos p) (pos q) (pos a) threshold
      ≡ reference (pos_part (output_cap r d)) i p q a threshold
unfolding compute_hold
compute_hold-reference i p q a r d threshold fits =
    let (c, ce, c1, c2) = output_cap-pos r d in
    let h = ceil_cost i p in
    ground (
      arith,
      ce,
      fits.input_fits,
      charge_micros_ceil-pos i p,
      sub64-pos a h,
      affordable_out-pos c q (a - h),
      clamp_and_freeze-planned c q a h,
    )

-- Where the allowance falls short of the request, one more token exceeds the budget.
next_token-dear :
    (c q b h a : ℕ)
    → c ≤ 128000
    → h < a
    → min (affordable c q b) c ≢ c
    → b ≡ a - h
    → a < h + ceil_cost (min (affordable c q b) c + 1) q
next_token-dear c q b h a c2 below short same = elim (Bool-cases (leb q 0)) [
  | inl e ↦ ground arith
  | inr e ↦
      let dear : b * 1000000 < (b * 1000000 / q + 1) * q =
        ground (arith, above_div (b * 1000000) q) in
      let least : min (affordable c q b) c ≡ b * 1000000 / q = ground arith in
      rw least (ground arith)
]

-- What a plan that was made is, with the capped request `c` as a number.
compute_hold-ok :
    (i p q a : ℕ) (r d threshold : ℤ) (plan : HoldPlan)
    → Fits i p q a
    → compute_hold (pos i) r d (pos p) (pos q) (pos a) threshold ≡ ok plan
    → (c : ℕ) × (output_cap r d ≡ pos c)
      × (c ≤ 128000)
      × (threshold ≤ℤ pos a)
      × (ceil_cost i p < a)
      × (1 ≤ min (affordable c q (a - ceil_cost i p)) c)
      × (plan.max_tokens ≡ pos (min (affordable c q (a - ceil_cost i p)) c))
      × (plan.amount_micros
          ≡ pos (max 1 (ceil_cost i p + ceil_cost (min (affordable c q (a - ceil_cost i p)) c) q)))
compute_hold-ok i p q a r d threshold plan fits e =
    let (c, ce, c1, c2) = output_cap-pos r d in
    let result = compute_hold-reference i p q a r d threshold fits in
    (
      c,
      ce,
      c2,
      ground (arith, ce, e, result),
      ground (arith, ce, e, result),
      ground (arith, ce, e, result),
      ground (arith, ce, e, result),
      ground (arith, ce, e, result),
    )

-- A successful plan freezes at least one millionth and at most the balance, which reaches the
-- threshold, and allows at least one output token and at most the capped request.
pub compute_hold-bounds :
    (i p q a : ℕ) (r d threshold : ℤ) (plan : HoldPlan)
    → Fits i p q a
    → compute_hold (pos i) r d (pos p) (pos q) (pos a) threshold ≡ ok plan
    → (threshold ≤ℤ pos a)
      × (pos 1 ≤ℤ plan.amount_micros)
      × (plan.amount_micros ≤ℤ pos a)
      × (pos 1 ≤ℤ plan.max_tokens)
      × (plan.max_tokens ≤ℤ output_cap r d)
compute_hold-bounds i p q a r d threshold plan fits e =
    let (c, ce, c2, low, below, some_output, tokens, amount) =
      compute_hold-ok i p q a r d threshold plan fits e in
    ground
      (arith, ce, low, below, some_output, tokens, amount, affordable-fits c q (a - ceil_cost i p))

-- A freeze covers every charge that keeps to the plan: with no more input tokens than were
-- estimated and no more output tokens than were allowed, the charge is at most the frozen amount.
pub compute_hold-covers :
    (i p q a : ℕ) (r d threshold : ℤ) (plan : HoldPlan) (i' o' : ℕ)
    → Fits i p q a
    → compute_hold (pos i) r d (pos p) (pos q) (pos a) threshold ≡ ok plan
    → i' ≤ i
    → pos o' ≤ℤ plan.max_tokens
    → charge_micros (pos i') (pos o') (pos p) (pos q) ≤ℤ plan.amount_micros
compute_hold-covers i p q a r d threshold plan i' o' fits e hi ho =
    let (c, ce, c2, low, below, some_output, tokens, amount) =
      compute_hold-ok i p q a r d threshold plan fits e in
    let m = min (affordable c q (a - ceil_cost i p)) c in
    let within : o' ≤ m = ground (arith, tokens) in
    let room : m * q ≤ (a - ceil_cost i p) * 1000000 = affordable-fits c q (a - ceil_cost i p) in
    rw
      (
        amount,
        charge_micros-pos i' o' p q (
            omega
              (arith, below, room, fits.budget_fits, mul_mono i' i p hi, mul_mono o' m q within)),
      )
      (omega (arith, mul_mono i' i p hi, mul_mono o' m q within))

-- The output allowance is the largest that the balance affords: if it falls short of the capped
-- request, then one more token would cost more than the balance.
pub compute_hold-largest :
    (i p q a : ℕ) (r d threshold : ℤ) (plan : HoldPlan)
    → Fits i p q a
    → compute_hold (pos i) r d (pos p) (pos q) (pos a) threshold ≡ ok plan
    → plan.max_tokens ≢ output_cap r d
    → a < ceil_cost i p + ceil_cost (pos_part plan.max_tokens + 1) q
compute_hold-largest i p q a r d threshold plan fits e ne =
    let (c, ce, c2, low, below, some_output, tokens, amount) =
      compute_hold-ok i p q a r d threshold plan fits e in
    let short : min (affordable c q (a - ceil_cost i p)) c ≢ c =
      λ same. ne (tokens ∙ ap pos same ∙ sym ce) in
    rw tokens (next_token-dear c q (a - ceil_cost i p) (ceil_cost i p) a c2 below short refl)

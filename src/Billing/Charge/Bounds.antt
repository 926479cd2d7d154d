-- ===== src/Billing/Charge/Bounds.antt =====
-- The charges of internal/services/billing/charge.go as numbers, where no product overflows.
use orbit_api.Common.{ℕ, ◌+◌, ◌-◌, ◌*◌, ◌/◌, ◌<◌, ◌≡◌, arith, if◌then◌else◌, ltb}
use orbit_api.Common.Int.{pos}
use orbit_api.Common.Word.{two63, mul64-pos, add64-pos, sub64-pos, div64-pos}
use orbit_api.Billing.Charge.{charge_micros, charge_micros_ceil, max_tokens_for_budget}

pub charge_micros-pos :
    (i o p q : ℕ)
    → i * p + o * q < two63
    → charge_micros (pos i) (pos o) (pos p) (pos q) ≡ pos ((i * p + o * q) / 1000000)
unfolding charge_micros
charge_micros-pos i o p q h = ground (
  arith,
  mul64-pos i p,
  mul64-pos o q,
  add64-pos (i * p) (o * q),
  div64-pos (i * p + o * q) 1000000,
)

pub charge_micros_ceil-pos :
    (t p : ℕ)
    → t * p + 1000000 < two63
    → charge_micros_ceil (pos t) (pos p) ≡ pos ((t * p + 999999) / 1000000)
unfolding charge_micros_ceil
charge_micros_ceil-pos t p h = ground (
  arith,
  mul64-pos t p,
  add64-pos (t * p) 1000000,
  sub64-pos (t * p + 1000000) 1,
  div64-pos (t * p + 1000000 - 1) 1000000,
)

pub max_tokens_for_budget-pos :
    (b p : ℕ)
    → 0 < p
    → b * 1000000 < two63
    → max_tokens_for_budget (pos b) (pos p)
      ≡ (if ltb 128000 (b * 1000000 / p) then pos 128000 else pos (b * 1000000 / p))
unfolding max_tokens_for_budget
max_tokens_for_budget-pos b p hp h = ground (arith, mul64-pos b 1000000, div64-pos (b * 1000000) p)

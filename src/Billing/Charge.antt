-- ===== src/Billing/Charge.antt =====
-- internal/services/billing/charge.go: what tokens cost, in millionths of a dollar.
pub mod Bounds
use orbit_api.Common.{ℕ, Bool, ◌||◌, if◌then◌else◌}
use orbit_api.Common.Int.{ℤ, pos, ltb_ℤ, leb_ℤ}
use orbit_api.Common.Word.{add64, sub64, mul64, div64}

abbrev pub micros_per_million : ℤ
micros_per_million = pos 1000000

abbrev pub max_output_tokens : ℤ
max_output_tokens = pos 128000

-- `if n < 0 { n = 0 }`
abbrev pub at_least_zero : ℤ → ℤ
at_least_zero n = if ltb_ℤ n (pos 0) then pos 0 else n

unfoldable pub charge_micros : ℤ → ℤ → ℤ → ℤ → ℤ
charge_micros input_tokens output_tokens input_per_million output_per_million =
    div64
      (add64 (mul64 (at_least_zero input_tokens) input_per_million)
        (mul64 (at_least_zero output_tokens) output_per_million))
      micros_per_million

unfoldable pub charge_micros_ceil : ℤ → ℤ → ℤ
charge_micros_ceil tokens per_million =
    if leb_ℤ tokens (pos 0) || leb_ℤ per_million (pos 0)
    then pos 0
    else div64 (sub64 (add64 (mul64 tokens per_million) micros_per_million) (pos 1))
        micros_per_million

unfoldable pub max_tokens_for_budget : ℤ → ℤ → ℤ
max_tokens_for_budget budget_micros per_million =
    if leb_ℤ budget_micros (pos 0) || leb_ℤ per_million (pos 0)
    then pos 0
    else let n = div64 (mul64 budget_micros micros_per_million) per_million in
      if ltb_ℤ max_output_tokens n then max_output_tokens else n

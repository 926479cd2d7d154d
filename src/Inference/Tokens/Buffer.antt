-- ===== src/Inference/Tokens/Buffer.antt =====
-- internal/services/inference/tokens.go: how the two estimates lie to the text and to each other.
use orbit_api.Common.{◌+◌, ◌*◌, ◌≤◌, ◌<◌, length, ◌++◌, length-append, arith}
use orbit_api.Common.Str.{Str}
use orbit_api.Inference.Tokens.{estimate_tokens, estimate_input_tokens}

-- The estimate is the number of runes divided by four, rounded up.
estimate_tokens_bounds :
    (text : Str)
    → (length text ≤ 4 * estimate_tokens text) × (4 * estimate_tokens text ≤ length text + 3)
unfolding estimate_tokens
estimate_tokens_bounds text = ground arith

estimate_input_tokens_bounds :
    (text : Str)
    → (estimate_tokens text ≤ estimate_input_tokens text)
      × (5 * estimate_input_tokens text ≤ 6 * estimate_tokens text)
      × (6 * estimate_tokens text < 5 * estimate_input_tokens text + 5)
unfolding estimate_input_tokens
estimate_input_tokens_bounds text = ground arith

-- The estimate that sizes a hold is the estimate that bills a stopped stream, which is a fourth of the
-- text's runes rounded up, and a fifth of it on top, rounded down; and neither shrinks when the text
-- grows at its end.
pub estimates_cover :
    (text more : Str)
    → (length text ≤ 4 * estimate_tokens text)
      × (4 * estimate_tokens text ≤ length text + 3)
      × (estimate_tokens text ≤ estimate_input_tokens text)
      × (5 * estimate_input_tokens text ≤ 6 * estimate_tokens text)
      × (6 * estimate_tokens text < 5 * estimate_input_tokens text + 5)
      × (estimate_tokens text ≤ estimate_tokens (text ++ more))
      × (estimate_input_tokens text ≤ estimate_input_tokens (text ++ more))
estimates_cover text more =
    let (low, high) = estimate_tokens_bounds text in
    let (low', high') = estimate_tokens_bounds (text ++ more) in
    let (least, most, near) = estimate_input_tokens_bounds text in
    let (least', most', near') = estimate_input_tokens_bounds (text ++ more) in
    let longer = length-append text more in (low, high, least, most, near, omega arith, omega arith)

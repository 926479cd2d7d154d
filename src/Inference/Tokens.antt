-- ===== src/Inference/Tokens.antt =====
-- internal/services/inference/tokens.go: estimates of a text's tokens, from its number of runes.
pub mod Buffer
use orbit_api.Common.{ℕ, ◌+◌, ◌/◌, ◌==◌, ltb, if◌then◌else◌, length}
use orbit_api.Common.Str.{Str}

unfoldable pub estimate_tokens : Str → ℕ
estimate_tokens text = if length text == 0 then 0 else (length text + 3) / 4

unfoldable pub estimate_input_tokens : Str → ℕ
estimate_input_tokens text =
    let est = estimate_tokens text in
    if est == 0 then 0 else if ltb (est + est / 5) 1 then 1 else est + est / 5

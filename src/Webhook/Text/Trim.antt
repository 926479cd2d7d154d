-- ===== src/Webhook/Text/Trim.antt =====
-- strings.TrimSpace has nothing left to do on what it gives.
use orbit_api.Common.{◌≡◌, refl, ap, ◌∙◌, List, [], ◌∷◌, arith, inl, inr, Bool-cases}
use orbit_api.Common.Str.{Str, is_empty}
use orbit_api.Webhook.Text.{trim_left, trim_right, trim_space, first_non_empty}

trim_right_twice : (s : Str) → trim_right (trim_right s) ≡ trim_right s
unfolding trim_right
trim_right_twice [] = refl
trim_right_twice (c ∷ cs) = ground (arith, trim_right_twice cs)

trim_left_after : (s : Str) → trim_left (trim_right (trim_left s)) ≡ trim_right (trim_left s)
unfolding trim_right trim_left
trim_left_after [] = refl
trim_left_after (c ∷ cs) = ground (arith, trim_left_after cs)

pub trim_space_twice : (s : Str) → trim_space (trim_space s) ≡ trim_space s
unfolding trim_space
trim_space_twice s = ap trim_right (trim_left_after s) ∙ trim_right_twice (trim_left s)

-- What is picked from a list is trimmed.
pub first_non_empty_trimmed : (vs : List Str) → trim_space (first_non_empty vs) ≡ first_non_empty vs
unfolding first_non_empty trim_space trim_right trim_left
first_non_empty_trimmed [] = refl
first_non_empty_trimmed (v ∷ vs) = elim (Bool-cases (is_empty (trim_space v))) [
  | inl blank ↦ ground (arith, blank, first_non_empty_trimmed vs)
  | inr there ↦ ground (arith, there, trim_space_twice v)
]

-- ===== src/Webhook/Text.antt =====
-- The functions of Go's strings package that internal/services/webhook/dodo.go calls, on code
-- points, and its firstNonEmpty.
pub mod Trim
use orbit_api.Common.{
  ℕ, ◌+◌, ◌-◌, Bool, true, false, List, [], ◌∷◌, ◌&&◌, ◌||◌, not, ltb, ◌==◌, if◌then◌else◌,
}
use orbit_api.Common.Str.{Str, is_empty}

abbrev pub between : ℕ → ℕ → ℕ → Bool
between lo hi c = not (ltb c lo) && not (ltb hi c)

-- unicode.IsSpace
unfoldable pub is_space : ℕ → Bool
is_space c =
    between 9 13 c
    || (c == 32
        || (c == 133
            || (c == 160
                || (c == 5760
                    || (between 8192 8202 c
                        || (between 8232 8233 c || (c == 8239 || (c == 8287 || c == 12288))))))))

unfoldable pub trim_left : Str → Str
trim_left [] = []
trim_left (c ∷ cs) = let rest = trim_left cs in if is_space c then rest else c ∷ cs

unfoldable pub trim_right : Str → Str
trim_right [] = []
trim_right (c ∷ cs) =
    let rest = trim_right cs in if is_space c && is_empty rest then [] else c ∷ rest

-- strings.TrimSpace
unfoldable pub trim_space : Str → Str
trim_space s = trim_right (trim_left s)

-- The code point that unicode.ToLower gives, as far as it is an ASCII letter: those of A to Z, of
-- the dotted capital I and of the Kelvin sign. Others stand for themselves, which no comparison
-- with an ASCII word tells apart.
unfoldable pub to_lower_point : ℕ → ℕ
to_lower_point c =
    if between 65 90 c then c + 32 else if c == 304 then 105 else if c == 8490 then 107 else c

unfoldable pub to_lower : Str → Str
to_lower [] = []
to_lower (c ∷ cs) = to_lower_point c ∷ to_lower cs

unfoldable pub first_non_empty : List Str → Str
first_non_empty [] = []
first_non_empty (v ∷ vs) =
    let rest = first_non_empty vs in if is_empty (trim_space v) then rest else trim_space v

-- strings.ToUpper on ASCII letters. Others stand for themselves: a currency's code has none.
unfoldable pub to_upper : Str → Str
to_upper [] = []
to_upper (c ∷ cs) = (if between 97 122 c then c - 32 else c) ∷ to_upper cs

-- The folding of strings.EqualFold onto an ASCII letter, which the Kelvin sign and the long s share.
unfoldable pub fold_point : ℕ → ℕ
fold_point c =
    if between 65 90 c then c + 32 else if c == 8490 then 107 else if c == 383 then 115 else c

-- strings.EqualFold with a word of lower-case ASCII letters.
unfoldable pub equal_fold : Str → Str → Bool
equal_fold [] [] = true
equal_fold [] (w ∷ ws) = false
equal_fold (c ∷ cs) [] = false
equal_fold (c ∷ cs) (w ∷ ws) = fold_point c == w && equal_fold cs ws

-- strings.Contains
unfoldable pub has_prefix : Str → Str → Bool
has_prefix s [] = true
has_prefix [] (w ∷ ws) = false
has_prefix (c ∷ cs) (w ∷ ws) = c == w && has_prefix cs ws

unfoldable pub contains : Str → Str → Bool
contains [] w = is_empty w
contains (c ∷ cs) w = has_prefix (c ∷ cs) w || contains cs w

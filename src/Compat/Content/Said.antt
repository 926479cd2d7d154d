-- ===== src/Compat/Content/Said.antt =====
-- internal/services/compat: what the parts of a content say, as clients of both dialects mean it.
use orbit_api.Common.{List, [], ◌∷◌, ◌&&◌, not, if◌then◌else◌}
use orbit_api.Common.Str.{Str, codes, str_eq, is_empty}

-- The texts, of parts with a type and a text.
abbrev pub spoken_texts : List (Str × Str) → List Str
spoken_texts [] = []
spoken_texts (p ∷ ps) =
    if str_eq p.0 (codes "text") && not (is_empty p.1)
    then p.1 ∷ spoken_texts ps
    else spoken_texts ps

abbrev pub line_break : Str
line_break = 10 ∷ []

-- ===== src/Webhook/Json.antt =====
-- Metadata, as encoding/json decodes them.
use orbit_api.Common.{List, [], ◌∷◌, if◌then◌else◌}
use orbit_api.Common.Int.{ℤ}
use orbit_api.Common.Str.{Str, codes, str_eq}
use orbit_api.Webhook.Text.{trim_space}

-- A value of the metadata: a string; a number, cut to an integer, and what fmt.Sprint makes of it;
-- null; or what fmt.Sprint makes of any other value.
pub data Json : Type 0 where
  text : Str → Json
  number : ℤ → Str → Json
  null : Json
  other : Str → Json

-- fmt.Sprint
abbrev pub sprint : Json → Str
sprint (text s) = s
sprint (number n shown) = shown
sprint null = codes "<nil>"
sprint (other s) = s

abbrev pub shown_value : Json → Str
shown_value (text s) = trim_space s
shown_value (number n shown) = trim_space shown
shown_value null = []
shown_value (other s) = trim_space s

-- stringMapValue of internal/services/webhook/dodo.go
unfoldable pub string_map_value : List (Str × Json) → Str → Str
string_map_value [] key = []
string_map_value ((k, j) ∷ m) key =
    let rest = string_map_value m key in if str_eq k key then shown_value j else rest

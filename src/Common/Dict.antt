-- ===== src/Common/Dict.antt =====
-- A Go map from texts to texts, as the list of its entries.
use mathlib.Core.List.{List, [], ◌∷◌}
use orbit_api.Common.Tests.{if◌then◌else◌}
use orbit_api.Common.Str.{Str, str_eq}

abbrev pub Dict : Type 0
Dict = List (Str × Str)

-- `m[k] = v`
unfoldable pub put : Str → Str → Dict → Dict
put k v [] = (k, v) ∷ []
put k v ((j, w) ∷ m) = let rest = put k v m in if str_eq j k then (k, v) ∷ m else (j, w) ∷ rest

-- `m[k]`, which is "" where there is none.
unfoldable pub get : Str → Dict → Str
get k [] = []
get k ((j, w) ∷ m) = let rest = get k m in if str_eq j k then w else rest

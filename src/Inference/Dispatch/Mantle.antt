-- ===== src/Inference/Dispatch/Mantle.antt =====
-- internal/services/inference/mantle.go: which models go to the Responses API, by their ids.
use orbit_api.Common.{
  Bool, false, Option, none, some, List, [], ◌∷◌, ◌++◌, ◌||◌, ◌==◌, if◌then◌else◌,
}
use orbit_api.Common.Str.{Str, codes}
use orbit_api.Webhook.Text.{trim_space, has_prefix}

-- What follows a prefix, if the text has it.
unfoldable pub cut_prefix : Str → Str → Option Str
cut_prefix [] s = some s
cut_prefix (p ∷ ps) [] = none
cut_prefix (p ∷ ps) (c ∷ s) = let rest = cut_prefix ps s in if p == c then rest else none

-- What follows the last slash.
unfoldable pub after_slash : Str → Option Str
after_slash [] = none
after_slash (c ∷ s) = elim (after_slash s) [
  | some rest ↦ some rest
  | none ↦ if c == b'/' then some s else none
]

-- profileID
unfoldable pub profile_id : Str → Str
profile_id raw = elim (after_slash (trim_space raw)) [ none ↦ trim_space raw | some id ↦ id ]

-- The loop of stripOpenAICRISPrefix.
unfoldable pub strip_first : List Str → Str → Str
strip_first [] id = id
strip_first (p ∷ ps) id =
    let rest = strip_first ps id in
    if has_prefix id (p ++ codes "openai.")
    then elim (cut_prefix p id) [ none ↦ id | some cut ↦ cut ]
    else rest

unfoldable pub strip_openai_cris_prefix : Str → Str
strip_openai_cris_prefix id =
    strip_first (codes "us." ∷ codes "eu." ∷ codes "apac." ∷ codes "global." ∷ codes "us-gov." ∷ [])
      id

unfoldable pub mantle_model_id : Str → Str
mantle_model_id raw = strip_openai_cris_prefix (profile_id raw)

-- usesMantleResponses
unfoldable pub uses_mantle_responses : Str → Bool
uses_mantle_responses model_id =
    let id = mantle_model_id model_id in
    if has_prefix id (codes "openai.gpt-oss")
    then false
    else has_prefix id (codes "openai.gpt-5") || has_prefix id (codes "openai.gpt-6")

unfoldable pub is_gpt6 : Str → Bool
is_gpt6 model_id = has_prefix (mantle_model_id model_id) (codes "openai.gpt-6")

-- responsesModelID
unfoldable pub responses_model_id : Str → Str
responses_model_id raw =
    if is_gpt6 (profile_id raw) then profile_id raw else strip_openai_cris_prefix (profile_id raw)

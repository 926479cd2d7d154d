-- ===== src/Compat/Content.antt =====
-- internal/services/compat: what the requests of both dialects are made of, the content blocks of
-- converse.go and strings.Join.
pub mod Said
pub mod Turns
use orbit_api.Common.{◌||◌, if◌then◌else◌, none, some, List, [], ◌∷◌, ◌++◌}
use orbit_api.Common.Str.{Str, codes, str_eq}
use orbit_api.Inference.Request.{
  ToolUseBlock, ContentBlock, block, no_result, result, nil, cons, ConverseMessage,
}

-- A role that the provider does not know becomes the user's.
abbrev pub known_role : Str → Str
known_role role =
    if str_eq role (codes "user") || str_eq role (codes "assistant") then role else codes "user"

-- strings.Join
unfoldable pub join : List Str → Str → Str
join [] sep = []
join (s ∷ []) sep = s
join (s ∷ t ∷ ss) sep = s ++ (sep ++ join (t ∷ ss) sep)

module _ {J : Type 0} where
  -- A block of each kind. The content of a result is one text.
  abbrev pub text_block : Str → ContentBlock J
  text_block text = block text none no_result

  abbrev pub tool_use_block : Str → Str → J → ContentBlock J
  tool_use_block id name input =
      block [] (some (record { tool_use_id = id; name = name; input = input })) no_result

  abbrev pub tool_result_block : Str → Str → Str → ContentBlock J
  tool_result_block id text status = block [] none (result id (cons (text_block text) nil) status)

  -- A message of these blocks, if there are any.
  abbrev pub say : Str → List (ContentBlock J) → List (ConverseMessage J) → List (ConverseMessage J)
  say role [] ms = ms
  say role (b ∷ bs) ms = ms ++ record { role = role; content = b ∷ bs } ∷ []

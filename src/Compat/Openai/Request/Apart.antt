-- ===== src/Compat/Openai/Request/Apart.antt =====
-- internal/services/compat/openai/request.go: the tools' results of a translated request stand in messages
-- of their own.
use orbit_api.Common.Str.{is_empty, str_eq, codes, Str}
use orbit_api.Common.Branches.{if_either}
use orbit_api.Common.{
  ◌≡◌, refl, arith, Bool, true, false, List, [], ◌∷◌, ◌++◌, ◌&&◌, ◌||◌, not, All, if◌then◌else◌,
}
use orbit_api.Inference.Request.{no_result, result, block, ContentBlock}
use orbit_api.Compat.Content.{text_block, tool_result_block, known_role}
use orbit_api.Compat.Openai.Request.{
  RequestToolCall, tool_uses, content_text, spoken, is_system, RequestMessage, Translation,
  flush_tool_results, translate_message, translate_messages, RequestDecoder,
}
use orbit_api.Compat.Content.Turns.{IsTurn, say-AreTurns, known_role-is_known}
use orbit_api.Webhook.Text.{trim_space}

module _ {J : Type 0} (dec : RequestDecoder J) where
  -- The results stand in messages of the user that have nothing else.
  abbrev pub is_result : ContentBlock J → Bool
  is_result (block text called no_result) = false
  is_result (block text called (result id content status)) = true

  abbrev pub all_results : List (ContentBlock J) → Bool
  all_results [] = true
  all_results (b ∷ bs) = is_result b && all_results bs

  abbrev pub no_results : List (ContentBlock J) → Bool
  no_results [] = true
  no_results (b ∷ bs) = not (is_result b) && no_results bs

  abbrev pub IsApart : Str → List (ContentBlock J) → Type 0
  IsApart role bs = ((str_eq role (codes "user") && all_results bs) || no_results bs) ≡ true

  all_results-append :
      (bs : List (ContentBlock J)) (id text : Str)
      → all_results bs ≡ true
      → all_results (bs ++ tool_result_block id text [] ∷ []) ≡ true
  all_results-append [] id text h = refl
  all_results-append (b ∷ bs) id text h = ground (arith, all_results-append bs id text)

  no_results-tool_uses : (cs : List RequestToolCall) → no_results (tool_uses dec cs) ≡ true
  unfolding tool_uses
  no_results-tool_uses [] = refl
  no_results-tool_uses (c ∷ cs) = no_results-tool_uses cs

  no_results-spoken : (m : RequestMessage) → no_results (spoken dec m) ≡ true
  no_results-spoken m = starts (is_empty (content_text dec m.content))
    where
      starts :
          (b : Bool)
          → no_results (
              (if b then [] else text_block (content_text dec m.content) ∷ [])
              ++ tool_uses dec m.tool_calls)
            ≡ true
      starts true = no_results-tool_uses m.tool_calls
      starts false = no_results-tool_uses m.tool_calls

  -- What the loop keeps of its state.
  abbrev pub IsSound : Translation J → Type 0
  IsSound t = All (IsTurn IsApart) t.messages × (all_results t.pending_tool_results ≡ true)

  flush_tool_results-IsSound : (t : Translation J) → IsSound t → IsSound (flush_tool_results t)
  unfolding flush_tool_results str_eq
  flush_tool_results-IsSound t s = (
    say-AreTurns IsApart (codes "user") t.pending_tool_results t.messages refl (rw s.1 refl) s.0,
    refl,
  )

  translate_message-IsSound :
      (t : Translation J) (m : RequestMessage) → IsSound t → IsSound (translate_message dec t m)
  unfolding translate_message
  translate_message-IsSound t m s =
      let flushed = flush_tool_results-IsSound t s in
      let role = known_role (trim_space m.role) in
      let apart : IsApart role (spoken dec m) = rw (no_results-spoken m) (ground arith) in
      if_either IsSound (is_system (trim_space m.role)) s (
        if_either IsSound (str_eq (trim_space m.role) (codes "tool"))
          (s.0, all_results-append t.pending_tool_results m.tool_call_id _ s.1)
          (
            say-AreTurns IsApart role (spoken dec m) (flush_tool_results t).messages
                (known_role-is_known (trim_space m.role)) apart flushed.0,
            flushed.1,
          ))

  pub translate_messages-IsSound :
      (ms : List RequestMessage) (t : Translation J)
      → IsSound t
      → IsSound (translate_messages dec ms t)
  unfolding translate_messages
  translate_messages-IsSound [] t s = flush_tool_results-IsSound t s
  translate_messages-IsSound (m ∷ ms) t s =
      translate_messages-IsSound ms (translate_message dec t m) (translate_message-IsSound t m s)

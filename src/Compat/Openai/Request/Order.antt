-- ===== src/Compat/Openai/Request/Order.antt =====
-- internal/services/compat/openai/request.go: what the translation of a request keeps.
use mathlib.Core.Path.{subst}
use orbit_api.Common.Str.{str_eq-eq, str_eq_refl, str_eq, codes, Str}
use orbit_api.Common.{
  inr, inl, ◌≡◌, refl, sym, ap, ◌∙◌, Bool-cases, arith, List, [], ◌∷◌, ◌++◌, not, All,
  if◌then◌else◌, append_nil, append_assoc,
}
use orbit_api.Inference.Request.{ConverseRequest, ContentBlock}
use orbit_api.Inference.Converse.{converse_is_valid, no_content}
use orbit_api.Compat.Openai.Request.Said.{
  HasText, content_text-HasText, IsSystem, Says, of_system, of_tool, of_turn, SaidAll, nobody,
  and_then, Tells, a_text, no_text, not_system, ToldAll, untold, and_told, role-IsSystem,
  other_role, spoken-text_first,
}
use orbit_api.Compat.Openai.Request.Apart.{IsApart, translate_messages-IsSound}
use orbit_api.Compat.Content.{join, tool_result_block, known_role}
use orbit_api.Compat.Openai.Request.{
  ChatCompletionRequest, to_converse, content_text, unless_empty, spoken, is_system, RequestMessage,
  Translation, flush_tool_results, translate_message, translate_messages, RequestDecoder,
}
use orbit_api.Compat.Content.Turns.{turns-converse_is_valid, IsTurn, contents, contents-say}
use orbit_api.Webhook.Text.{trim_space}

-- What strings.Join puts between the texts to the system.
abbrev blank : Str
blank = 10 ∷ 10 ∷ []

module _ {J : Type 0} (dec : RequestDecoder J) where
  -- What a message says to the system, and what it says in the conversation.
  abbrev said_to_system : RequestMessage → List Str
  said_to_system m =
      if is_system (trim_space m.role)
      then unless_empty (content_text dec m.content) (content_text dec m.content)
      else []

  abbrev said : RequestMessage → List (ContentBlock J)
  said m =
      if is_system (trim_space m.role)
      then []
      else if str_eq (trim_space m.role) (codes "tool")
      then tool_result_block m.tool_call_id (content_text dec m.content) [] ∷ []
      else spoken dec m

  abbrev all_to_system : List RequestMessage → List Str
  all_to_system [] = []
  all_to_system (m ∷ ms) = said_to_system m ++ all_to_system ms

  abbrev all_said : List RequestMessage → List (ContentBlock J)
  all_said [] = []
  all_said (m ∷ ms) = said m ++ all_said ms

  -- What the loop holds.
  abbrev held : Translation J → List (ContentBlock J)
  held t = contents t.messages ++ t.pending_tool_results

  flush_tool_results-contents :
      (t : Translation J) → contents (flush_tool_results t).messages ≡ held t
  unfolding flush_tool_results
  flush_tool_results-contents t = contents-say (codes "user") t.pending_tool_results t.messages

  translate_message-held :
      (t : Translation J) (m : RequestMessage) → held (translate_message dec t m) ≡ held t ++ said m
  unfolding translate_message flush_tool_results
  translate_message-held t m = elim (Bool-cases (is_system (trim_space m.role))) [
    | inl system ↦ rw system (sym (append_nil (held t)))
    | inr said_it ↦ elim (Bool-cases (str_eq (trim_space m.role) (codes "tool"))) [
      | inl tool ↦
          rw (said_it, tool) (sym (append_assoc (contents t.messages) t.pending_tool_results _))
      | inr other ↦
          rw (said_it, other)
            (append_nil _
              ∙ contents-say (known_role (trim_space m.role)) (spoken dec m)
                  (flush_tool_results t).messages
              ∙ ap (λ (xs : List (ContentBlock J)). xs ++ spoken dec m)
                  (flush_tool_results-contents t))
    ]
  ]

  translate_messages-held :
      (ms : List RequestMessage) (t : Translation J)
      → contents (translate_messages dec ms t).messages ≡ held t ++ all_said ms
  unfolding translate_messages
  translate_messages-held [] t = flush_tool_results-contents t ∙ sym (append_nil (held t))
  translate_messages-held (m ∷ ms) t =
      translate_messages-held ms (translate_message dec t m)
      ∙ ap (λ (xs : List (ContentBlock J)). xs ++ all_said ms) (translate_message-held t m)
      ∙ append_assoc (held t) (said m) (all_said ms)

  translate_message-system :
      (t : Translation J) (m : RequestMessage)
      → (translate_message dec t m).system_parts ≡ t.system_parts ++ said_to_system m
  unfolding translate_message flush_tool_results
  translate_message-system t m = elim (Bool-cases (is_system (trim_space m.role))) [
    | inl system ↦ rw system refl
    | inr said_it ↦ elim (Bool-cases (str_eq (trim_space m.role) (codes "tool"))) [
      | inl tool ↦ rw (said_it, tool) (sym (append_nil t.system_parts))
      | inr other ↦ rw (said_it, other) (sym (append_nil t.system_parts))
    ]
  ]

  translate_messages-system :
      (ms : List RequestMessage) (t : Translation J)
      → (translate_messages dec ms t).system_parts ≡ t.system_parts ++ all_to_system ms
  unfolding translate_messages flush_tool_results
  translate_messages-system [] t = sym (append_nil t.system_parts)
  translate_messages-system (m ∷ ms) t =
      translate_messages-system ms (translate_message dec t m)
      ∙ ap (λ (xs : List Str). xs ++ all_to_system ms) (translate_message-system t m)
      ∙ append_assoc t.system_parts (said_to_system m) (all_to_system ms)

  said-Says : (m : RequestMessage) → Says dec m (said m)
  said-Says m = elim (Bool-cases (is_system (trim_space m.role))) [
    | inl system ↦ rw system (of_system (role-IsSystem m system))
    | inr talk ↦ elim (Bool-cases (str_eq (trim_space m.role) (codes "tool"))) [
      | inl tool ↦
          rw (talk, tool)
            (of_tool (content_text dec m.content)
              (str_eq-eq (trim_space m.role) (codes "tool") tool)
              (content_text-HasText dec m.content))
      | inr other ↦
          rw (talk, other, spoken-text_first dec m)
            (of_turn (content_text dec m.content) (other_role m talk)
              (λ e. ground (
                arith,
                other,
                ap (λ (x : Str). str_eq x (codes "tool")) e,
                str_eq_refl (codes "tool"),
              ))
              (content_text-HasText dec m.content))
    ]
  ]

  all_said-SaidAll : (ms : List RequestMessage) → SaidAll dec ms (all_said ms)
  all_said-SaidAll [] = nobody
  all_said-SaidAll (m ∷ ms) =
      and_then m ms (said m) (all_said ms) (said-Says m) (all_said-SaidAll ms)

  system-Tells :
      (m : RequestMessage) (t : Str)
      → IsSystem m
      → HasText dec m.content t
      → Tells dec m (unless_empty t t)
  system-Tells m [] system has = no_text system has
  system-Tells m (c ∷ cs) system has = a_text (c ∷ cs) system has (λ e. cc)

  said_to_system-Tells : (m : RequestMessage) → Tells dec m (said_to_system m)
  said_to_system-Tells m = elim (Bool-cases (is_system (trim_space m.role))) [
    | inl system ↦ rw system (
        system-Tells m (content_text dec m.content) (role-IsSystem m system)
          (content_text-HasText dec m.content))
    | inr talk ↦ rw talk (not_system (other_role m talk))
  ]

  all_to_system-ToldAll : (ms : List RequestMessage) → ToldAll dec ms (all_to_system ms)
  all_to_system-ToldAll [] = untold
  all_to_system-ToldAll (m ∷ ms) =
      and_told m ms (said_to_system m) (all_to_system ms) (said_to_system-Tells m)
        (all_to_system-ToldAll ms)

  -- A translation of a request.
  pub record Translates {F : Type 0} (q : ChatCompletionRequest F J) (r : ConverseRequest F J)
      : Type 0 where
    pub in_order : SaidAll dec q.messages (contents r.messages)
    pub turns : All (IsTurn (IsApart dec)) r.messages
    pub accepted : converse_is_valid r ≡ not (no_content (contents r.messages))
    pub told : List Str
    pub told_all : ToldAll dec q.messages told
    pub instructed : r.system ≡ join told blank

-- What the translation of a chat completion request keeps: the blocks of its messages are the texts, the
-- tool calls and the tools' results of the request, each once and in their order; each message is of
-- the user or of the assistant and has a block, and results stand in messages of the user that
-- have nothing else; so Converse refuses it as invalid only if nothing is said in it; and the texts
-- to the system are joined in their order.
pub to_converse-Translates :
    {F J : Type 0} (dec : RequestDecoder J) (q : ChatCompletionRequest F J)
    → Translates dec q (to_converse dec q)
unfolding to_converse
to_converse-Translates {J = J} dec q =
    let start : Translation J = record {
      system_parts = [];
      messages = [];
      pending_tool_results = [];
    } in
    let sound = translate_messages-IsSound dec q.messages start (tt, refl) in
    record {
      in_order =
          subst (SaidAll dec q.messages) (sym (translate_messages-held dec q.messages start))
            (all_said-SaidAll dec q.messages);
      turns = sound.0;
      accepted = turns-converse_is_valid (IsApart dec) (to_converse dec q) sound.0;
      told = all_to_system dec q.messages;
      told_all = all_to_system-ToldAll dec q.messages;
      instructed =
          ap (λ (ss : List Str). join ss blank) (translate_messages-system dec q.messages start);
    }

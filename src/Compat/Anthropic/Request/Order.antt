-- ===== src/Compat/Anthropic/Request/Order.antt =====
-- internal/services/compat/anthropic/request.go: what the translation of a request keeps.
use mathlib.Core.Path.{subst}
use orbit_api.Common.Str.{Str}
use orbit_api.Common.{◌≡◌, sym, ap, ◌∙◌, List, [], ◌∷◌, ◌++◌, not, All, append_nil, append_assoc}
use orbit_api.Inference.Converse.{converse_is_valid, no_content}
use orbit_api.Inference.Request.{ContentBlock, ConverseMessage, ConverseRequest}
use orbit_api.Compat.Anthropic.Request.Said.{
  HasText, blocks_text-HasText, SaidAll, nobody, and_then, parsed-Says,
}
use orbit_api.Compat.Content.{say, known_role}
use orbit_api.Compat.Content.Turns.{
  turns-converse_is_valid, contents, contents-say, IsTurn, say-AreTurns, known_role-is_known,
}
use orbit_api.Compat.Anthropic.Request.{
  RequestDecoder, RequestMessage, MessagesRequest, translate_messages, translate_blocks,
  parse_content_blocks, to_converse,
}

module _ {J : Type 0} (dec : RequestDecoder J) where
  -- The blocks of a message, and those of the messages in their order.
  abbrev said : RequestMessage → List (ContentBlock J)
  said m = translate_blocks dec (parse_content_blocks dec m.content)

  abbrev all_said : List RequestMessage → List (ContentBlock J)
  all_said [] = []
  all_said (m ∷ ms) = said m ++ all_said ms

  translate_messages-contents :
      (ms : List RequestMessage) (out : List (ConverseMessage J))
      → contents (translate_messages dec ms out) ≡ contents out ++ all_said ms
  unfolding translate_messages
  translate_messages-contents [] out = sym (append_nil (contents out))
  translate_messages-contents (m ∷ ms) out =
      translate_messages-contents ms (say (known_role m.role) (said m) out)
      ∙ ap (λ (xs : List (ContentBlock J)). xs ++ all_said ms)
          (contents-say (known_role m.role) (said m) out)
      ∙ append_assoc (contents out) (said m) (all_said ms)

  abbrev pub IsAny : Str → List (ContentBlock J) → Type 0
  IsAny role bs = Unit

  translate_messages-AreTurns :
      (ms : List RequestMessage) (out : List (ConverseMessage J))
      → All (IsTurn IsAny) out
      → All (IsTurn IsAny) (translate_messages dec ms out)
  unfolding translate_messages
  translate_messages-AreTurns [] out turns = turns
  translate_messages-AreTurns (m ∷ ms) out turns =
      translate_messages-AreTurns ms (say (known_role m.role) (said m) out)
        (say-AreTurns IsAny (known_role m.role) (said m) out (known_role-is_known m.role) tt turns)

  all_said-SaidAll : (ms : List RequestMessage) → SaidAll dec ms (all_said ms)
  all_said-SaidAll [] = nobody
  all_said-SaidAll (m ∷ ms) =
      and_then m ms (said m) (all_said ms) (parsed-Says dec m) (all_said-SaidAll ms)

  -- A translation of a request.
  pub record Translates {F : Type 0} (q : MessagesRequest F J) (r : ConverseRequest F J)
      : Type 0 where
    pub in_order : SaidAll dec q.messages (contents r.messages)
    pub turns : All (IsTurn IsAny) r.messages
    pub accepted : converse_is_valid r ≡ not (no_content (contents r.messages))
    pub instructed : HasText dec q.system r.system

-- What the translation of a messages request keeps: the blocks of its messages are those of the request
-- that are texts, tool calls and tool results, each once and in their order, and each message is of
-- the user or of the assistant and has a block; so Converse refuses it as invalid only if nothing is
-- said in it; and its system prompt is the request's.
pub to_converse-Translates :
    {F J : Type 0} (dec : RequestDecoder J) (q : MessagesRequest F J)
    → Translates dec q (to_converse dec q)
unfolding to_converse
to_converse-Translates {J = J} dec q =
    let turns = translate_messages-AreTurns dec q.messages [] tt in
    record {
      in_order =
          subst (SaidAll dec q.messages) (sym (translate_messages-contents dec q.messages []))
            (all_said-SaidAll dec q.messages);
      turns = turns;
      accepted = turns-converse_is_valid (IsAny dec) (to_converse dec q) turns;
      instructed = blocks_text-HasText dec q.system;
    }

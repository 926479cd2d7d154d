-- ===== src/Tests/Streams.antt =====
-- The relay of a stream on concrete frames, into both dialects.
use orbit_api.Compat.Anthropic.Text as AnthropicText
use orbit_api.Common.{◌≡◌, refl, true, false, none, some, List, [], ◌∷◌}
use orbit_api.Common.Int.{pos}
use orbit_api.Common.Str.{Str, codes, str_eq}
use orbit_api.Common.Dict.{get}
use orbit_api.Inference.EventStream.{Frame}
use orbit_api.Inference.Tokens.{estimate_tokens}
use orbit_api.Inference.Payload.{Decoder, kind_of, client_abort}
use orbit_api.Inference.Relay.{broken, canceled, event_type_of, frame_text, relay_bedrock_stream}
use orbit_api.Inference.Relay.Shows.{texts}
use orbit_api.Inference.Relay.Failures.{raises, Failed, relay_bedrock_stream-Failed}
use orbit_api.Compat.Openai.{openai_sink, new_stream_sink, Writer}
use orbit_api.Compat.Openai.Text.{shown, keeps_up, openai_sink-Shows}
use orbit_api.Compat.Openai.Order.{IsOrdered, relay_bedrock_stream-IsOrdered}
use orbit_api.Compat.Dialects.{to_openai, to_anthropic, dialects_show, dialects_bill}

-- A payload stands for its text, for a tool's name or for the input of its block.
abbrev pub plain : Decoder
plain = record {
  block_start = λ p. some (record {
    content_block_index = pos 1;
    tool_use = some (record { tool_use_id = codes "t1"; name = p });
  });
  block_delta = λ p. some (record { content_block_index = pos 0; text = p; tool_input = none });
  delta_text = λ p. some p;
  stop_index = λ p. pos 0;
  stop_reason = λ p. p;
  usage = λ p. none;
  read_usage = λ p. record { input_tokens = pos 0; output_tokens = pos 0; latency_ms = pos 0 };
  message = λ p. p;
}

abbrev event : Str → Str → Frame
event t p = record { headers = (codes ":event-type", t) ∷ []; payload = p }

abbrev exception : Frame
exception = record {
  headers = (codes ":message-type", codes "exception") ∷ [];
  payload = codes "throttled";
}

abbrev answer : List Frame
answer =
    event (codes "messageStart") []
    ∷ event (codes "contentBlockDelta") (codes "hello")
    ∷ event (codes "contentBlockStart") (codes "search")
    ∷ event (codes "contentBlockDelta") (codes " you")
    ∷ []

answer_texts : texts plain answer ≡ codes "hello you"
unfolding texts frame_text event_type_of get str_eq
answer_texts = refl

dialects_show_example :
    (shown (to_openai plain true answer canceled).1 ≡ texts plain answer)
    × (AnthropicText.shown (to_anthropic plain answer canceled).1 ≡ texts plain answer)
unfolding event_type_of frame_text get str_eq kind_of
dialects_show_example = dialects_show plain true answer canceled (refl, (refl, (refl, (refl, tt))))

dialects_bill_example :
    ((to_openai plain false answer canceled).0.output_tokens
      ≡ pos (estimate_tokens (shown (to_openai plain false answer canceled).1)))
    × ((to_anthropic plain answer canceled).0.output_tokens
        ≡ pos (estimate_tokens (AnthropicText.shown (to_anthropic plain answer canceled).1)))
unfolding event_type_of frame_text get str_eq kind_of
dialects_bill_example =
    dialects_bill plain false answer canceled (refl, (refl, (refl, (refl, tt))))
      (refl, (refl, (refl, (refl, tt))))

relay_bedrock_stream-Failed_example :
    Failed
      (relay_bedrock_stream plain
        (openai_sink plain keeps_up)
        (event (codes "messageStart") [] ∷ exception ∷ [])
        canceled
        (new_stream_sink true)).0
unfolding raises get str_eq
relay_bedrock_stream-Failed_example =
    relay_bedrock_stream-Failed plain (openai_sink plain keeps_up) shown (openai_sink-Shows plain)
      (event (codes "messageStart") [] ∷ exception ∷ []) canceled (new_stream_sink true) refl

-- A client that is gone after two chunks.
abbrev leaves : Writer
leaves [] = none
leaves (c ∷ []) = none
leaves (c ∷ d ∷ cs) = some client_abort

relay_bedrock_stream-IsOrdered_example :
    IsOrdered
      (relay_bedrock_stream plain
        (openai_sink plain leaves)
        answer
        broken
        (new_stream_sink true)).1.written
relay_bedrock_stream-IsOrdered_example =
    relay_bedrock_stream-IsOrdered plain leaves true answer broken

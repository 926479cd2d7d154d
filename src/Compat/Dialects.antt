-- ===== src/Compat/Dialects.antt =====
-- The two dialects of internal/services/compat over the same stream of the model provider.
use orbit_api.Compat.Openai
use orbit_api.Compat.Openai.Text as OpenaiText
use orbit_api.Compat.Anthropic
use orbit_api.Compat.Anthropic.Text as AnthropicText
use orbit_api.Compat.Openai.Request as OpenaiRequest
use orbit_api.Compat.Openai.Request.Order as OpenaiOrder
use orbit_api.Compat.Anthropic.Request as AnthropicRequest
use orbit_api.Compat.Anthropic.Request.Order as AnthropicOrder
use orbit_api.Common.{◌≡◌, refl, Bool, List, All}
use orbit_api.Common.Int.{pos}
use orbit_api.Inference.EventStream.{Frame}
use orbit_api.Inference.Tokens.{estimate_tokens}
use orbit_api.Inference.Payload.{Decoder}
use orbit_api.Inference.Relay.{Ending, Relayed, relay_bedrock_stream}
use orbit_api.Inference.Relay.Shows.{Agrees, texts}
use orbit_api.Inference.Relay.Billed.{
  Unmetered, relay_bedrock_stream_delivers, relay_bedrock_stream_bills,
}

-- A stream to a client that takes everything.
abbrev pub to_openai : Decoder → Bool → List Frame → Ending → Relayed × Openai.OpenaiSink
to_openai dec include_usage fs ending =
    relay_bedrock_stream dec (Openai.openai_sink dec OpenaiText.keeps_up) fs ending
      (Openai.new_stream_sink include_usage)

abbrev pub to_anthropic : Decoder → List Frame → Ending → Relayed × Anthropic.AnthropicSink
to_anthropic dec fs ending =
    relay_bedrock_stream dec (Anthropic.anthropic_sink dec AnthropicText.keeps_up) fs ending
      Anthropic.new_stream_sink

-- However a stream goes and ends, a client that takes everything is shown the text of the provider's
-- deltas in their order, no more and no less, in either dialect. (The relay and the sink, which each
-- decode a frame into a struct of their own, read the same text in it.)
pub dialects_show :
    (dec : Decoder) (include_usage : Bool) (fs : List Frame) (ending : Ending)
    → All (Agrees dec) fs
    → (OpenaiText.shown (to_openai dec include_usage fs ending).1 ≡ texts dec fs)
      × (AnthropicText.shown (to_anthropic dec fs ending).1 ≡ texts dec fs)
unfolding OpenaiText.contents AnthropicText.contents
dialects_show dec include_usage fs ending agreed = (
  relay_bedrock_stream_delivers dec _ _ (OpenaiText.openai_sink-Shows dec) fs ending
      (Openai.new_stream_sink include_usage) agreed,
  relay_bedrock_stream_delivers dec _ _ (AnthropicText.anthropic_sink-Shows dec) fs ending
      Anthropic.new_stream_sink agreed,
)

-- A stream in which the provider reports no usage is counted by what the client was shown, in either
-- dialect: the output tokens of the relay's result are the estimate of that text, however the stream
-- ends. (The client takes everything, and the relay and the sink read the same text in a frame. A
-- stream that failed has a count too, which is not billed.)
pub dialects_bill :
    (dec : Decoder) (include_usage : Bool) (fs : List Frame) (ending : Ending)
    → All (Agrees dec) fs
    → All Unmetered fs
    → ((to_openai dec include_usage fs ending).0.output_tokens
        ≡ pos (estimate_tokens (OpenaiText.shown (to_openai dec include_usage fs ending).1)))
      × ((to_anthropic dec fs ending).0.output_tokens
          ≡ pos (estimate_tokens (AnthropicText.shown (to_anthropic dec fs ending).1)))
unfolding OpenaiText.contents AnthropicText.contents
dialects_bill dec include_usage fs ending agreed unmetered = (
  relay_bedrock_stream_bills dec _ _ (OpenaiText.openai_sink-Shows dec) fs ending
      (Openai.new_stream_sink include_usage) agreed unmetered refl,
  relay_bedrock_stream_bills dec _ _ (AnthropicText.anthropic_sink-Shows dec) fs ending
      Anthropic.new_stream_sink agreed unmetered refl,
)

-- What the translation of a request says, in either dialect. The blocks of its messages are, each once
-- and in their order, what the request's messages say: each text that is not empty (in a messages
-- request, each in a block of its own), each call of a tool with its id, name and input, and each tool
-- result with the id of its call and its text; other blocks are left out. A text is a string, or the
-- non-empty texts of its parts on lines of their own. Each message is of the user or of the assistant
-- and has a block; so Converse refuses it as invalid only if no block is in it. The system prompt is the
-- request's, and for a chat completion request the texts of the system's and the developer's
-- messages, with an empty line between them; there, moreover, the results stand in messages of the user
-- that have nothing else.
pub dialects_translate :
    {F J : Type 0} (openai : OpenaiRequest.RequestDecoder J)
    (anthropic : AnthropicRequest.RequestDecoder J) (q : OpenaiRequest.ChatCompletionRequest F J)
    (r : AnthropicRequest.MessagesRequest F J)
    → OpenaiOrder.Translates openai q (OpenaiRequest.to_converse openai q)
      × AnthropicOrder.Translates anthropic r (AnthropicRequest.to_converse anthropic r)
dialects_translate openai anthropic q r =
    (OpenaiOrder.to_converse-Translates openai q, AnthropicOrder.to_converse-Translates anthropic r)

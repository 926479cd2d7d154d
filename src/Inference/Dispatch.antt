-- ===== src/Inference/Dispatch.antt =====
-- internal/services/inference/service.go: the calls of the model provider, chatOnce and chatStream, and
-- the choice between them. The provider is a function from what it is sent to what comes back.
pub mod Mantle
use orbit_api.Common.{
  ℕ, Bool, true, false, Option, none, some, List, [], ◌∷◌, ◌++◌, ◌&&◌, not, map, if◌then◌else◌,
}
use orbit_api.Common.Int.{ℤ, pos, eqb_ℤ, ltb_ℤ}
use orbit_api.Common.Str.{Str, codes, str_eq}
use orbit_api.Common.Result.{Result, ok, err}
use orbit_api.Store.Tx.{Error}
use orbit_api.Limiter.{Float64, RateError}
use orbit_api.Inference.Bytes.{Bytes}
use orbit_api.Inference.EventStream.{Frame}
use orbit_api.Inference.Payload.{Decoder, Usage}
use orbit_api.Inference.Relay.{StreamSink, Ending, Relayed, relay_bedrock_stream}
use orbit_api.Inference.Dispatch.Mantle.{uses_mantle_responses}
use orbit_api.Inference.Request.{
  ChatMessage, ChatRequest, wants_stream, ContentBlock, block, no_result, ConverseMessage,
  ConverseRequest,
}

-- The columns of model_catalogue that are read here.
pub record ModelCatalogue : Type 0 where
  pub id : Str
  pub slug : Str
  pub provider : Str
  pub model_id : Str
  pub is_active : Bool

-- The errors of a request. Those of the reserver are `refused`.
pub data ChatError : Type 0 where
  invalid model_not_found unsupported_provider : ChatError
  rate_limited : RateError → ChatError
  refused : Error → ChatError
  not_looked_up not_encoded not_called not_read : ChatError

pub record ChatResult : Type 0 where
  pub status_code : ℤ
  pub body : Bytes
  pub streamed : Bool
  pub model_catalogue_id : Str
  pub model_slug : Str
  pub input_tokens : ℤ
  pub output_tokens : ℤ
  pub latency_ms : ℤ
  pub hold_id : Str
  pub cancelled : Bool

-- What the HTTP client gives for one call: an error, or a status with a body, which may break off; for
-- the call of a stream, with the frames of its body and how they end.
pub data Reply : Type 0 where
  unreachable : Reply
  replied : ℤ → Option Bytes → Reply

pub data StreamReply : Type 0 where
  unreachable : StreamReply
  replied : ℤ → Option Bytes → List Frame → Ending → StreamReply

-- The provider's two operations on a model id and a payload, and how many milliseconds they took.
pub record Provider : Type 0 where
  pub converse : Str → Bytes → Reply
  pub converse_stream : Str → Bytes → StreamReply
  pub elapsed : ℤ

-- The body of a Converse call, as far as both routes set it.
pub record InferenceConfig (F : Type 0) : Type 0 where
  pub max_tokens : ℤ
  pub temperature : F

pub record ConverseBody (F J : Type 0) : Type 0 where
  pub messages : List (ConverseMessage J)
  pub inference_config : InferenceConfig F

unfoldable pub converse_message : {J : Type 0} → ChatMessage → ConverseMessage J
converse_message m = record { role = m.role; content = block m.content none no_result ∷ [] }

-- bedrockConverseBody, without its encoding.
unfoldable pub bedrock_converse_body : {F J : Type 0} → ChatRequest F → ConverseBody F J
bedrock_converse_body r = record {
  messages = map converse_message r.messages;
  inference_config = record {
    max_tokens = if ltb_ℤ r.max_tokens (pos 1) then pos 4096 else r.max_tokens;
    temperature = r.temperature;
  };
}

-- parseBedrockUsage: a body that is not read has no usage.
unfoldable pub parse_bedrock_usage : Decoder → Bytes → Usage
parse_bedrock_usage dec body = elim (dec.usage body) [
  | none ↦ record { input_tokens = pos 0; output_tokens = pos 0; latency_ms = pos 0 }
  | some u ↦ u
]

-- `if latencyMS == 0`
abbrev or_elapsed : ℤ → ℤ → ℤ
or_elapsed latency elapsed = if eqb_ℤ latency (pos 0) then elapsed else latency

-- chatOnce
unfoldable pub chat_once : Decoder → Provider → ModelCatalogue → Bytes → Result ChatError ChatResult
chat_once dec provider entry payload = elim (provider.converse entry.model_id payload) [
  | unreachable ↦ err not_called
  | replied status none ↦ err not_read
  | replied status (some body) ↦
      let u = parse_bedrock_usage dec body in
      ok (record {
        status_code = status;
        body = body;
        streamed = false;
        model_catalogue_id = entry.id;
        model_slug = entry.slug;
        input_tokens = u.input_tokens;
        output_tokens = u.output_tokens;
        latency_ms = or_elapsed u.latency_ms provider.elapsed;
        hold_id = [];
        cancelled = false;
      })
]

-- The answer with a body in place of a stream.
unfoldable pub unstreamed :
    Provider → ModelCatalogue → ℤ → Option Bytes → Result ChatError ChatResult
unstreamed provider entry status none = err not_read
unstreamed provider entry status (some body) = ok (record {
  status_code = status;
  body = body;
  streamed = false;
  model_catalogue_id = entry.id;
  model_slug = entry.slug;
  input_tokens = pos 0;
  output_tokens = pos 0;
  latency_ms = provider.elapsed;
  hold_id = [];
  cancelled = false;
})

-- What a stream that was relayed amounts to.
unfoldable pub streamed_result : Provider → ModelCatalogue → Relayed → ChatResult
streamed_result provider entry r = record {
  status_code = if r.stream_err then pos 502 else pos 200;
  body = [];
  streamed = true;
  model_catalogue_id = entry.id;
  model_slug = entry.slug;
  input_tokens = r.input_tokens;
  output_tokens = r.output_tokens;
  latency_ms = or_elapsed r.latency_ms provider.elapsed;
  hold_id = [];
  cancelled = if r.stream_err then false else r.cancelled;
}

module _ {S : Type 0} (dec : Decoder) (sink : StreamSink S) where
  -- chatStream
  unfoldable pub chat_stream :
      Provider → ModelCatalogue → Bytes → S → Result ChatError ChatResult × S
  chat_stream provider entry payload s = elim (provider.converse_stream entry.model_id payload) [
    | unreachable ↦ (err not_called, s)
    | replied status body frames ending ↦
        let (relayed, s') = relay_bedrock_stream dec sink frames ending s in
        if eqb_ℤ status (pos 200)
        then (ok (streamed_result provider entry relayed), s')
        else (unstreamed provider entry status body, s)
  ]

-- chatRequestToConverse
unfoldable pub chat_request_to_converse :
    {F J : Type 0} → Float64 F → ChatRequest F → ConverseRequest F J
chat_request_to_converse float r = record {
  messages = map converse_message r.messages;
  system = [];
  tools = [];
  tool_choice = none;
  max_tokens = if ltb_ℤ (pos 0) r.max_tokens then some r.max_tokens else none;
  temperature =
      if float.below (float.of_int (pos 0)) r.temperature then some r.temperature else none;
  top_p = none;
  stop_sequences = [];
  stream = wants_stream r;
}

-- What is not modelled of a dispatch: the encoding of a body, and callMantle, which answers with
-- any result.
pub record Outside (F J S : Type 0) : Type 0 where
  pub encode : ConverseBody F J → Option Bytes
  pub call_mantle : ModelCatalogue → ConverseRequest F J → S → Result ChatError ChatResult × S

-- dispatchChat
unfoldable pub dispatch_chat :
    {F J S : Type 0}
    → Float64 F
    → Decoder
    → Provider
    → Outside F J S
    → StreamSink S
    → ModelCatalogue
    → ChatRequest F
    → S
    → Result ChatError ChatResult × S
dispatch_chat float dec provider outside sink entry r s =
    if uses_mantle_responses entry.model_id
    then outside.call_mantle entry (chat_request_to_converse float r) s
    else elim (outside.encode (bedrock_converse_body r)) [
      | none ↦ (err not_encoded, s)
      | some payload ↦
          if wants_stream r
          then chat_stream dec sink provider entry payload s
          else (chat_once dec provider entry payload, s)
    ]

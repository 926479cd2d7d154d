-- ===== src/Inference/Converse.antt =====
-- internal/services/inference/converse.go and converseInputText of tokens.go: the way of a request of
-- the compatible dialects, from its check to the provider's answer, and its billing job.
pub mod Costs
use orbit_api.Common.{
  Bool, true, false, Option, none, some, List, [], ◌∷◌, ◌++◌, ◌&&◌, ◌||◌, not, map, if◌then◌else◌,
}
use orbit_api.Common.Int.{ℤ, pos, ltb_ℤ}
use orbit_api.Common.Str.{Str, codes, str_eq, is_empty}
use orbit_api.Common.Result.{Result, ok, err}
use orbit_api.Billing.Queue.{JobCodec}
use orbit_api.Limiter.{Float64}
use orbit_api.Inference.Bytes.{Bytes}
use orbit_api.Inference.Payload.{Decoder}
use orbit_api.Inference.Relay.{StreamSink}
use orbit_api.Inference.Request.{
  ContentBlock, block, ToolUseBlock, ToolResult, no_result, result, Blocks, nil, cons,
  ConverseMessage, ToolSpec, ToolChoice, ConverseRequest,
}
use orbit_api.Inference.Dispatch.{
  ModelCatalogue, ChatError, not_encoded, ChatResult, Provider, chat_once, chat_stream,
}
use orbit_api.Inference.Dispatch.Mantle.{uses_mantle_responses}
use orbit_api.Inference.Chat.{Setting, Server, gated, bill}

abbrev pub no_content : {J : Type 0} → List (ContentBlock J) → Bool
no_content [] = true
no_content (b ∷ bs) = false

unfoldable pub messages_valid : {J : Type 0} → List (ConverseMessage J) → Bool
messages_valid [] = true
messages_valid (m ∷ ms) =
    (str_eq m.role (codes "user") || str_eq m.role (codes "assistant"))
    && (not (no_content m.content) && messages_valid ms)

abbrev pub no_messages : {J : Type 0} → List (ConverseMessage J) → Bool
no_messages [] = true
no_messages (m ∷ ms) = false

-- isValid of ConverseRequest
unfoldable pub converse_is_valid : {F J : Type 0} → ConverseRequest F J → Bool
converse_is_valid r = not (no_messages r.messages) && messages_valid r.messages

-- What encoding/json makes of a tool's input and of the tools, where a nil slice is an empty list.
pub record Marshaller (J : Type 0) : Type 0 where
  pub marshal_input : J → Option Str
  pub marshal_tools : List (ToolSpec J) → Option Str

abbrev or_nothing : Option Str → Str
or_nothing none = []
or_nothing (some raw) = raw

abbrev text_of : {J : Type 0} → ContentBlock J → Str
text_of (block text called answer) = text

abbrev result_texts : {J : Type 0} → Blocks J → Str
result_texts nil = []
result_texts (cons b bs) = text_of b ++ result_texts bs

abbrev use_text : {J : Type 0} → Marshaller J → Option (ToolUseBlock J) → Str
use_text enc none = []
use_text enc (some u) = u.name ++ or_nothing (enc.marshal_input u.input)

abbrev result_text : {J : Type 0} → ToolResult J → Str
result_text no_result = []
result_text (result id content status) = result_texts content

abbrev block_text : {J : Type 0} → Marshaller J → ContentBlock J → Str
block_text enc (block text called answer) = text ++ (use_text enc called ++ result_text answer)

abbrev blocks_text : {J : Type 0} → Marshaller J → List (ContentBlock J) → Str
blocks_text enc [] = []
blocks_text enc (b ∷ bs) = block_text enc b ++ blocks_text enc bs

abbrev history_text : {J : Type 0} → Marshaller J → List (ConverseMessage J) → Str
history_text enc [] = []
history_text enc (m ∷ ms) = blocks_text enc m.content ++ history_text enc ms

-- converseInputText
unfoldable pub converse_input_text : {F J : Type 0} → Marshaller J → ConverseRequest F J → Str
converse_input_text enc r =
    r.system ++ (10 ∷ (history_text enc r.messages ++ or_nothing (enc.marshal_tools r.tools)))

-- toolChoiceWire, of which one field is set.
pub data ToolChoiceWire : Type 0 where
  auto any : ToolChoiceWire
  tool : Str → ToolChoiceWire

pub record ToolConfigWire (J : Type 0) : Type 0 where
  pub tools : List (ToolSpec J)
  pub tool_choice : Option ToolChoiceWire

pub record InferenceConfigWire (F : Type 0) : Type 0 where
  pub max_tokens : ℤ
  pub temperature : F
  pub top_p : F
  pub stop_sequences : List Str

-- The payload of converseBody, before its encoding, which leaves out a field that is zero or empty.
pub record Wire (F J : Type 0) : Type 0 where
  pub messages : List (ConverseMessage J)
  pub system : List Str
  pub tool_config : Option (ToolConfigWire J)
  pub inference_config : InferenceConfigWire F

unfoldable pub choice_wire : ToolChoice → ToolChoiceWire
choice_wire c =
    if str_eq c.mode (codes "any")
    then any
    else if str_eq c.mode (codes "tool")
    then tool c.tool_name
    else auto

unfoldable pub tool_config_of :
    {J : Type 0} → List (ToolSpec J) → Option ToolChoice → Option (ToolConfigWire J)
tool_config_of [] choice = none
tool_config_of (t ∷ ts) choice = some (record {
  tools = t ∷ ts;
  tool_choice = elim choice [ none ↦ none | some c ↦ some (choice_wire c) ];
})

abbrev max_or_default : Option ℤ → ℤ
max_or_default none = pos 4096
max_or_default (some max) = if ltb_ℤ (pos 0) max then max else pos 4096

abbrev float_or_zero : {F : Type 0} → Float64 F → Option F → F
float_or_zero float none = float.of_int (pos 0)
float_or_zero float (some x) = x

-- converseBody
unfoldable pub converse_body : {F J : Type 0} → Float64 F → ConverseRequest F J → Wire F J
converse_body float r = record {
  messages = r.messages;
  system = if is_empty r.system then [] else r.system ∷ [];
  tool_config = tool_config_of r.tools r.tool_choice;
  inference_config = record {
    max_tokens = max_or_default r.max_tokens;
    temperature = float_or_zero float r.temperature;
    top_p = float_or_zero float r.top_p;
    stop_sequences = r.stop_sequences;
  };
}

-- What is not modelled of a dispatch: the encoding of the body, and callMantle.
pub record Beyond (F J S : Type 0) : Type 0 where
  pub marshaller : Marshaller J
  pub encode : Wire F J → Option Bytes
  pub call_mantle : ModelCatalogue → ConverseRequest F J → S → Result ChatError ChatResult × S

module _ {F J S : Type 0} (float : Float64 F) (dec : Decoder) (provider : Provider)
    (beyond : Beyond F J S) (sink : StreamSink S) where
  -- dispatchConverse
  unfoldable pub dispatch_converse :
      ModelCatalogue → ConverseRequest F J → S → Result ChatError ChatResult × S
  dispatch_converse entry r s =
      if uses_mantle_responses entry.model_id
      then beyond.call_mantle entry r s
      else elim (beyond.encode (converse_body float r)) [
        | none ↦ (err not_encoded, s)
        | some payload ↦
            if r.stream
            then chat_stream dec sink provider entry payload s
            else (chat_once dec provider entry payload, s)
      ]

  -- Converse
  unfoldable pub converse :
      Setting
      → Str
      → ConverseRequest F J
      → Server float S
      → Result ChatError ChatResult × Server float S
  converse e model r w =
      gated float S e (converse_is_valid r) model (converse_input_text beyond.marshaller r)
        (elim r.max_tokens [ none ↦ pos 0 | some max ↦ max ])
        (λ entry max. dispatch_converse entry (record r { max_tokens = some max })) w

  -- A route of the compat controllers, behind the translation of its request.
  unfoldable pub handle_converse :
      JobCodec → Setting → Str → Bytes → ConverseRequest F J → Server float S → Server float S
  handle_converse codec e model prompt r w =
      let (answer, w') = converse e model r w in
      elim answer [ err x ↦ w' | ok found ↦ bill float S codec e prompt found w' ]

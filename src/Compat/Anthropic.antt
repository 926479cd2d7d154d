-- ===== src/Compat/Anthropic.antt =====
-- internal/services/compat/anthropic/stream.go: the stream as events of a message.
pub mod Text
pub mod Request
use orbit_api.Common.{
  ℕ, Bool, true, false, Option, none, some, List, [], ◌∷◌, ◌++◌, ◌||◌, not, if◌then◌else◌,
}
use orbit_api.Common.Int.{ℤ, pos, eqb_ℤ}
use orbit_api.Common.Str.{Str, codes, str_eq, is_empty}
use orbit_api.Common.Result.{Result, ok, err}
use orbit_api.Inference.Bytes.{Bytes}
use orbit_api.Inference.Payload.{
  Decoder, BlockStart, BlockDelta, ToolUse, Usage, WriteError, EventKind, kind_of, message_start,
  content_block_start, content_block_delta, content_block_stop, message_stop, metadata, error,
  unknown,
}
use orbit_api.Inference.Relay.{StreamSink}

-- What is written.
pub data Event : Type 0 where
  message_started : Event
  text_started : ℤ → Event
  tool_started : ℤ → Str → Str → Event
  text_delta : ℤ → Str → Event
  input_json_delta : ℤ → Str → Event
  block_stopped : ℤ → Event
  message_delta : Str → ℤ → Event
  message_stopped : Event
  api_error : Str → Event

pub record AnthropicSink : Type 0 where
  pub started : List ℤ
  pub stop_reason : Str
  pub have_stop_reason : Bool
  pub input_tokens : ℤ
  pub output_tokens : ℤ
  pub closed : Bool
  pub errored : Bool
  pub written : List Event

abbrev pub Writer : Type 0
Writer = List Event → Option WriteError

abbrev pub new_stream_sink : AnthropicSink
new_stream_sink = record {
  started = [];
  stop_reason = [];
  have_stop_reason = false;
  input_tokens = pos 0;
  output_tokens = pos 0;
  closed = false;
  errored = false;
  written = [];
}

unfoldable pub write_raw :
    Writer → Event → AnthropicSink → Result WriteError (Unit {0}) × AnthropicSink
write_raw w v s = elim (w s.written) [
  | none ↦ (ok tt, record s { written = s.written ++ v ∷ [] })
  | some e ↦ (err e, s)
]

-- `s.started[index]`
unfoldable pub is_started : ℤ → List ℤ → Bool
is_started index [] = false
is_started index (j ∷ js) = let rest = is_started index js in eqb_ℤ j index || rest

unfoldable pub stop_reason_to_anthropic : Str → Str
stop_reason_to_anthropic reason =
    if str_eq reason (codes "tool_use")
    then codes "tool_use"
    else if str_eq reason (codes "max_tokens")
    then codes "max_tokens"
    else if str_eq reason (codes "stop_sequence")
    then codes "stop_sequence"
    else if str_eq reason (codes "content_filtered")
    then codes "refusal"
    else if str_eq reason (codes "guardrail_intervened")
    then codes "refusal"
    else codes "end_turn"

abbrev pub mark_started : ℤ → AnthropicSink → AnthropicSink
mark_started index s = record s { started = index ∷ s.started }

-- The cases of HandleFrame.
unfoldable pub start_block :
    Writer → Option BlockStart → AnthropicSink → Result WriteError (Unit {0}) × AnthropicSink
start_block w none s = (ok tt, s)
start_block w (some b) s = elim b.tool_use [
  | none ↦ (ok tt, s)
  | some t ↦
      write_raw w (tool_started b.content_block_index t.tool_use_id t.name)
        (mark_started b.content_block_index s)
]

-- A text block is started by its first delta.
unfoldable pub pass_text :
    Writer → ℤ → Str → AnthropicSink → Result WriteError (Unit {0}) × AnthropicSink
pass_text w index text s =
    if is_started index s.started
    then write_raw w (text_delta index text) s
    else let (went, s') = write_raw w (text_started index) (mark_started index s) in
      elim went [ err e ↦ (err e, s') | ok u ↦ write_raw w (text_delta index text) s' ]

unfoldable pub pass_delta :
    Writer → Option BlockDelta → AnthropicSink → Result WriteError (Unit {0}) × AnthropicSink
pass_delta w none s = (ok tt, s)
pass_delta w (some d) s =
    if is_empty d.text
    then elim d.tool_input [
      | none ↦ (ok tt, s)
      | some input ↦ write_raw w (input_json_delta d.content_block_index input) s
    ]
    else pass_text w d.content_block_index d.text s

unfoldable pub stop_block :
    Writer → ℤ → AnthropicSink → Result WriteError (Unit {0}) × AnthropicSink
stop_block w index s =
    if is_started index s.started then write_raw w (block_stopped index) s else (ok tt, s)

unfoldable pub finish : Writer → AnthropicSink → Result WriteError (Unit {0}) × AnthropicSink
finish w s =
    if s.closed
    then (ok tt, s)
    else let reason = if s.have_stop_reason then s.stop_reason else codes "end_turn" in
      let (went, s') =
        write_raw w (message_delta reason s.output_tokens) (record s { closed = true }) in
      elim went [ err e ↦ (err e, s') | ok u ↦ write_raw w message_stopped s' ]

abbrev pub error_message : Str → Str
error_message text = if is_empty text then codes "stream error" else text

unfoldable pub handle_kind :
    Decoder
    → Writer
    → EventKind
    → Bytes
    → AnthropicSink
    → Result WriteError (Unit {0}) × AnthropicSink
handle_kind dec w message_start p s = write_raw w message_started s
handle_kind dec w content_block_start p s = start_block w (dec.block_start p) s
handle_kind dec w content_block_delta p s = pass_delta w (dec.block_delta p) s
handle_kind dec w content_block_stop p s = stop_block w (dec.stop_index p) s
handle_kind dec w message_stop p s = (
  ok tt,
  record s { stop_reason = stop_reason_to_anthropic (dec.stop_reason p); have_stop_reason = true },
)
handle_kind dec w metadata p s = finish w (record s {
  input_tokens = (dec.read_usage p).input_tokens;
  output_tokens = (dec.read_usage p).output_tokens;
})
handle_kind dec w error p s =
    write_raw w (api_error (error_message (dec.message p))) (record s { errored = true })
handle_kind dec w unknown p s = (ok tt, s)

unfoldable pub handle_frame :
    Decoder → Writer → Str → Bytes → AnthropicSink → Result WriteError (Unit {0}) × AnthropicSink
handle_frame dec w t p s = handle_kind dec w (kind_of t) p s

unfoldable pub close : Writer → Bool → AnthropicSink → Result WriteError (Unit {0}) × AnthropicSink
close w stream_err s = if s.closed || s.errored then (ok tt, s) else finish w s

abbrev pub anthropic_sink : Decoder → Writer → StreamSink AnthropicSink
anthropic_sink dec w = record { handle_frame = handle_frame dec w; close = close w }

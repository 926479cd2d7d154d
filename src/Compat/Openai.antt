-- ===== src/Compat/Openai.antt =====
-- internal/services/compat/openai/stream.go: the stream as chunks of a chat completion.
pub mod Text
pub mod Order
pub mod Request
use orbit_api.Common.{
  ℕ, suc, ◌+◌, Bool, true, false, Option, none, some, List, [], ◌∷◌, ◌++◌, not, if◌then◌else◌,
}
use orbit_api.Common.Int.{ℤ, pos, eqb_ℤ}
use orbit_api.Common.Word.{add64}
use orbit_api.Common.Str.{Str, codes, str_eq, is_empty}
use orbit_api.Common.Result.{Result, ok, err}
use orbit_api.Inference.Bytes.{Bytes}
use orbit_api.Inference.Payload.{
  Decoder, BlockStart, BlockDelta, ToolUse, Usage, WriteError, EventKind, kind_of, message_start,
  content_block_start, content_block_delta, content_block_stop, message_stop, metadata, error,
  unknown,
}
use orbit_api.Inference.Relay.{StreamSink}

-- chunkToolCallDel: a start has an id, a type and a name, a later part only arguments.
pub data ChunkToolCall : Type 0 where
  tool_start : ℕ → Str → Str → ChunkToolCall
  tool_arguments : ℕ → Str → ChunkToolCall

-- chunkDelta
pub record ChunkDelta : Type 0 where
  pub role : Str
  pub content : Str
  pub tool_calls : List ChunkToolCall

abbrev pub no_delta : ChunkDelta
no_delta = record { role = []; content = []; tool_calls = [] }

pub record ResponseUsage : Type 0 where
  pub prompt_tokens : ℤ
  pub completion_tokens : ℤ
  pub total_tokens : ℤ

-- What is written: a chunk with its choice, one with the usage and no choice, or the end of the
-- stream. The id, the model and the time are the same in every chunk.
pub data Written : Type 0 where
  choice : ChunkDelta → Option Str → Written
  usage_chunk : ResponseUsage → Written
  done : Written

-- The sink, with what it has written, and what becomes of a write after that.
pub record OpenaiSink : Type 0 where
  pub include_usage : Bool
  pub role_sent : Bool
  pub finished : Bool
  pub tool_index_by_block : List (ℤ × ℕ)
  pub next_tool_index : ℕ
  pub input_tokens : ℤ
  pub output_tokens : ℤ
  pub written : List Written

abbrev pub Writer : Type 0
Writer = List Written → Option WriteError

abbrev pub new_stream_sink : Bool → OpenaiSink
new_stream_sink include_usage = record {
  include_usage = include_usage;
  role_sent = false;
  finished = false;
  tool_index_by_block = [];
  next_tool_index = 0;
  input_tokens = pos 0;
  output_tokens = pos 0;
  written = [];
}

-- A write that fails leaves nothing that a client can read as a chunk.
unfoldable pub write : Writer → Written → OpenaiSink → Result WriteError (Unit {0}) × OpenaiSink
write w c s = elim (w s.written) [
  | none ↦ (ok tt, record s { written = s.written ++ c ∷ [] })
  | some e ↦ (err e, s)
]

-- `m[k] = v` and `m[k]`
abbrev pub set_index : ℤ → ℕ → List (ℤ × ℕ) → List (ℤ × ℕ)
set_index k v m = (k, v) ∷ m

unfoldable pub index_of : ℤ → List (ℤ × ℕ) → Option ℕ
index_of k [] = none
index_of k ((j, v) ∷ m) = let rest = index_of k m in if eqb_ℤ j k then some v else rest

abbrev pub role_chunk : Written
role_chunk = choice (record no_delta { role = codes "assistant" }) none

unfoldable pub ensure_role_then :
    Writer → ChunkDelta → OpenaiSink → Result WriteError (Unit {0}) × OpenaiSink
ensure_role_then w delta s =
    if s.role_sent
    then write w (choice delta none) s
    else let (went, s') = write w role_chunk (record s { role_sent = true }) in
      elim went [ err e ↦ (err e, s') | ok u ↦ write w (choice delta none) s' ]

unfoldable pub stop_reason_to_finish_reason : Str → Str
stop_reason_to_finish_reason reason =
    if str_eq reason (codes "tool_use")
    then codes "tool_calls"
    else if str_eq reason (codes "max_tokens")
    then codes "length"
    else if str_eq reason (codes "content_filtered")
    then codes "content_filter"
    else if str_eq reason (codes "guardrail_intervened")
    then codes "content_filter"
    else codes "stop"

-- The cases of HandleFrame.
unfoldable pub start_block :
    Writer → Option BlockStart → OpenaiSink → Result WriteError (Unit {0}) × OpenaiSink
start_block w none s = (ok tt, s)
start_block w (some b) s = elim b.tool_use [
  | none ↦ (ok tt, s)
  | some t ↦
      ensure_role_then w
        (record no_delta { tool_calls = tool_start s.next_tool_index t.tool_use_id t.name ∷ [] })
        (record s {
          tool_index_by_block =
              set_index b.content_block_index s.next_tool_index s.tool_index_by_block;
          next_tool_index = suc s.next_tool_index;
        })
]

unfoldable pub pass_input :
    Writer → ℤ → Option Str → OpenaiSink → Result WriteError (Unit {0}) × OpenaiSink
pass_input w index none s = (ok tt, s)
pass_input w index (some input) s =
    if is_empty input then (ok tt, s) else elim (index_of index s.tool_index_by_block) [
      | none ↦ (ok tt, s)
      | some i ↦ ensure_role_then w (record no_delta { tool_calls = tool_arguments i input ∷ [] }) s
    ]

unfoldable pub pass_delta :
    Writer → Option BlockDelta → OpenaiSink → Result WriteError (Unit {0}) × OpenaiSink
pass_delta w none s = (ok tt, s)
pass_delta w (some d) s =
    if is_empty d.text
    then pass_input w d.content_block_index d.tool_input s
    else ensure_role_then w (record no_delta { content = d.text }) s

abbrev pub with_usage : Option Usage → OpenaiSink → OpenaiSink
with_usage none s = s
with_usage (some u) s = record s { input_tokens = u.input_tokens; output_tokens = u.output_tokens }

unfoldable pub report_usage : Writer → OpenaiSink → Result WriteError (Unit {0}) × OpenaiSink
report_usage w s =
    if s.include_usage
    then write w
        (usage_chunk (record {
          prompt_tokens = s.input_tokens;
          completion_tokens = s.output_tokens;
          total_tokens = add64 s.input_tokens s.output_tokens;
        }))
        s
    else (ok tt, s)

unfoldable pub handle_kind :
    Decoder → Writer → EventKind → Bytes → OpenaiSink → Result WriteError (Unit {0}) × OpenaiSink
handle_kind dec w message_start p s = write w role_chunk (record s { role_sent = true })
handle_kind dec w content_block_start p s = start_block w (dec.block_start p) s
handle_kind dec w content_block_delta p s = pass_delta w (dec.block_delta p) s
handle_kind dec w content_block_stop p s = (ok tt, s)
handle_kind dec w message_stop p s =
    write w (choice no_delta (some (stop_reason_to_finish_reason (dec.stop_reason p))))
      (record s { finished = true })
handle_kind dec w metadata p s = report_usage w (with_usage (dec.usage p) s)
handle_kind dec w error p s = (ok tt, s)
handle_kind dec w unknown p s = (ok tt, s)

unfoldable pub handle_frame :
    Decoder → Writer → Str → Bytes → OpenaiSink → Result WriteError (Unit {0}) × OpenaiSink
handle_frame dec w t p s = handle_kind dec w (kind_of t) p s

-- Both values of `streamErr` give the same reason.
unfoldable pub close : Writer → Bool → OpenaiSink → Result WriteError (Unit {0}) × OpenaiSink
close w stream_err s =
    if s.finished
    then write w done s
    else let (went, s') = write w (choice no_delta (some (codes "stop"))) s in
      elim went [ err e ↦ (err e, s') | ok u ↦ write w done s' ]

abbrev pub openai_sink : Decoder → Writer → StreamSink OpenaiSink
openai_sink dec w = record { handle_frame = handle_frame dec w; close = close w }

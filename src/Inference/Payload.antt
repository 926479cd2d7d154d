-- ===== src/Inference/Payload.antt =====
-- internal/services/inference: what encoding/json makes of the payloads of the model provider's
-- events. Each reader of the source has a field, which the model takes as a parameter.
use orbit_api.Common.{Option, if◌then◌else◌}
use orbit_api.Common.Int.{ℤ}
use orbit_api.Common.Str.{Str, codes, str_eq}
use orbit_api.Inference.Bytes.{Bytes}

pub record ToolUse : Type 0 where
  pub tool_use_id : Str
  pub name : Str

-- A start of a block that is no tool's has no `tool_use`.
pub record BlockStart : Type 0 where
  pub content_block_index : ℤ
  pub tool_use : Option ToolUse

-- The input of a tool's block, where the delta is a tool's.
pub record BlockDelta : Type 0 where
  pub content_block_index : ℤ
  pub text : Str
  pub tool_input : Option Str

pub record Usage : Type 0 where
  pub input_tokens : ℤ
  pub output_tokens : ℤ
  pub latency_ms : ℤ

-- `none` where json.Unmarshal fails; a value that is read although it fails is no option.
pub record Decoder : Type 0 where
  pub block_start : Bytes → Option BlockStart
  pub block_delta : Bytes → Option BlockDelta
  pub delta_text : Bytes → Option Str
  pub stop_index : Bytes → ℤ
  pub stop_reason : Bytes → Str
  pub usage : Bytes → Option Usage
  pub read_usage : Bytes → Usage
  pub message : Bytes → Str

-- The names of ConverseStream's events, and that of an exception.
pub data EventKind : Type 0 where
  message_start content_block_start content_block_delta content_block_stop message_stop metadata
        error unknown :
      EventKind

-- `switch eventType`
unfoldable pub kind_of : Str → EventKind
kind_of t =
    if str_eq t (codes "messageStart")
    then message_start
    else if str_eq t (codes "contentBlockStart")
    then content_block_start
    else if str_eq t (codes "contentBlockDelta")
    then content_block_delta
    else if str_eq t (codes "contentBlockStop")
    then content_block_stop
    else if str_eq t (codes "messageStop")
    then message_stop
    else if str_eq t (codes "metadata")
    then metadata
    else if str_eq t (codes "error")
    then error
    else unknown

-- A write that fails: the client is gone, or something else.
pub data WriteError : Type 0 where
  client_abort write_failed : WriteError

-- ===== src/Inference/Relay.antt =====
-- relayBedrockStream of internal/services/inference/service.go: the frames of the provider's stream,
-- one after the other, into a sink.
pub mod Shows
pub mod Billed
pub mod Failures
pub mod Adds
pub mod Kept
use orbit_api.Common.{
  ℕ, Bool, true, false, Option, none, some, List, [], ◌∷◌, ◌++◌, ◌&&◌, not, if◌then◌else◌,
}
use orbit_api.Common.Int.{ℤ, pos, eqb_ℤ}
use orbit_api.Common.Str.{Str, codes, str_eq, is_empty}
use orbit_api.Common.Dict.{get}
use orbit_api.Common.Result.{Result, ok, err}
use orbit_api.Inference.Bytes.{Bytes}
use orbit_api.Inference.EventStream.{Frame}
use orbit_api.Inference.Tokens.{estimate_tokens}
use orbit_api.Inference.Payload.{Decoder, Usage, WriteError, client_abort, write_failed}

-- StreamSink of internal/services/inference/eventstream.go, over its own state.
pub record StreamSink (S : Type 0) : Type 0 where
  pub handle_frame : Str → Bytes → S → Result WriteError (Unit {0}) × S
  pub close : Bool → S → Result WriteError (Unit {0}) × S

-- How the calls of readAWSEventStreamFrame end: with io.EOF, with the cancellation of the request, or
-- with another error. A panic of the reader is not followed.
pub data Ending : Type 0 where
  at_eof canceled broken : Ending

-- The variables of the loop.
pub record Relay : Type 0 where
  pub input_tokens : ℤ
  pub output_tokens : ℤ
  pub latency_ms : ℤ
  pub stream_err : Bool
  pub streamed : Str

abbrev pub start : Relay
start = record {
  input_tokens = pos 0;
  output_tokens = pos 0;
  latency_ms = pos 0;
  stream_err = false;
  streamed = [];
}

pub record Relayed : Type 0 where
  pub input_tokens : ℤ
  pub output_tokens : ℤ
  pub latency_ms : ℤ
  pub stream_err : Bool
  pub cancelled : Bool

-- The output that is billed.
unfoldable pub billed_output : Relay → ℤ
billed_output r =
    if eqb_ℤ r.output_tokens (pos 0) && not (is_empty r.streamed)
    then pos (estimate_tokens r.streamed)
    else r.output_tokens

unfoldable pub finish : {S : Type 0} → StreamSink S → Relay → Bool → Bool → S → Relayed × S
finish sink r failed abort s = (
  record {
    input_tokens = r.input_tokens;
    output_tokens = billed_output r;
    latency_ms = r.latency_ms;
    stream_err = failed;
    cancelled = abort && not failed;
  },
  (sink.close failed s).1,
)

-- What follows the last frame.
unfoldable pub end_with : {S : Type 0} → StreamSink S → Ending → Relay → S → Relayed × S
end_with sink at_eof r s = finish sink r r.stream_err false s
end_with sink canceled r s =
    if r.stream_err then finish sink r true false s else finish sink r false true s
end_with sink broken r s = finish sink r true false s

abbrev pub is_exception : Frame → Bool
is_exception f = str_eq (get (codes ":message-type") f.headers) (codes "exception")

unfoldable pub event_type_of : Frame → Str
event_type_of f =
    if is_exception f
    then codes "error"
    else if is_empty (get (codes ":event-type") f.headers)
    then codes "message"
    else get (codes ":event-type") f.headers

-- The text that a frame adds to the answer.
unfoldable pub frame_text : Decoder → Frame → Str
frame_text dec f =
    if str_eq (event_type_of f) (codes "contentBlockDelta")
    then elim (dec.delta_text f.payload) [ none ↦ [] | some text ↦ text ]
    else []

-- The variables before the frame goes to the sink, and after it went through.
abbrev pub received : Decoder → Frame → Relay → Relay
received dec f r = record r {
  stream_err = if is_exception f then true else r.stream_err;
  streamed = r.streamed ++ frame_text dec f;
}

unfoldable pub counted : Decoder → Frame → Relay → Relay
counted dec f r =
    if str_eq (event_type_of f) (codes "metadata")
    then elim (dec.usage f.payload) [
      | none ↦ r
      | some u ↦ record r {
        input_tokens = u.input_tokens;
        output_tokens = u.output_tokens;
        latency_ms = u.latency_ms;
      }
    ]
    else r

-- A sink that fails.
unfoldable pub give_up : {S : Type 0} → StreamSink S → WriteError → Relay → S → Relayed × S
give_up sink client_abort r s =
    if r.stream_err then finish sink r true false s else finish sink r false true s
give_up sink write_failed r s = finish sink r true false s

unfoldable pub relay_frames :
    {S : Type 0} → Decoder → StreamSink S → List Frame → Ending → Relay → S → Relayed × S
relay_frames dec sink [] ending r s = end_with sink ending r s
relay_frames dec sink (f ∷ fs) ending r s =
    let r' = received dec f r in
    let (went, s') = sink.handle_frame (event_type_of f) f.payload s in
    elim went [
      | err e ↦ give_up sink e r' s'
      | ok u ↦ relay_frames dec sink fs ending (counted dec f r') s'
    ]

unfoldable pub relay_bedrock_stream :
    {S : Type 0} → Decoder → StreamSink S → List Frame → Ending → S → Relayed × S
relay_bedrock_stream dec sink fs ending s = relay_frames dec sink fs ending start s

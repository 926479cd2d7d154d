-- ===== src/Compat/Anthropic/Text.antt =====
-- internal/services/compat/anthropic/stream.go: the text that its events carry.
use orbit_api.Common.{
  ◌≡◌, refl, sym, ap, ◌∙◌, inl, inr, Bool, true, Option, none, some, List, [], ◌∷◌, ◌++◌, ◌||◌,
  append_nil, append_assoc, Bool-cases,
}
use orbit_api.Common.Int.{ℤ}
use orbit_api.Common.Str.{Str, is_empty}
use orbit_api.Common.Branches.{if_either, option_either}
use orbit_api.Inference.Bytes.{Bytes}
use orbit_api.Inference.Payload.{
  Decoder, BlockStart, BlockDelta, EventKind, kind_of, message_start, content_block_start,
  content_block_delta, content_block_stop, message_stop, metadata, error, unknown,
}
use orbit_api.Inference.Relay.Adds.{Adds, idle, again, empty_text}
use orbit_api.Inference.Relay.Shows.{text_of_kind, delta_of, Shows}
use orbit_api.Compat.Anthropic.{
  Event, message_started, text_started, tool_started, text_delta, input_json_delta, block_stopped,
  message_delta, message_stopped, api_error, AnthropicSink, Writer, write_raw, is_started,
  mark_started, start_block, pass_text, pass_delta, stop_block, finish, handle_kind, handle_frame,
  close, anthropic_sink,
}

-- A client that takes everything.
abbrev pub keeps_up : Writer
keeps_up written = none

abbrev pub content_of : Event → Str
content_of (text_delta index text) = text
content_of message_started = []
content_of (text_started index) = []
content_of (tool_started index id name) = []
content_of (input_json_delta index input) = []
content_of (block_stopped index) = []
content_of (message_delta reason output) = []
content_of message_stopped = []
content_of (api_error text) = []

unfoldable pub contents : List Event → Str
contents [] = []
contents (v ∷ vs) = content_of v ++ contents vs

contents-append :
    (vs : List Event) (v : Event) → contents (vs ++ v ∷ []) ≡ contents vs ++ content_of v
unfolding contents
contents-append [] v = append_nil (content_of v)
contents-append (x ∷ vs) v =
    ap (λ (t : Str). content_of x ++ t) (contents-append vs v)
    ∙ sym (append_assoc (content_of x) (contents vs) (content_of v))

-- The text that the sink has shown.
abbrev pub shown : AnthropicSink → Str
shown s = contents s.written

write_raw-Adds :
    (v : Event) (s : AnthropicSink) → Adds shown (content_of v) s (write_raw keeps_up v s)
unfolding write_raw
write_raw-Adds v s = record { taken = refl; shows = contents-append s.written v }

-- Two writes, of which the first shows nothing.
both_shown :
    (vs : List Event) (v u : Event)
    → content_of v ≡ []
    → contents ((vs ++ v ∷ []) ++ u ∷ []) ≡ contents vs ++ content_of u
both_shown vs v u silent =
    contents-append (vs ++ v ∷ []) u
    ∙ ap (λ (t : Str). t ++ content_of u)
        (contents-append vs v
          ∙ ap (λ (t : Str). contents vs ++ t) silent
          ∙ append_nil (contents vs))

start_block-Adds :
    (b : Option BlockStart) (s : AnthropicSink) → Adds shown [] s (start_block keeps_up b s)
unfolding start_block
start_block-Adds none s = idle shown s
start_block-Adds (some b) s =
    option_either (Adds shown [] s) b.tool_use (idle shown s)
      (λ t. again shown s (mark_started b.content_block_index s) refl (write_raw-Adds _ _))

pass_text-Adds :
    (index : ℤ) (text : Str) (s : AnthropicSink)
    → Adds shown text s (pass_text keeps_up index text s)
unfolding pass_text write_raw
pass_text-Adds index text s =
    if_either (Adds shown text s) (is_started index s.started)
      (record { taken = refl; shows = contents-append s.written (text_delta index text) })
      (record {
        taken = refl;
        shows = both_shown s.written (text_started index) (text_delta index text) refl;
      })

pass_delta-Adds :
    (d : Option BlockDelta) (s : AnthropicSink)
    → Adds shown (delta_of d) s (pass_delta keeps_up d s)
unfolding pass_delta
pass_delta-Adds none s = idle shown s
pass_delta-Adds (some d) s = elim (Bool-cases (is_empty d.text)) [
  | inl blank ↦
      let nothing : d.text ≡ [] = empty_text d.text blank in
      rw blank (
        rw nothing (
          option_either (Adds shown [] s) d.tool_input (idle shown s)
            (λ input. write_raw-Adds (input_json_delta d.content_block_index input) s)))
  | inr there ↦ rw there (pass_text-Adds d.content_block_index d.text s)
]

finish-Adds : (s : AnthropicSink) → Adds shown [] s (finish keeps_up s)
unfolding finish write_raw
finish-Adds s = if_either (Adds shown [] s) s.closed (idle shown s) (record {
  taken = refl;
  shows = both_shown s.written (message_delta _ s.output_tokens) message_stopped refl;
})

handle_kind-Adds :
    (dec : Decoder) (k : EventKind) (p : Bytes) (s : AnthropicSink)
    → Adds shown (text_of_kind dec k p) s (handle_kind dec keeps_up k p s)
unfolding handle_kind stop_block
handle_kind-Adds dec message_start p s = write_raw-Adds message_started s
handle_kind-Adds dec content_block_start p s = start_block-Adds (dec.block_start p) s
handle_kind-Adds dec content_block_delta p s = pass_delta-Adds (dec.block_delta p) s
handle_kind-Adds dec content_block_stop p s =
    if_either (Adds shown [] s) (is_started (dec.stop_index p) s.started)
      (write_raw-Adds (block_stopped (dec.stop_index p)) s) (idle shown s)
handle_kind-Adds dec message_stop p s = again shown s _ refl (idle shown _)
handle_kind-Adds dec metadata p s = again shown s _ refl (finish-Adds _)
handle_kind-Adds dec error p s =
    again shown s (record s { errored = true }) refl (write_raw-Adds _ _)
handle_kind-Adds dec unknown p s = idle shown s

close-Adds : (failed : Bool) (s : AnthropicSink) → Adds shown [] s (close keeps_up failed s)
unfolding close
close-Adds failed s =
    if_either (Adds shown [] s) (s.closed || s.errored) (idle shown s) (finish-Adds s)

-- The sink shows the text of every delta, and no other.
pub anthropic_sink-Shows : (dec : Decoder) → Shows dec (anthropic_sink dec keeps_up) shown
unfolding handle_frame
anthropic_sink-Shows dec = record {
  takes = λ t p s. (handle_kind-Adds dec (kind_of t) p s).taken;
  handles = λ t p s. (handle_kind-Adds dec (kind_of t) p s).shows;
  closes = λ failed s. (close-Adds failed s).shows ∙ append_nil (shown s);
}

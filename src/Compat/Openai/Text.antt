-- ===== src/Compat/Openai/Text.antt =====
-- internal/services/compat/openai/stream.go: the text that its chunks carry.
use orbit_api.Common.{
  ◌≡◌, refl, sym, ap, ◌∙◌, inl, inr, Bool, true, Option, none, some, List, [], ◌∷◌, ◌++◌,
  append_nil, append_assoc, Bool-cases,
}
use orbit_api.Common.Int.{ℤ}
use orbit_api.Common.Str.{Str, is_empty}
use orbit_api.Common.Branches.{if_either, option_either}
use orbit_api.Inference.Bytes.{Bytes}
use orbit_api.Inference.Payload.{
  Decoder, BlockStart, BlockDelta, Usage, EventKind, kind_of, message_start, content_block_start,
  content_block_delta, content_block_stop, message_stop, metadata, error, unknown,
}
use orbit_api.Inference.Relay.Adds.{Adds, idle, again, empty_text}
use orbit_api.Inference.Relay.Shows.{text_of_kind, delta_of, Shows}
use orbit_api.Compat.Openai.{
  ChunkDelta, Written, choice, usage_chunk, done, OpenaiSink, Writer, write, role_chunk,
  ensure_role_then, start_block, pass_input, index_of, pass_delta, with_usage, report_usage,
  handle_kind, handle_frame, close, openai_sink,
}

-- A client that takes everything.
abbrev pub keeps_up : Writer
keeps_up written = none

abbrev pub content_of : Written → Str
content_of (choice d f) = d.content
content_of (usage_chunk u) = []
content_of done = []

unfoldable pub contents : List Written → Str
contents [] = []
contents (c ∷ cs) = content_of c ++ contents cs

contents-append :
    (cs : List Written) (c : Written) → contents (cs ++ c ∷ []) ≡ contents cs ++ content_of c
unfolding contents
contents-append [] c = append_nil (content_of c)
contents-append (x ∷ cs) c =
    ap (λ (t : Str). content_of x ++ t) (contents-append cs c)
    ∙ sym (append_assoc (content_of x) (contents cs) (content_of c))

-- The text that the sink has shown.
abbrev pub shown : OpenaiSink → Str
shown s = contents s.written

write-Adds : (c : Written) (s : OpenaiSink) → Adds shown (content_of c) s (write keeps_up c s)
unfolding write
write-Adds c s = record { taken = refl; shows = contents-append s.written c }

ensure_role_then-Adds :
    (d : ChunkDelta) (s : OpenaiSink) → Adds shown d.content s (ensure_role_then keeps_up d s)
unfolding ensure_role_then write
ensure_role_then-Adds d s = elim (Bool-cases s.role_sent) [
  | inl sent ↦ rw sent (record { taken = refl; shows = contents-append s.written (choice d none) })
  | inr not_yet ↦ rw not_yet (record {
    taken = refl;
    shows =
        contents-append (s.written ++ role_chunk ∷ []) (choice d none)
        ∙ ap (λ (t : Str). t ++ d.content)
            (contents-append s.written role_chunk ∙ append_nil (contents s.written));
  })
]

start_block-Adds :
    (b : Option BlockStart) (s : OpenaiSink) → Adds shown [] s (start_block keeps_up b s)
unfolding start_block
start_block-Adds none s = idle shown s
start_block-Adds (some b) s =
    option_either (Adds shown [] s) b.tool_use (idle shown s)
      (λ t. again shown s _ refl (ensure_role_then-Adds _ _))

pass_input-Adds :
    (index : ℤ) (input : Option Str) (s : OpenaiSink)
    → Adds shown [] s (pass_input keeps_up index input s)
unfolding pass_input
pass_input-Adds index none s = idle shown s
pass_input-Adds index (some input) s = if_either (Adds shown [] s) (is_empty input) (idle shown s) (
    option_either (Adds shown [] s) (index_of index s.tool_index_by_block) (idle shown s)
      (λ i. ensure_role_then-Adds _ s))

pass_delta-Adds :
    (d : Option BlockDelta) (s : OpenaiSink) → Adds shown (delta_of d) s (pass_delta keeps_up d s)
unfolding pass_delta
pass_delta-Adds none s = idle shown s
pass_delta-Adds (some d) s = elim (Bool-cases (is_empty d.text)) [
  | inl blank ↦
      let nothing : d.text ≡ [] = empty_text d.text blank in
      rw blank (rw nothing (pass_input-Adds d.content_block_index d.tool_input s))
  | inr there ↦ rw there (ensure_role_then-Adds _ s)
]

report_usage-Adds : (s : OpenaiSink) → Adds shown [] s (report_usage keeps_up s)
unfolding report_usage
report_usage-Adds s = if_either (Adds shown [] s) s.include_usage (write-Adds _ s) (idle shown s)

handle_kind-Adds :
    (dec : Decoder) (k : EventKind) (p : Bytes) (s : OpenaiSink)
    → Adds shown (text_of_kind dec k p) s (handle_kind dec keeps_up k p s)
unfolding handle_kind
handle_kind-Adds dec message_start p s =
    again shown s (record s { role_sent = true }) refl (write-Adds role_chunk _)
handle_kind-Adds dec content_block_start p s = start_block-Adds (dec.block_start p) s
handle_kind-Adds dec content_block_delta p s = pass_delta-Adds (dec.block_delta p) s
handle_kind-Adds dec content_block_stop p s = idle shown s
handle_kind-Adds dec message_stop p s =
    again shown s (record s { finished = true }) refl (write-Adds _ _)
handle_kind-Adds dec metadata p s = metered (dec.usage p)
  where
    metered : (u : Option Usage) → Adds shown [] s (report_usage keeps_up (with_usage u s))
    metered none = report_usage-Adds s
    metered (some u) = again shown s (with_usage (some u) s) refl (report_usage-Adds _)
handle_kind-Adds dec error p s = idle shown s
handle_kind-Adds dec unknown p s = idle shown s

close-Adds : (failed : Bool) (s : OpenaiSink) → Adds shown [] s (close keeps_up failed s)
unfolding close write
close-Adds failed s = elim (Bool-cases s.finished) [
  | inl over ↦ rw over (record { taken = refl; shows = contents-append s.written done })
  | inr not_yet ↦ rw not_yet (record {
    taken = refl;
    shows =
        contents-append (s.written ++ _ ∷ []) done
        ∙ append_nil (contents (s.written ++ _ ∷ []))
        ∙ contents-append s.written _;
  })
]

-- The sink shows the text of every delta, and no other.
pub openai_sink-Shows : (dec : Decoder) → Shows dec (openai_sink dec keeps_up) shown
unfolding handle_frame
openai_sink-Shows dec = record {
  takes = λ t p s. (handle_kind-Adds dec (kind_of t) p s).taken;
  handles = λ t p s. (handle_kind-Adds dec (kind_of t) p s).shows;
  closes = λ failed s. (close-Adds failed s).shows ∙ append_nil (shown s);
}

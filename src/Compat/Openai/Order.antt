-- ===== src/Compat/Openai/Order.antt =====
-- internal/services/compat/openai/stream.go: the order of the tool calls in its chunks.
use orbit_api.Common.Str.{is_empty, Str, codes}
use orbit_api.Common.{
  ℕ, suc, ◌<◌, ◌≡◌, refl, sym, ap, ◌∙◌, inl, inr, Bool, true, Option, none, some, List, [], ◌∷◌,
  ◌++◌, arith, ltb, ◌==◌, append_nil, append_assoc, Option-cases, Bool-cases, if◌then◌else◌,
}
use orbit_api.Common.Int.{ℤ, eqb_ℤ}
use orbit_api.Common.Branches.{if_either, option_either, result_either}
use orbit_api.Common.Result.{Result, ok, err}
use orbit_api.Inference.Bytes.{Bytes}
use orbit_api.Inference.EventStream.{Frame}
use orbit_api.Inference.Payload.{
  Decoder, WriteError, BlockStart, BlockDelta, Usage, EventKind, kind_of, message_start,
  content_block_start, content_block_delta, content_block_stop, message_stop, metadata, error,
  unknown,
}
use orbit_api.Inference.Relay.{Ending, start, relay_bedrock_stream}
use orbit_api.Inference.Relay.Kept.{Takes, relay_kept}
use orbit_api.Compat.Openai.{
  no_delta, new_stream_sink, ChunkToolCall, tool_start, tool_arguments, ChunkDelta, Written, choice,
  usage_chunk, done, OpenaiSink, Writer, write, role_chunk, ensure_role_then, start_block,
  pass_input, index_of, pass_delta, with_usage, report_usage, handle_kind, handle_frame, close,
  openai_sink, set_index,
}

-- How far the tool calls of the stream have come, if they are in order: a start has the next index,
-- counted from 0, and arguments the index of a call that was started.
unfoldable pub after_call : ℕ → ChunkToolCall → Option ℕ
after_call n (tool_start i id name) = if i == n then some (suc n) else none
after_call n (tool_arguments i input) = if ltb i n then some n else none

unfoldable pub after_calls : ℕ → List ChunkToolCall → Option ℕ
after_calls n [] = some n
after_calls n (c ∷ cs) = elim (after_call n c) [ none ↦ none | some m ↦ after_calls m cs ]

abbrev pub calls_of : Written → List ChunkToolCall
calls_of (choice d f) = d.tool_calls
calls_of (usage_chunk u) = []
calls_of done = []

unfoldable pub calls : List Written → List ChunkToolCall
calls [] = []
calls (c ∷ cs) = calls_of c ++ calls cs

calls-append : (cs : List Written) (c : Written) → calls (cs ++ c ∷ []) ≡ calls cs ++ calls_of c
unfolding calls
calls-append [] c = append_nil (calls_of c)
calls-append (x ∷ cs) c =
    ap (λ (t : List ChunkToolCall). calls_of x ++ t) (calls-append cs c)
    ∙ sym (append_assoc (calls_of x) (calls cs) (calls_of c))

after_calls-append :
    (n m : ℕ) (xs ys : List ChunkToolCall)
    → after_calls n xs ≡ some m
    → after_calls n (xs ++ ys) ≡ after_calls m ys
unfolding after_calls
after_calls-append n m [] ys e = ground (arith, e)
after_calls-append n m (x ∷ xs) ys e = elim (Option-cases (after_call n x)) [
  | inl bad ↦ ground (arith, e, bad)
  | inr (k, good) ↦
      let rest : after_calls k xs ≡ some m = ground (arith, e, good) in
      ground (arith, good, after_calls-append k m xs ys rest)
]

-- The calls that were written are in order, and the next one has this index.
abbrev Reached : ℕ → List Written → Type 0
Reached n cs = after_calls 0 (calls cs) ≡ some n

abbrev pub IsOrdered : List Written → Type 0
IsOrdered cs = (n : ℕ) × (after_calls 0 (calls cs) ≡ some n)

append_calls :
    (n m : ℕ) (cs : List Written) (c : Written)
    → Reached n cs
    → after_calls n (calls_of c) ≡ some m
    → Reached m (cs ++ c ∷ [])
append_calls n m cs c reached e =
    ap (λ (t : List ChunkToolCall). after_calls 0 t) (calls-append cs c)
    ∙ after_calls-append 0 n (calls cs) (calls_of c) reached
    ∙ e

-- The sink knows no index that was not given to a call.
abbrev Knows : OpenaiSink → Type 0
Knows s = (k : ℤ) (i : ℕ) → index_of k s.tool_index_by_block ≡ some i → i < s.next_tool_index

record InOrder (s : OpenaiSink) : Type 0 where
  ordered : Reached s.next_tool_index s.written
  known : Knows s

-- After a step: all is in order, and if the step failed, at least what was written is.
abbrev Next : Result WriteError (Unit {0}) × OpenaiSink → Type 0
Next = Takes InOrder (λ s. IsOrdered s.written)

write-Next :
    (w : Writer) (n : ℕ) (c : Written) (s : OpenaiSink)
    → Reached n s.written
    → after_calls n (calls_of c) ≡ some s.next_tool_index
    → Knows s
    → Next (write w c s)
unfolding write
write-Next w n c s reached e known =
    option_either Next (w s.written)
      (record { ordered = append_calls n s.next_tool_index s.written c reached e; known = known })
      (λ x. (n, reached))

-- A chunk after the one that says the role.
abbrev Follows : Writer → Written → Result WriteError (Unit {0}) × OpenaiSink → Type 0
Follows w c (ok u, s) = Next (write w c s)
Follows w c (err e, s) = IsOrdered s.written

role_then :
    (w : Writer) (c : Written) (r : Result WriteError (Unit {0}) × OpenaiSink)
    → Follows w c r
    → Next (
        let goes : Result WriteError (Unit {0}) × OpenaiSink = elim r.0 [
          | err e ↦ (err e, r.1)
          | ok u ↦ write w c r.1
        ] in
        goes)
role_then w c (ok u, s) follows = follows
role_then w c (err e, s) follows = follows

write_role-Follows :
    (w : Writer) (n : ℕ) (c : Written) (s : OpenaiSink)
    → Reached n s.written
    → after_calls n (calls_of c) ≡ some s.next_tool_index
    → Knows s
    → Follows w c (write w role_chunk s)
unfolding write after_calls
write_role-Follows w n c s reached e known =
    option_either (Follows w c) (w s.written)
      (write-Next w n c _ (append_calls n n s.written role_chunk reached refl) e known)
      (λ x. (n, reached))

next_call : (n : ℕ) (id name : Str) → after_calls n (tool_start n id name ∷ []) ≡ some (suc n)
unfolding after_calls after_call
next_call n id name = ground arith

known_call : (n i : ℕ) (input : Str) → i < n → after_calls n (tool_arguments i input ∷ []) ≡ some n
unfolding after_calls after_call
known_call n i input below = ground (arith, below)

ensure_role_then-Next :
    (w : Writer) (n : ℕ) (d : ChunkDelta) (s : OpenaiSink)
    → Reached n s.written
    → after_calls n d.tool_calls ≡ some s.next_tool_index
    → Knows s
    → Next (ensure_role_then w d s)
unfolding ensure_role_then
ensure_role_then-Next w n d s reached e known =
    if_either Next s.role_sent (write-Next w n (choice d none) s reached e known) (
      role_then w (choice d none) _
        (write_role-Follows w n (choice d none) (record s { role_sent = true }) reached e known))

set_index-Knows :
    (k : ℤ) (n : ℕ) (m : List (ℤ × ℕ))
    → ((j : ℤ) (i : ℕ) → index_of j m ≡ some i → i < n)
    → (j : ℤ) (i : ℕ) → index_of j (set_index k n m) ≡ some i
    → i < suc n
unfolding index_of
set_index-Knows k n m known j i e = elim (Bool-cases (eqb_ℤ k j)) [
  | inl here ↦ ground (arith, e, here)
  | inr there ↦
      let old : index_of j m ≡ some i = ground (arith, e, there) in
      let small = known j i old in omega arith
]

start_block-Next :
    (w : Writer) (b : Option BlockStart) (s : OpenaiSink) → InOrder s → Next (start_block w b s)
unfolding start_block
start_block-Next w none s o = o
start_block-Next w (some b) s o = option_either Next b.tool_use o (λ t.
    ensure_role_then-Next w s.next_tool_index _ _ o.ordered
      (next_call s.next_tool_index t.tool_use_id t.name)
      (set_index-Knows b.content_block_index s.next_tool_index s.tool_index_by_block o.known))

pass_input-Next :
    (w : Writer) (index : ℤ) (input : Option Str) (s : OpenaiSink)
    → InOrder s
    → Next (pass_input w index input s)
unfolding pass_input
pass_input-Next w index none s o = o
pass_input-Next w index (some input) s o =
    if_either Next (is_empty input) o (elim (Option-cases (index_of index s.tool_index_by_block)) [
      | inl unknown_block ↦ rw unknown_block o
      | inr (i, found) ↦ rw found (
          ensure_role_then-Next w s.next_tool_index _ s o.ordered
            (known_call s.next_tool_index i input (o.known index i found)) o.known)
    ])

same_calls : (n : ℕ) → after_calls n [] ≡ some n
unfolding after_calls
same_calls n = refl

handle_kind-Next :
    (dec : Decoder) (w : Writer) (k : EventKind) (p : Bytes) (s : OpenaiSink)
    → InOrder s
    → Next (handle_kind dec w k p s)
unfolding handle_kind pass_delta report_usage
handle_kind-Next dec w message_start p s o =
    write-Next w s.next_tool_index role_chunk _ o.ordered (same_calls _) o.known
handle_kind-Next dec w content_block_start p s o = start_block-Next w (dec.block_start p) s o
handle_kind-Next dec w content_block_delta p s o = passes (dec.block_delta p)
  where
    passes : (d : Option BlockDelta) → Next (pass_delta w d s)
    passes none = o
    passes (some d) =
        if_either Next (is_empty d.text) (pass_input-Next w d.content_block_index d.tool_input s o)
          (ensure_role_then-Next w s.next_tool_index _ s o.ordered (same_calls _) o.known)
handle_kind-Next dec w content_block_stop p s o = o
handle_kind-Next dec w message_stop p s o =
    write-Next w s.next_tool_index _ _ o.ordered (same_calls _) o.known
handle_kind-Next dec w metadata p s o = reports (dec.usage p)
  where
    reports : (u : Option Usage) → Next (report_usage w (with_usage u s))
    reports none =
        if_either Next s.include_usage
          (write-Next w s.next_tool_index _ s o.ordered (same_calls _) o.known) o
    reports (some u) =
        if_either Next s.include_usage
          (write-Next w s.next_tool_index _ _ o.ordered (same_calls _) o.known)
          (record { ordered = o.ordered; known = o.known })
handle_kind-Next dec w error p s o = o
handle_kind-Next dec w unknown p s o = o

-- Chunks without calls.
write-IsOrdered :
    (w : Writer) (c : Written) (s : OpenaiSink)
    → calls_of c ≡ []
    → IsOrdered s.written
    → IsOrdered (write w c s).1.written
unfolding write
write-IsOrdered w c s none_here (n, reached) =
    option_either (λ (r : Result WriteError (Unit {0}) × OpenaiSink). IsOrdered r.1.written)
      (w s.written) (n, append_calls n n s.written c reached (rw none_here (same_calls n)))
      (λ x. (n, reached))

close-IsOrdered :
    (w : Writer) (failed : Bool) (s : OpenaiSink)
    → IsOrdered s.written
    → IsOrdered (close w failed s).1.written
unfolding close
close-IsOrdered w failed s o =
    let stop = choice no_delta (some (codes "stop")) in
    let stopped = write-IsOrdered w stop s refl o in
    if_either (λ (r : Result WriteError (Unit {0}) × OpenaiSink). IsOrdered r.1.written) s.finished
      (write-IsOrdered w done s refl o)
      (result_either (λ (r : Result WriteError (Unit {0}) × OpenaiSink). IsOrdered r.1.written)
        (write w stop s).0 (λ u. write-IsOrdered w done (write w stop s).1 refl stopped)
        (λ e. stopped))

-- However the stream goes and ends, and whichever of the writes to the client fail, the tool calls in
-- what was written are in order: they start with the indices 0, 1, 2, …, each once, and every part of a
-- call's arguments has the index of a call that was started before.
pub relay_bedrock_stream-IsOrdered :
    (dec : Decoder) (w : Writer) (include_usage : Bool) (fs : List Frame) (ending : Ending)
    → IsOrdered
        (relay_bedrock_stream dec
          (openai_sink dec w)
          fs
          ending
          (new_stream_sink include_usage)).1.written
unfolding relay_bedrock_stream handle_frame calls after_calls index_of
relay_bedrock_stream-IsOrdered dec w include_usage fs ending =
    relay_kept dec (openai_sink dec w) InOrder (λ s. IsOrdered s.written) (λ s. IsOrdered s.written)
      (λ t p s o. handle_kind-Next dec w (kind_of t) p s o) (λ s o. (s.next_tool_index, o.ordered))
      (λ failed s o. close-IsOrdered w failed s o) fs ending start (new_stream_sink include_usage)
      (record { ordered = refl; known = λ k i e. ground (arith, e) })

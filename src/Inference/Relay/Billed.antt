-- ===== src/Inference/Relay/Billed.antt =====
-- What a relayed stream shows and what it is billed, for every sink that shows the text that it is
-- given.
use orbit_api.Common.{
  ℕ, ◌≡◌, refl, sym, ap, ◌∙◌, inl, inr, true, false, List, [], ◌∷◌, ◌++◌, arith, All, append_nil,
  append_assoc, Bool-cases,
}
use orbit_api.Common.Int.{pos}
use orbit_api.Common.Str.{Str, codes, str_eq, is_empty}
use orbit_api.Common.Branches.{if_either}
use orbit_api.Inference.EventStream.{Frame}
use orbit_api.Inference.Tokens.{estimate_tokens}
use orbit_api.Inference.Payload.{Decoder}
use orbit_api.Inference.Relay.{
  StreamSink, Ending, at_eof, canceled, broken, Relay, start, Relayed, billed_output, finish,
  end_with, event_type_of, frame_text, received, counted, relay_frames, relay_bedrock_stream,
}
use orbit_api.Inference.Relay.Shows.{Shows, Agrees, texts, relay_step}

-- A frame that reports no usage.
abbrev pub Unmetered : Frame → Type 0
Unmetered f = str_eq (event_type_of f) (codes "metadata") ≡ false

no_estimate : (text : Str) → is_empty text ≡ true → estimate_tokens text ≡ 0
unfolding estimate_tokens
no_estimate [] blank = refl
no_estimate (c ∷ cs) blank = ground arith

-- The estimate stands in for a count of none.
estimated :
    (r : Relay) → r.output_tokens ≡ pos 0 → billed_output r ≡ pos (estimate_tokens r.streamed)
unfolding billed_output
estimated r zero_yet = elim (Bool-cases (is_empty r.streamed)) [
  | inl blank ↦ rw zero_yet (rw blank (ap (λ (n : ℕ). pos n) (sym (no_estimate r.streamed blank))))
  | inr there ↦ rw zero_yet (rw there refl)
]

module _ {S : Type 0} (dec : Decoder) (sink : StreamSink S) (shown : S → Str)
    (shows : Shows dec sink shown) where
  end_delivers :
      (ending : Ending) (r : Relay) (s : S) → shown (end_with sink ending r s).1 ≡ shown s
  unfolding end_with finish
  end_delivers at_eof r s = shows.closes r.stream_err s
  end_delivers broken r s = shows.closes true s
  end_delivers canceled r s =
      if_either (λ (x : Relayed × S). shown x.1 ≡ shown s) r.stream_err (shows.closes true s)
        (shows.closes false s)

  relay_delivers :
      (fs : List Frame) (ending : Ending) (r : Relay) (s : S)
      → All (Agrees dec) fs
      → shown (relay_frames dec sink fs ending r s).1 ≡ shown s ++ texts dec fs
  unfolding relay_frames texts
  relay_delivers [] ending r s agreed = end_delivers ending r s ∙ sym (append_nil (shown s))
  relay_delivers (f ∷ fs) ending r s (agrees, agreed) =
      let s' = (sink.handle_frame (event_type_of f) f.payload s).1 in
      ap (λ x. shown x.1) (relay_step dec sink shown shows f fs ending r s)
      ∙ relay_delivers fs ending (counted dec f (received dec f r)) s' agreed
      ∙ ap (λ (t : Str). t ++ texts dec fs)
          (shows.handles (event_type_of f) f.payload s ∙ ap (λ (t : Str). shown s ++ t) agrees)
      ∙ append_assoc (shown s) (frame_text dec f) (texts dec fs)

  end_bills :
      (ending : Ending) (r : Relay) (s : S)
      → (end_with sink ending r s).0.output_tokens ≡ billed_output r
  unfolding end_with finish
  end_bills at_eof r s = refl
  end_bills broken r s = refl
  end_bills canceled r s =
      if_either (λ (x : Relayed × S). x.0.output_tokens ≡ billed_output r) r.stream_err refl refl

  relay_bills :
      (fs : List Frame) (ending : Ending) (r : Relay) (s : S)
      → r.output_tokens ≡ pos 0
      → All Unmetered fs
      → (relay_frames dec sink fs ending r s).0.output_tokens
        ≡ pos (estimate_tokens (r.streamed ++ texts dec fs))
  unfolding texts counted relay_frames
  relay_bills [] ending r s zero_yet unmetered =
      end_bills ending r s
      ∙ estimated r zero_yet
      ∙ ap (λ (t : Str). pos (estimate_tokens t)) (sym (append_nil r.streamed))
  relay_bills (f ∷ fs) ending r s zero_yet (none_here, unmetered) =
      let r' = received dec f r in
      let s' = (sink.handle_frame (event_type_of f) f.payload s).1 in
      let same : counted dec f r' ≡ r' = rw none_here refl in
      ap (λ x. x.0.output_tokens) (relay_step dec sink shown shows f fs ending r s)
      ∙ ap (λ (x : Relay). (relay_frames dec sink fs ending x s').0.output_tokens) same
      ∙ relay_bills fs ending r' s' zero_yet unmetered
      ∙ ap (λ (t : Str). pos (estimate_tokens t))
          (append_assoc r.streamed (frame_text dec f) (texts dec fs))

-- What the client of a relayed stream is shown is the text of the provider's deltas, in their order,
-- after what the sink has shown before; and where the provider reports no usage, what is billed is
-- the estimate of the deltas' text.
pub relay_bedrock_stream_delivers :
    {S : Type 0} (dec : Decoder) (sink : StreamSink S) (shown : S → Str)
    → Shows dec sink shown
    → (fs : List Frame) (ending : Ending) (s : S) → All (Agrees dec) fs
    → shown (relay_bedrock_stream dec sink fs ending s).1 ≡ shown s ++ texts dec fs
unfolding relay_bedrock_stream
relay_bedrock_stream_delivers dec sink shown shows fs ending s agreed =
    relay_delivers dec sink shown shows fs ending start s agreed

pub relay_bedrock_stream_bills :
    {S : Type 0} (dec : Decoder) (sink : StreamSink S) (shown : S → Str)
    → Shows dec sink shown
    → (fs : List Frame) (ending : Ending) (s : S) → All (Agrees dec) fs
    → All Unmetered fs
    → shown s ≡ []
    → (relay_bedrock_stream dec sink fs ending s).0.output_tokens
      ≡ pos (estimate_tokens (shown (relay_bedrock_stream dec sink fs ending s).1))
unfolding relay_bedrock_stream
relay_bedrock_stream_bills dec sink shown shows fs ending s agreed unmetered fresh =
    relay_bills dec sink shown shows fs ending start s refl unmetered
    ∙ ap (λ (t : Str). pos (estimate_tokens t))
        (sym (
          relay_delivers dec sink shown shows fs ending start s agreed
          ∙ ap (λ (t : Str). t ++ texts dec fs) fresh))

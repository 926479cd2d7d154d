-- ===== src/Inference/Relay/Failures.antt =====
-- A relayed stream in which the provider raises an exception.
use orbit_api.Common.{
  ◌≡◌, refl, inl, inr, Bool, true, false, List, [], ◌∷◌, arith, Bool-cases, if◌then◌else◌,
}
use orbit_api.Common.Str.{Str, codes, str_eq}
use orbit_api.Common.Branches.{if_either, option_either}
use orbit_api.Inference.EventStream.{Frame}
use orbit_api.Inference.Payload.{Decoder}
use orbit_api.Inference.Relay.{
  StreamSink, Ending, at_eof, canceled, broken, Relay, start, Relayed, finish, end_with,
  event_type_of, received, counted, is_exception, relay_frames, relay_bedrock_stream,
}
use orbit_api.Inference.Relay.Shows.{Shows, relay_step}

either_true : (b : Bool) → (if b then true else true) ≡ true
either_true true = refl
either_true false = refl

-- A stream that is reported as failed, and not as stopped by its client.
abbrev pub Failed : Relayed → Type 0
Failed r = (r.stream_err ≡ true) × (r.cancelled ≡ false)

-- Whether the provider raises an exception in the stream.
unfoldable pub raises : List Frame → Bool
raises [] = false
raises (f ∷ fs) = let rest = raises fs in if is_exception f then true else rest

counted_err :
    (dec : Decoder) (f : Frame) (r : Relay)
    → r.stream_err ≡ true
    → (counted dec f r).stream_err ≡ true
unfolding counted
counted_err dec f r e =
    if_either (λ (x : Relay). x.stream_err ≡ true) (str_eq (event_type_of f) (codes "metadata"))
      (option_either (λ (x : Relay). x.stream_err ≡ true) (dec.usage f.payload) e (λ u. e)) e

module _ {S : Type 0} (dec : Decoder) (sink : StreamSink S) (shown : S → Str)
    (shows : Shows dec sink shown) where
  end_fails :
      (ending : Ending) (r : Relay) (s : S)
      → r.stream_err ≡ true
      → Failed (end_with sink ending r s).0
  unfolding end_with finish
  end_fails at_eof r s failed = (failed, refl)
  end_fails broken r s failed = (refl, refl)
  end_fails canceled r s failed = rw failed (refl, refl)

  -- A failure that was seen is not forgotten.
  failure_kept :
      (fs : List Frame) (ending : Ending) (r : Relay) (s : S)
      → r.stream_err ≡ true
      → Failed (relay_frames dec sink fs ending r s).0
  unfolding relay_frames
  failure_kept [] ending r s failed = end_fails ending r s failed
  failure_kept (f ∷ fs) ending r s failed =
      let s' = (sink.handle_frame (event_type_of f) f.payload s).1 in
      let again : (received dec f r).stream_err ≡ true = rw failed (either_true (is_exception f)) in
      rw (relay_step dec sink shown shows f fs ending r s) (
        failure_kept fs ending (counted dec f (received dec f r)) s'
          (counted_err dec f (received dec f r) again))

  relay_fails :
      (fs : List Frame) (ending : Ending) (r : Relay) (s : S)
      → raises fs ≡ true
      → Failed (relay_frames dec sink fs ending r s).0
  unfolding raises
  relay_fails [] ending r s raised = cc
  relay_fails (f ∷ fs) ending r s raised =
      let s' = (sink.handle_frame (event_type_of f) f.payload s).1 in
      rw (relay_step dec sink shown shows f fs ending r s) (elim (Bool-cases (is_exception f)) [
        | inl here ↦
            let now : (received dec f r).stream_err ≡ true = rw here refl in
            failure_kept fs ending _ s' (counted_err dec f (received dec f r) now)
        | inr not_here ↦ relay_fails fs ending _ s' (ground (arith, raised, not_here))
      ])

-- A stream in which the provider raises an exception is reported as failed, and not as stopped by the
-- client, however it goes on and ends. (The sink takes every event.)
pub relay_bedrock_stream-Failed :
    {S : Type 0} (dec : Decoder) (sink : StreamSink S) (shown : S → Str)
    → Shows dec sink shown
    → (fs : List Frame) (ending : Ending) (s : S) → raises fs ≡ true
    → Failed (relay_bedrock_stream dec sink fs ending s).0
unfolding relay_bedrock_stream
relay_bedrock_stream-Failed dec sink shown shows fs ending s raised =
    relay_fails dec sink shown shows fs ending start s raised

-- ===== src/Inference/Relay/Kept.antt =====
-- An invariant of a sink, through a relayed stream.
use orbit_api.Common.{Bool, true, false, List, [], ◌∷◌}
use orbit_api.Common.Str.{Str}
use orbit_api.Common.Branches.{if_either}
use orbit_api.Common.Result.{Result, ok, err}
use orbit_api.Inference.Bytes.{Bytes}
use orbit_api.Inference.EventStream.{Frame}
use orbit_api.Inference.Payload.{Decoder, WriteError, client_abort, write_failed}
use orbit_api.Inference.Relay.{
  StreamSink, Ending, at_eof, canceled, broken, Relay, Relayed, finish, end_with, event_type_of,
  received, counted, give_up, relay_frames,
}

-- `Good` of a sink that takes events, `Fine` of one that has failed.
abbrev pub Takes :
    {S : Type 0} → (S → Type 0) → (S → Type 0) → Result WriteError (Unit {0}) × S → Type 0
Takes Good Fine (ok u, s) = Good s
Takes Good Fine (err e, s) = Fine s

module _ {S : Type 0} (dec : Decoder) (sink : StreamSink S) (Good Fine Closed : S → Type 0)
    (handles : (t : Str) (p : Bytes) (s : S) → Good s → Takes Good Fine (sink.handle_frame t p s))
    (weakens : (s : S) → Good s → Fine s)
    (closes : (failed : Bool) (s : S) → Fine s → Closed (sink.close failed s).1) where
  end_kept : (ending : Ending) (r : Relay) (s : S) → Fine s → Closed (end_with sink ending r s).1
  unfolding end_with finish
  end_kept at_eof r s fine = closes r.stream_err s fine
  end_kept broken r s fine = closes true s fine
  end_kept canceled r s fine =
      if_either (λ (x : Relayed × S). Closed x.1) r.stream_err (closes true s fine)
        (closes false s fine)

  give_up_kept : (e : WriteError) (r : Relay) (s : S) → Fine s → Closed (give_up sink e r s).1
  unfolding give_up finish
  give_up_kept client_abort r s fine =
      if_either (λ (x : Relayed × S). Closed x.1) r.stream_err (closes true s fine)
        (closes false s fine)
  give_up_kept write_failed r s fine = closes true s fine

  pub relay_kept :
      (fs : List Frame) (ending : Ending) (r : Relay) (s : S)
      → Good s
      → Closed (relay_frames dec sink fs ending r s).1
  unfolding relay_frames
  relay_kept [] ending r s good = end_kept ending r s (weakens s good)
  relay_kept (f ∷ fs) ending r s good =
      on (sink.handle_frame (event_type_of f) f.payload s)
        (λ s' good'. relay_kept fs ending (counted dec f (received dec f r)) s' good')
        (handles (event_type_of f) f.payload s good)
    where
      on :
          (x : Result WriteError (Unit {0}) × S)
          → ((s' : S)
              → Good s'
              → Closed (relay_frames dec sink fs ending (counted dec f (received dec f r)) s').1)
          → Takes Good Fine x
          → Closed
              (let goes : Relayed × S = elim x.0 [
                | err e ↦ give_up sink e (received dec f r) x.1
                | ok u ↦ relay_frames dec sink fs ending (counted dec f (received dec f r)) x.1
              ] in
                goes).1
      on (ok u, s') rest taken = rest s' taken
      on (err e, s') rest failed = give_up_kept e (received dec f r) s' failed

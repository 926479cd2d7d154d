-- ===== src/Inference/Relay/Shows.antt =====
-- What a sink shows, and a relayed stream one frame at a time.
use orbit_api.Common.{◌≡◌, ap, Bool, Option, none, some, List, [], ◌∷◌, ◌++◌}
use orbit_api.Common.Str.{Str}
use orbit_api.Common.Result.{Result, ok, err}
use orbit_api.Inference.Bytes.{Bytes}
use orbit_api.Inference.EventStream.{Frame}
use orbit_api.Inference.Payload.{
  Decoder, BlockDelta, EventKind, kind_of, content_block_delta, WriteError,
}
use orbit_api.Inference.Relay.{
  StreamSink, Ending, Relay, Relayed, event_type_of, frame_text, received, counted, give_up,
  relay_frames,
}

-- The text of a delta as a sink reads it.
abbrev pub delta_of : Option BlockDelta → Str
delta_of none = []
delta_of (some d) = d.text

abbrev pub text_of_kind : Decoder → EventKind → Bytes → Str
text_of_kind dec content_block_delta p = delta_of (dec.block_delta p)
text_of_kind dec k p = []

-- A sink that takes every event, and shows the text of each and nothing else.
pub record Shows {S : Type 0} (dec : Decoder) (sink : StreamSink S) (shown : S → Str) : Type 0 where
  pub takes : (t : Str) (p : Bytes) (s : S) → (sink.handle_frame t p s).0 ≡ ok tt
  pub handles :
      (t : Str) (p : Bytes) (s : S)
      → shown (sink.handle_frame t p s).1 ≡ shown s ++ text_of_kind dec (kind_of t) p
  pub closes : (failed : Bool) (s : S) → shown (sink.close failed s).1 ≡ shown s

-- The relay and the sink read the same text in a frame, although each decodes it into its own struct.
abbrev pub Agrees : Decoder → Frame → Type 0
Agrees dec f = text_of_kind dec (kind_of (event_type_of f)) f.payload ≡ frame_text dec f

-- The answer's text.
unfoldable pub texts : Decoder → List Frame → Str
texts dec [] = []
texts dec (f ∷ fs) = frame_text dec f ++ texts dec fs

module _ {S : Type 0} (dec : Decoder) (sink : StreamSink S) (shown : S → Str)
    (shows : Shows dec sink shown) where
  -- A frame that the sink has taken.
  pub relay_step :
      (f : Frame) (fs : List Frame) (ending : Ending) (r : Relay) (s : S)
      → relay_frames dec sink (f ∷ fs) ending r s
        ≡ relay_frames dec sink fs ending
            (counted dec f (received dec f r))
            (sink.handle_frame (event_type_of f) f.payload s).1
  unfolding relay_frames
  relay_step f fs ending r s =
      let r' = received dec f r in
      let s' = (sink.handle_frame (event_type_of f) f.payload s).1 in
      let goes : Result WriteError (Unit {0}) → Relayed × S = λ went. elim went [
        | err e ↦ give_up sink e r' s'
        | ok u ↦ relay_frames dec sink fs ending (counted dec f r') s'
      ] in
      ap goes (shows.takes (event_type_of f) f.payload s)

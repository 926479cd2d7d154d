-- ===== src/Inference/EventStream/Faults.antt =====
-- internal/services/inference/eventstream.go: what the reader makes of frames that no encoder sends.
use orbit_api.Common.{
  ℕ, zero, suc, ◌-◌, ◌<◌, ◌≤◌, ◌≡◌, ◌≢◌, refl, sym, ap, ◌∙◌, Bool, true, false, ◌||◌, ltb, ◌==◌,
  Option, none, [], ◌∷◌, ◌++◌, length, length-append, arith, if◌then◌else◌, inl, inr, Option-cases,
}
use orbit_api.Common.Str.{Str}
use orbit_api.Common.Result.{Result, ok, err, Result-cases}
use orbit_api.Inference.Bytes.{Bytes, cut, cut-ok, big_endian, be4, big_endian-be4}
use orbit_api.Inference.Crc32.{checksum_ieee}
use orbit_api.Inference.EventStream.{
  ReadError, eof, Reader, Headers, stuck, sized_value, header_value, parse_loop,
  parse_event_stream_headers, set, skip, Frame, FrameError, panicked, truncated_frame, is_eof,
  read_full, read_body, read_checked, read_frame,
}
use orbit_api.Inference.EventStream.Encoding.{read_frame-good, read_checked-good}

-- A stream whose next frame has a good prelude, all of its bytes, and a header block that reaches
-- into its last four bytes or beyond, makes the reader panic: the check of the lengths compares the
-- header block with the whole frame, not with what is left between the prelude and the trailer.
pub read_frame_panics :
    (total headers_len : ℕ) (body rest : Bytes) (ending : ReadError)
    → 16 ≤ total
    → total ≤ 1048576
    → headers_len ≤ total
    → total - 16 < headers_len
    → length body ≡ total - 12
    → (read_frame (record {
      bytes =
          be4 total
          ++ (be4 headers_len ++ be4 (checksum_ieee (be4 total ++ be4 headers_len)))
          ++ (body ++ rest);
      ending = ending;
    })).0
      ≡ err panicked
unfolding read_body
read_frame_panics total headers_len body rest ending least small within reaches long =
    let t = be4 total in
    let n = be4 headers_len in
    let c = be4 (checksum_ieee (t ++ n)) in
    let size = big_endian-be4 total in
    let count = big_endian-be4 headers_len in
    let beyond : ltb (length body - 4) (big_endian n) ≡ true =
      ground (arith, long, count, reaches, least) in
    let panic : read_body (t ++ (n ++ c)) (big_endian n) body ≡ err panicked =
      ground (arith, beyond) in
    ap (λ (x : Result FrameError Frame × Reader). x.0)
      (read_frame-good t n c (body ++ rest) ending refl refl refl
        ∙ read_checked-good (t ++ (n ++ c)) t n c body rest ending
            (sym (big_endian-be4 (checksum_ieee (t ++ n)))) (omega (arith, size, least))
            (omega (arith, size, count, within)) (omega (arith, size, small))
            (omega (arith, size, long)))
    ∙ panic

cut_nothing : (n : ℕ) → 1 ≤ n → cut n [] ≡ none
unfolding cut
cut_nothing zero h = absurd (omega (arith, h))
cut_nothing (suc n) h = refl

read_checked-cut_off :
    (prelude total headers crc : Bytes)
    → checksum_ieee (total ++ headers) ≡ big_endian crc
    → 16 ≤ big_endian total
    → big_endian headers ≤ big_endian total
    → big_endian total ≤ 1048576
    → (read_checked prelude total headers crc (record { bytes = []; ending = eof })).0
      ≡ err (truncated_frame eof)
unfolding read_checked read_full
read_checked-cut_off prelude total headers crc sum least within small =
    let nothing = cut_nothing (big_endian total - 12) (omega (arith, least)) in
    grind (arith, nothing)

-- A stream that breaks off behind a frame's prelude reads as one that ends between two frames: the
-- error, by errors.Is, is io.EOF, for a frame of at least sixteen bytes of which twelve have come.
pub read_frame_cut_off :
    (total headers_len : ℕ)
    → 16 ≤ total
    → total ≤ 1048576
    → headers_len ≤ total
    → let r : Reader = record {
      bytes =
          be4 total
          ++ (be4 headers_len ++ be4 (checksum_ieee (be4 total ++ be4 headers_len)))
          ++ [];
      ending = eof;
    } in
      ((read_frame r).0 ≡ err (truncated_frame eof)) × (is_eof (truncated_frame eof) ≡ true)
unfolding is_eof
read_frame_cut_off total headers_len least small within =
    let t = be4 total in
    let n = be4 headers_len in
    let c = be4 (checksum_ieee (t ++ n)) in
    let size = big_endian-be4 total in
    let count = big_endian-be4 headers_len in
    (
      ap (λ (x : Result FrameError Frame × Reader). x.0)
            (read_frame-good t n c [] eof refl refl refl)
          ∙ read_checked-cut_off (t ++ (n ++ c)) t n c
              (sym (big_endian-be4 (checksum_ieee (t ++ n)))) (omega (arith, size, least))
              (omega (arith, size, count, within)) (omega (arith, size, small)),
      refl,
    )

-- What a value leaves of the block: never more than there was, and never `stuck`.
skip-shorter :
    (n : ℕ) (b : Bytes) {v : Option Str} {rest : Bytes}
    → skip n b ≡ ok (v, rest)
    → length rest ≤ length b
unfolding skip
skip-shorter n b {v} {rest} e = elim (Option-cases (cut n b)) [
  | inl short ↦ ground (arith, e, short)
  | inr ((p, r), there) ↦
      let (same, long) = cut-ok n b there in
      let behind : r ≡ rest = ground (arith, e, there) in
      omega (arith, ap length same, length-append p r, ap length behind)
]

skip_ends : (n : ℕ) (b : Bytes) → skip n b ≢ err stuck
unfolding skip
skip_ends n b e = ground (arith, e)

sized_value-shorter :
    (is_string : Bool) (b : Bytes) {v : Option Str} {rest : Bytes}
    → sized_value is_string b ≡ ok (v, rest)
    → length rest ≤ length b
unfolding sized_value
sized_value-shorter is_string b {v} {rest} e = elim (Option-cases (cut 2 b)) [
  | inl short ↦ ground (arith, e, short)
  | inr ((n, b'), there) ↦ elim (Option-cases (cut (big_endian n) b')) [
    | inl short ↦ ground (arith, e, there, short)
    | inr ((p, r), value) ↦
        let (same, long) = cut-ok 2 b there in
        let (same', long') = cut-ok (big_endian n) b' value in
        let behind : r ≡ rest = ground (arith, e, there, value) in
        omega (
          arith,
          ap length same,
          length-append n b',
          ap length same',
          length-append p r,
          ap length behind,
        )
  ]
]

sized_value_ends : (is_string : Bool) (b : Bytes) → sized_value is_string b ≢ err stuck
unfolding sized_value
sized_value_ends is_string b e = elim (Option-cases (cut 2 b)) [
  | inl short ↦ ground (arith, e, short)
  | inr ((n, b'), there) ↦ ground (arith, e, there)
]

header_value-shorter :
    (t : ℕ) (b : Bytes) {v : Option Str} {rest : Bytes}
    → header_value t b ≡ ok (v, rest)
    → length rest ≤ length b
unfolding header_value
header_value-shorter t b {v} {rest} e = ground (
  arith,
  e,
  skip-shorter 1 b {v = v} {rest = rest},
  skip-shorter 2 b {v = v} {rest = rest},
  skip-shorter 4 b {v = v} {rest = rest},
  skip-shorter 8 b {v = v} {rest = rest},
  skip-shorter 16 b {v = v} {rest = rest},
  sized_value-shorter (t == 7) b {v = v} {rest = rest},
)

either : {A : Type 0} (c : Bool) {x y z : A} → x ≢ z → y ≢ z → (if c then x else y) ≢ z
either true p q = p
either false p q = q

header_value_ends : (t : ℕ) (b : Bytes) → header_value t b ≢ err stuck
unfolding header_value
header_value_ends t b =
    either (t == 0) (λ e. cc)
      (either (t == 1) (λ e. cc)
        (either (t == 2) (skip_ends 1 b) (
          either (t == 3) (skip_ends 2 b) (
            either (t == 4) (skip_ends 4 b) (
              either (t == 5 || t == 8) (skip_ends 8 b) (
                either (t == 9) (skip_ends 16 b)
                  (either (t == 6 || t == 7) (sized_value_ends (t == 7) b) (λ e. cc))))))))

parse_loop_ends :
    (fuel : ℕ) (b : Bytes) (hs : Headers) → length b ≤ fuel → parse_loop fuel b hs ≢ err stuck
unfolding parse_loop
parse_loop_ends fuel [] hs enough e = cc
parse_loop_ends zero (n ∷ b) hs enough e = omega (arith, enough)
parse_loop_ends (suc fuel) (n ∷ b) hs enough e = elim (Option-cases (cut n b)) [
  | inl short ↦ ground (arith, e, short)
  | inr ((name, []), there) ↦ ground (arith, e, there)
  | inr ((name, t ∷ b'), there) ↦
      let (same, long) = cut-ok n b there in
      elim (Result-cases (header_value t b')) [
        | inr (x, failed) ↦
            let stops : x ≡ stuck = ground (arith, e, there, failed) in
            header_value_ends t b' (failed ∙ ap err stops)
        | inl ((v, rest), went) ↦
            let shorter = header_value-shorter t b' went in
            parse_loop_ends fuel rest (set name v hs)
              (omega (arith, enough, ap length same, length-append name (t ∷ b'), shorter))
              (ground (arith, e, there, went))
      ]
]

-- The loop over a header block ends: whatever the bytes, the fuel that counts them is enough.
pub parse_event_stream_headers_ends : (b : Bytes) → parse_event_stream_headers b ≢ err stuck
unfolding parse_event_stream_headers
parse_event_stream_headers_ends b = parse_loop_ends (length b) b [] (omega arith)

-- ===== src/Inference/EventStream/Encoding.antt =====
-- An encoder of frames, as the comment in internal/services/inference/eventstream.go lays them out,
-- and what the reader makes of its frames.
use mathlib.Core.List.{append_assoc}
use orbit_api.Common.{
  ℕ, zero, suc, ◌+◌, ◌-◌, ◌/◌, ◌%◌, ◌≤◌, ◌≡◌, refl, sym, ap, ◌∙◌, false, ltb, some, [], ◌∷◌, ◌++◌,
  length, length-append, arith,
}
use orbit_api.Common.Str.{Str}
use orbit_api.Common.Dict.{put}
use orbit_api.Common.Result.{Result, ok}
use orbit_api.Inference.Bytes.{
  Bytes, cut, cut-append, big_endian, be2, be4, big_endian-be2, big_endian-be4,
}
use orbit_api.Inference.Crc32.{checksum_ieee}
use orbit_api.Inference.EventStream.{
  ReadError, read_full, Headers, sized_value, header_value, parse_loop, parse_event_stream_headers,
  Frame, FrameError, read_body, read_checked, read_frame,
}

-- One string header: its name behind a byte that counts it, the type 7, and its value behind two.
abbrev pub encode_header : Str → Str → Bytes
encode_header name value = length name ∷ name ++ 7 ∷ be2 (length value) ++ value

unfoldable pub encode_headers : Headers → Bytes
encode_headers [] = []
encode_headers ((name, value) ∷ hs) = encode_header name value ++ encode_headers hs

abbrev pub lengths : Headers → Bytes → Bytes
lengths hs payload =
    be4 (16 + length (encode_headers hs) + length payload) ++ be4 (length (encode_headers hs))

abbrev pub prelude_of : Headers → Bytes → Bytes
prelude_of hs payload = lengths hs payload ++ be4 (checksum_ieee (lengths hs payload))

abbrev pub message : Headers → Bytes → Bytes
message hs payload = prelude_of hs payload ++ encode_headers hs ++ payload

unfoldable pub encode_frame : Headers → Bytes → Bytes
encode_frame hs payload = message hs payload ++ be4 (checksum_ieee (message hs payload))

-- The map of a list of headers, where a later one replaces an earlier one of its name.
unfoldable pub put_all : Headers → Headers → Headers
put_all [] acc = acc
put_all ((name, value) ∷ hs) acc = put_all hs (put name value acc)

string_value :
    (value rest : Bytes)
    → header_value 7 (be2 (length value) ++ (value ++ rest)) ≡ ok (some value, rest)
unfolding header_value sized_value
string_value value rest =
    let two : cut 2 (length value / 256 ∷ length value % 256 ∷ (value ++ rest))
        ≡ some (be2 (length value), value ++ rest) =
      cut-append (be2 (length value)) (value ++ rest) in
    grind (arith, two, big_endian-be2 (length value), cut-append value rest)

-- The bytes of a header and those behind it, in the order in which they are read.
reading_order :
    (name value rest : Bytes)
    → name ++ 7 ∷ be2 (length value) ++ value ++ rest
      ≡ name ++ (7 ∷ be2 (length value) ++ (value ++ rest))
reading_order name value rest =
    append_assoc (name ++ 7 ∷ be2 (length value)) value rest
    ∙ append_assoc name (7 ∷ be2 (length value)) (value ++ rest)

parse_one :
    (fuel : ℕ) (name value rest : Bytes) (acc : Headers)
    → parse_loop (suc fuel) (encode_header name value ++ rest) acc
      ≡ parse_loop fuel rest (put name value acc)
unfolding parse_loop
parse_one fuel name value rest acc = grind (
  arith,
  reading_order name value rest,
  cut-append name (7 ∷ be2 (length value) ++ (value ++ rest)),
  string_value value rest,
)

parse_none : (fuel : ℕ) (acc : Headers) → parse_loop fuel [] acc ≡ ok acc
unfolding parse_loop
parse_none fuel acc = refl

parse_loop-encode :
    (fuel : ℕ) (hs acc : Headers)
    → length (encode_headers hs) ≤ fuel
    → parse_loop fuel (encode_headers hs) acc ≡ ok (put_all hs acc)
unfolding encode_headers put_all
parse_loop-encode zero [] acc enough = parse_none zero acc
parse_loop-encode (suc fuel) [] acc enough = parse_none (suc fuel) acc
parse_loop-encode zero ((name, value) ∷ hs) acc enough = absurd (omega (arith, enough))
parse_loop-encode (suc fuel) ((name, value) ∷ hs) acc enough =
    parse_one fuel name value (encode_headers hs) acc
    ∙ parse_loop-encode fuel hs (put name value acc)
        (omega (arith, enough, length-append (encode_header name value) (encode_headers hs)))

read_full-append :
    (n : ℕ) (p rest : Bytes) (ending : ReadError)
    → length p ≡ n
    → read_full n (record { bytes = p ++ rest; ending = ending })
      ≡ (ok p, record { bytes = rest; ending = ending })
unfolding read_full
read_full-append n p rest ending long = rw (sym long) (grind (arith, cut-append p rest))

read_body-good :
    (prelude h payload trailer : Bytes) (hs : Headers)
    → length trailer ≡ 4
    → checksum_ieee (prelude ++ h ++ payload) ≡ big_endian trailer
    → parse_event_stream_headers h ≡ ok hs
    → read_body prelude (length h) (h ++ (payload ++ trailer))
      ≡ ok (record { headers = hs; payload = payload })
unfolding read_body
read_body-good prelude h payload trailer hs four sum parsed =
    let rest = h ++ (payload ++ trailer) in
    let long : length rest ≡ length h + length payload + 4 =
      omega (arith, four, length-append h (payload ++ trailer), length-append payload trailer) in
    let middle : length rest - 4 - length h ≡ length payload = omega (arith, long) in
    let second : cut (length rest - 4 - length h) (payload ++ trailer) ≡ some (payload, trailer) =
      ap (λ (n : ℕ). cut n (payload ++ trailer)) middle ∙ cut-append payload trailer in
    let room : ltb (length rest - 4) (length h) ≡ false = ground (arith, long) in
    let first = cut-append h (payload ++ trailer) in grind (arith, room, first, second, sum, parsed)

pub read_checked-good :
    (prelude total headers crc body rest : Bytes) (ending : ReadError)
    → checksum_ieee (total ++ headers) ≡ big_endian crc
    → 16 ≤ big_endian total
    → big_endian headers ≤ big_endian total
    → big_endian total ≤ 1048576
    → length body ≡ big_endian total - 12
    → read_checked prelude total headers crc (record { bytes = body ++ rest; ending = ending })
      ≡ (read_body prelude (big_endian headers) body, record { bytes = rest; ending = ending })
unfolding read_checked
read_checked-good prelude total headers crc body rest ending sum least within small long =
    let got = read_full-append (big_endian total - 12) body rest ending long in grind (arith, got)

pub read_frame-good :
    (total headers crc tail : Bytes) (ending : ReadError)
    → length total ≡ 4
    → length headers ≡ 4
    → length crc ≡ 4
    → read_frame (record { bytes = total ++ (headers ++ crc) ++ tail; ending = ending })
      ≡ read_checked
          (total ++ (headers ++ crc))
          total
          headers
          crc
          (record { bytes = tail; ending = ending })
unfolding read_frame
read_frame-good total headers crc tail ending a b c =
    let long : length (total ++ (headers ++ crc)) ≡ 12 =
      omega (arith, a, b, c, length-append total (headers ++ crc), length-append headers crc) in
    let got = read_full-append 12 (total ++ (headers ++ crc)) tail ending long in
    let one : cut 4 (total ++ (headers ++ crc)) ≡ some (total, headers ++ crc) =
      ap (λ (n : ℕ). cut n (total ++ (headers ++ crc))) (sym a)
      ∙ cut-append total (headers ++ crc) in
    let two : cut 4 (headers ++ crc) ≡ some (headers, crc) =
      ap (λ (n : ℕ). cut n (headers ++ crc)) (sym b) ∙ cut-append headers crc in
    grind (arith, got, one, two)

-- A frame and what follows it, in the order in which they are read.
frame_order : (p h y c r : Bytes) → p ++ h ++ y ++ c ++ r ≡ p ++ (h ++ (y ++ c) ++ r)
frame_order p h y c r =
    ap (λ (x : Bytes). x ++ r) (append_assoc (p ++ h) y c ∙ append_assoc p h (y ++ c))
    ∙ append_assoc p (h ++ (y ++ c)) r

-- Whatever follows it in the stream, an encoded frame of at most a mebibyte is read back: its payload
-- as it was, its headers as the map that they make, and what follows is left to be read.
pub read_frame-encode_frame :
    (hs : Headers) (payload rest : Bytes) (ending : ReadError)
    → 16 + length (encode_headers hs) + length payload ≤ 1048576
    → read_frame (record { bytes = encode_frame hs payload ++ rest; ending = ending }) ≡ (
      ok (record { headers = put_all hs []; payload = payload }),
      record { bytes = rest; ending = ending },
    )
unfolding encode_frame parse_event_stream_headers
read_frame-encode_frame hs payload rest ending small =
    let h = encode_headers hs in
    let t = be4 (16 + length h + length payload) in
    let n = be4 (length h) in
    let c = be4 (checksum_ieee (t ++ n)) in
    let trailer = be4 (checksum_ieee (message hs payload)) in
    let body = h ++ (payload ++ trailer) in
    let total = big_endian-be4 (16 + length h + length payload) in
    let count = big_endian-be4 (length h) in
    let long : length body ≡ length h + length payload + 4 =
      omega (arith, length-append h (payload ++ trailer), length-append payload trailer) in
    ap (λ (b : Bytes). read_frame (record { bytes = b; ending = ending }))
      (frame_order (prelude_of hs payload) h payload trailer rest)
    ∙ read_frame-good t n c (body ++ rest) ending refl refl refl
    ∙ read_checked-good (t ++ (n ++ c)) t n c body rest ending
        (sym (big_endian-be4 (checksum_ieee (t ++ n)))) (omega (arith, total))
        (omega (arith, total, count)) (omega (arith, total, small)) (omega (arith, total, long))
    ∙ ap (λ (x : Result FrameError Frame). (x, record { bytes = rest; ending = ending }))
        (ap (λ (k : ℕ). read_body (t ++ (n ++ c)) k body) count
          ∙ read_body-good (t ++ (n ++ c)) h payload trailer (put_all hs []) refl
              (sym (big_endian-be4 (checksum_ieee (message hs payload))))
              (parse_loop-encode (length h) hs [] (omega arith)))

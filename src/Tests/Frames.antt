-- ===== src/Tests/Frames.antt =====
-- Frames of the event stream.
use orbit_api.Common.{◌≡◌, ◌≢◌, ◌+◌, refl, true, [], ◌∷◌, ◌++◌, length, arith, ◌≤◌, ◌<◌, ◌*◌}
use orbit_api.Common.Str.{codes}
use orbit_api.Common.Result.{ok, err}
use orbit_api.Inference.Bytes.{Bytes, be4}
use orbit_api.Inference.Crc32.{checksum_ieee, bits, of_bits, xor_bits, crc_bit, crc_bits, crc_bytes}
use orbit_api.Inference.EventStream.{
  eof, Reader, Headers, stuck, panicked, truncated_frame, is_eof, parse_event_stream_headers,
  read_frame,
}
use orbit_api.Inference.EventStream.Encoding.{
  encode_headers, encode_frame, put_all, read_frame-encode_frame,
}
use orbit_api.Inference.Tokens.{estimate_tokens, estimate_input_tokens}
use orbit_api.Inference.Tokens.Buffer.{estimates_cover}
use orbit_api.Inference.EventStream.Faults.{
  read_frame_panics, read_frame_cut_off, parse_event_stream_headers_ends,
}

-- The check value of this checksum.
check_value : checksum_ieee (codes "123456789") ≡ 3421780262
unfolding checksum_ieee bits of_bits xor_bits crc_bit crc_bits crc_bytes
check_value = refl

abbrev message_start : Headers
message_start =
    (codes ":event-type", codes "messageStart") ∷ (codes ":message-type", codes "event") ∷ []

abbrev role : Bytes
role = codes "{\"role\":\"assistant\"}"

fits : 16 + length (encode_headers message_start) + length role ≤ 1048576
unfolding encode_headers
fits = omega arith

read_frame-encode_frame_example :
    read_frame (record { bytes = encode_frame message_start role ++ []; ending = eof }) ≡ (
      ok (record { headers = put_all message_start []; payload = role }),
      record { bytes = []; ending = eof },
    )
read_frame-encode_frame_example = read_frame-encode_frame message_start role [] eof fits

-- Sixteen bytes in all, of which the header block claims sixteen.
read_frame_panics_example :
    (read_frame (record {
      bytes =
          be4 16
          ++ (be4 16 ++ be4 (checksum_ieee (be4 16 ++ be4 16)))
          ++ ((0 ∷ 0 ∷ 0 ∷ 0 ∷ []) ++ []);
      ending = eof;
    })).0
    ≡ err panicked
read_frame_panics_example =
    read_frame_panics 16 16 (0 ∷ 0 ∷ 0 ∷ 0 ∷ []) [] eof (omega arith) (omega arith) (omega arith)
      (omega arith) refl

abbrev cut_stream : Reader
cut_stream = record {
  bytes = be4 100 ++ (be4 40 ++ be4 (checksum_ieee (be4 100 ++ be4 40))) ++ [];
  ending = eof;
}

read_frame_cut_off_example :
    ((read_frame cut_stream).0 ≡ err (truncated_frame eof)) × (is_eof (truncated_frame eof) ≡ true)
read_frame_cut_off_example = read_frame_cut_off 100 40 (omega arith) (omega arith) (omega arith)

parse_event_stream_headers_ends_example :
    parse_event_stream_headers (1 ∷ 97 ∷ 7 ∷ 0 ∷ 9 ∷ []) ≢ err stuck
parse_event_stream_headers_ends_example = parse_event_stream_headers_ends (1 ∷ 97 ∷ 7 ∷ 0 ∷ 9 ∷ [])

estimates_cover_example :
    (2 ≤ 4 * estimate_tokens (codes "hi"))
    × (4 * estimate_tokens (codes "hi") ≤ 2 + 3)
    × (estimate_tokens (codes "hi") ≤ estimate_input_tokens (codes "hi"))
    × (5 * estimate_input_tokens (codes "hi") ≤ 6 * estimate_tokens (codes "hi"))
    × (6 * estimate_tokens (codes "hi") < 5 * estimate_input_tokens (codes "hi") + 5)
    × (estimate_tokens (codes "hi") ≤ estimate_tokens (codes "hi there"))
    × (estimate_input_tokens (codes "hi") ≤ estimate_input_tokens (codes "hi there"))
estimates_cover_example = estimates_cover (codes "hi") (codes " there")

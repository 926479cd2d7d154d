-- ===== src/Inference/EventStream.antt =====
-- internal/services/inference/eventstream.go: the frames of AWS's binary event stream.
pub mod Encoding
pub mod Faults
use orbit_api.Common.{
  ℕ, zero, suc, ◌+◌, ◌-◌, ◌*◌, ◌==◌, ltb, Bool, true, false, Option, none, some, List, [], ◌∷◌,
  ◌++◌, ◌&&◌, ◌||◌, not, length, if◌then◌else◌,
}
use orbit_api.Common.Str.{Str, codes, str_eq, is_empty}
use orbit_api.Common.Dict.{Dict, put}
use orbit_api.Common.Result.{Result, ok, err}
use orbit_api.Inference.Bytes.{Bytes, cut, big_endian}
use orbit_api.Inference.Crc32.{checksum_ieee}

-- How a read fails: io.EOF, io.ErrUnexpectedEOF, context.Canceled and others.
pub data ReadError : Type 0 where
  eof unexpected_eof canceled broken : ReadError

-- What a reader has left to give, and what it answers after that.
pub record Reader : Type 0 where
  pub bytes : Bytes
  pub ending : ReadError

-- io.ReadFull, where there are fewer bytes than asked for.
abbrev pub short_read : Reader → ReadError
short_read r = elim r.ending [
  | eof ↦ if is_empty r.bytes then eof else unexpected_eof
  | unexpected_eof ↦ unexpected_eof
  | canceled ↦ canceled
  | broken ↦ broken
]

unfoldable pub read_full : ℕ → Reader → Result ReadError Bytes × Reader
read_full n r = elim (cut n r.bytes) [
  | none ↦ (err (short_read r), record r { bytes = [] })
  | some (p, rest) ↦ (ok p, record r { bytes = rest })
]

-- The errors of a header block. `stuck` is the loop's fuel, which is always enough.
pub data HeaderError : Type 0 where
  truncated_name truncated_value truncated_length unknown_type stuck : HeaderError

-- The map of the headers.
abbrev pub Headers : Type 0
Headers = Dict

-- A value of `n` bytes that is skipped.
unfoldable pub skip : ℕ → Bytes → Result HeaderError (Option Str × Bytes)
skip n b = elim (cut n b) [ none ↦ err truncated_value | some (p, r) ↦ ok (none, r) ]

-- A value behind its length, kept if it is a string.
unfoldable pub sized_value : Bool → Bytes → Result HeaderError (Option Str × Bytes)
sized_value is_string b = elim (cut 2 b) [
  | none ↦ err truncated_length
  | some (n, b') ↦ elim (cut (big_endian n) b') [
    | none ↦ err truncated_value
    | some (v, r) ↦ ok (if is_string then some v else none, r)
  ]
]

-- The switch on the value's type: what it sets, and the bytes behind it.
unfoldable pub header_value : ℕ → Bytes → Result HeaderError (Option Str × Bytes)
header_value t b =
    if t == 0
    then ok (some (codes "true"), b)
    else if t == 1
    then ok (some (codes "false"), b)
    else if t == 2
    then skip 1 b
    else if t == 3
    then skip 2 b
    else if t == 4
    then skip 4 b
    else if t == 5 || t == 8
    then skip 8 b
    else if t == 9
    then skip 16 b
    else if t == 6 || t == 7
    then sized_value (t == 7) b
    else err unknown_type

abbrev pub set : Str → Option Str → Headers → Headers
set name none hs = hs
set name (some v) hs = put name v hs

-- The loop of parseEventStreamHeaders, on fuel.
unfoldable pub parse_loop : ℕ → Bytes → Headers → Result HeaderError Headers
parse_loop fuel [] hs = ok hs
parse_loop zero (n ∷ b) hs = err stuck
parse_loop (suc fuel) (n ∷ b) hs = elim (cut n b) [
  | none ↦ err truncated_name
  | some (name, []) ↦ err truncated_name
  | some (name, t ∷ b') ↦ elim (header_value t b') [
    | err e ↦ err e
    | ok (v, rest) ↦ parse_loop fuel rest (set name v hs)
  ]
]

unfoldable pub parse_event_stream_headers : Bytes → Result HeaderError Headers
parse_event_stream_headers b = parse_loop (length b) b []

pub record Frame : Type 0 where
  pub headers : Headers
  pub payload : Bytes

pub data FrameError : Type 0 where
  truncated_prelude : FrameError
  reading : ReadError → FrameError
  crc_mismatch invalid_lengths too_long : FrameError
  truncated_frame : ReadError → FrameError
  bad_headers : HeaderError → FrameError
  -- A run-time panic, "slice bounds out of range".
  panicked : FrameError

-- errors.Is(err, io.EOF), which sees through the wrapping of `truncated_frame`.
unfoldable pub is_eof : FrameError → Bool
is_eof (reading eof) = true
is_eof (truncated_frame eof) = true
is_eof e = false

-- From `headerBytes := rest[:headersLen]` on.
unfoldable pub read_body : Bytes → ℕ → Bytes → Result FrameError Frame
read_body prelude headers_len rest =
    if ltb (length rest - 4) headers_len then err panicked else elim (cut headers_len rest) [
      | none ↦ err panicked
      | some (header_bytes, behind) ↦ elim (cut (length rest - 4 - headers_len) behind) [
        | none ↦ err panicked
        | some (payload, trailer) ↦
            if not (checksum_ieee (prelude ++ header_bytes ++ payload) == big_endian trailer)
            then err crc_mismatch
            else elim (parse_event_stream_headers header_bytes) [
              | err e ↦ err (bad_headers e)
              | ok hs ↦ ok (record { headers = hs; payload = payload })
            ]
      ]
    ]

-- From the check of the prelude on.
unfoldable pub read_checked :
    Bytes → Bytes → Bytes → Bytes → Reader → Result FrameError Frame × Reader
read_checked prelude total headers crc r =
    let total_len = big_endian total in
    let headers_len = big_endian headers in
    if not (checksum_ieee (total ++ headers) == big_endian crc)
    then (err crc_mismatch, r)
    else if ltb total_len 16 || ltb total_len headers_len
    then (err invalid_lengths, r)
    else if ltb 1048576 total_len
    then (err too_long, r)
    else let (got, r') = read_full (total_len - 12) r in
      (
        elim got [ err e ↦ err (truncated_frame e) | ok rest ↦ read_body prelude headers_len rest ],
        r',
      )

-- readAWSEventStreamFrame
unfoldable pub read_frame : Reader → Result FrameError Frame × Reader
read_frame r =
    let (got, r') = read_full 12 r in
    elim got [
      | err unexpected_eof ↦ (err truncated_prelude, r')
      | err e ↦ (err (reading e), r')
      | ok prelude ↦ elim (cut 4 prelude) [
        | none ↦ (err panicked, r')
        | some (total, p) ↦ elim (cut 4 p) [
          | none ↦ (err panicked, r')
          | some (headers, crc) ↦ read_checked prelude total headers crc r'
        ]
      ]
    ]

-- ===== src/Wire/Frame.antt =====
-- The stream-frame envelope of crates/asp-protocol/src/lib.rs: magic, encoding, original length,
-- body. The zlib codec (crate flate2) is the parameter `Zlib`.
pub mod RoundTrip
pub mod Bounds
pub mod Stream
use asp.Base.{
  ℕ, ◌+◌, ◌≤◌, min, ◌≡◌, Bool, true, false, not, ◌&&◌, ◌||◌, Option, none, some, List, [], ◌∷◌,
  ◌++◌, length, get_or, take, drop, slice, ltb, leb, ◌==◌, bytes_eq, if◌then◌else◌, u32_max,
  to_be_bytes, from_be_bytes, Result, ok, err, ◌>>=◌, ◌>>◌, bail_if, ok_or,
}
use asp.Wire.Version.{protocol_version, legacy_protocol_version}
use asp.Wire.Sampling.{should_attempt_frame_compression}

-- What the code relies on of flate2. `deflate p` is the whole output of a `ZlibEncoder` that was
-- given `p`; `inflate limit c` is what `take(limit)` of a `ZlibDecoder` over `c` reads to its end.
pub record Zlib : Type 0 where
  pub deflate : List ℕ → Option (List ℕ)
  pub inflate : ℕ → List ℕ → Option (List ℕ)
  -- the decoder restores what the encoder was given, cut at the limit
  pub inflate-deflate :
      (p c : List ℕ) (limit : ℕ) → deflate p ≡ some c → inflate limit c ≡ some (take limit p)
  -- a zlib stream has a header of two bytes
  pub length-deflate : (p c : List ℕ) → deflate p ≡ some c → 2 ≤ length c
  -- `Read::take`
  pub length-inflate : (limit : ℕ) (c d : List ℕ) → inflate limit c ≡ some d → length d ≤ limit

pub data FrameError : Type 0 where
  too_large too_short bad_marker unknown_encoding : FrameError
  length_mismatch empty_body codec_failed unsupported_version : FrameError

abbrev pub max_frame_bytes : ℕ
max_frame_bytes = 134217728

abbrev pub frame_header_bytes : ℕ
frame_header_bytes = 7

abbrev pub max_wire_frame_bytes : ℕ
max_wire_frame_bytes = 134217735

abbrev pub frame_magic : List ℕ
frame_magic = b'A' ∷ b'F' ∷ []

abbrev pub frame_encoding_plain : ℕ
frame_encoding_plain = 0

abbrev pub frame_encoding_zlib : ℕ
frame_encoding_zlib = 1

-- the seven header bytes, then the body
abbrev pub framed : ℕ → ℕ → List ℕ → List ℕ
framed encoding original_len body =
    frame_magic ++ ((encoding ∷ []) ++ (to_be_bytes original_len ++ body))

-- u32::try_from(n)
abbrev pub u32_try_from : ℕ → Result FrameError ℕ
u32_try_from n = if leb n u32_max then ok n else err too_large

module _ (z : Zlib) where
  -- the branch that tries the codec, and falls back to the plain representation
  unfoldable pub encode_compressed : List ℕ → ℕ → Result FrameError (List ℕ)
  encode_compressed payload original_len = do
    compressed ← ok_or (z.deflate payload) codec_failed
    if ltb (length compressed) (length payload)
          && leb (length (framed frame_encoding_zlib original_len compressed)) max_wire_frame_bytes
        then ok (framed frame_encoding_zlib original_len compressed)
        else ok (framed frame_encoding_plain original_len payload)

  unfoldable pub encode_frame_payload : List ℕ → Result FrameError (List ℕ)
  encode_frame_payload payload = do
    bail_if (ltb max_frame_bytes (length payload)) too_large
    original_len ← u32_try_from (length payload)
    if should_attempt_frame_compression payload
        then encode_compressed payload original_len
        else ok (framed frame_encoding_plain original_len payload)

  unfoldable pub decode_plain : List ℕ → ℕ → Result FrameError (List ℕ)
  decode_plain body original_len =
      if not (length body == original_len) then err length_mismatch else ok body

  unfoldable pub decode_zlib : List ℕ → ℕ → Result FrameError (List ℕ)
  decode_zlib body original_len = do
    bail_if (length body == 0) empty_body
    decoded ← ok_or (z.inflate (original_len + 1) body) codec_failed
    if not (length decoded == original_len) then err length_mismatch else ok decoded

  unfoldable pub decode_frame_payload : List ℕ → Result FrameError (List ℕ)
  unfolding decode_plain decode_zlib
  decode_frame_payload payload = do
    bail_if (ltb (length payload) frame_header_bytes) too_short
    bail_if (not (bytes_eq (take 2 payload) frame_magic)) bad_marker
    let encoding = get_or payload 2 0
    original_len ← ok_or (from_be_bytes (slice payload 3 7)) too_short
    bail_if (ltb max_frame_bytes original_len) too_large
    let body = drop frame_header_bytes payload
    if encoding == frame_encoding_plain
        then decode_plain body original_len
        else if encoding == frame_encoding_zlib
        then decode_zlib body original_len
        else err unknown_encoding

  unfoldable pub encode_frame_payload_for_version : List ℕ → ℕ → Result FrameError (List ℕ)
  encode_frame_payload_for_version payload version =
      if version == legacy_protocol_version
      then (if ltb max_frame_bytes (length payload) then err too_large else ok payload)
      else if version == protocol_version
      then encode_frame_payload payload
      else err unsupported_version

  unfoldable pub decode_frame_payload_for_version : List ℕ → ℕ → Result FrameError (List ℕ)
  decode_frame_payload_for_version payload version =
      if version == legacy_protocol_version
      then (if ltb max_frame_bytes (length payload) then err too_large else ok payload)
      else if version == protocol_version
      then decode_frame_payload payload
      else err unsupported_version

-- The advertised length, read before the body.
unfoldable pub frame_decoded_len : List ℕ → Result FrameError ℕ
frame_decoded_len payload_header = do
  bail_if (ltb (length payload_header) frame_header_bytes) too_short
  bail_if (not (bytes_eq (take 2 payload_header) frame_magic)) bad_marker
  let encoding = get_or payload_header 2 0
  bail_if (not (encoding == frame_encoding_plain || encoding == frame_encoding_zlib))
      unknown_encoding
  original_len ← ok_or (from_be_bytes (slice payload_header 3 7)) too_short
  bail_if (ltb max_frame_bytes original_len) too_large
  ok original_len

-- The longest payload that `read_frame_payload_for_version` admits.
unfoldable pub maximum_for_version : ℕ → ℕ
maximum_for_version version =
    if version == legacy_protocol_version then max_frame_bytes else max_wire_frame_bytes

-- ===== src/Wire/Frame/Bounds.antt =====
-- What a receiver may rely on, whatever bytes a peer sends.
use asp.Base.{ℕ, ◌≤◌, ◌≡◌, true, false, List, length, arith, ok, err}
use asp.Wire.Version.{protocol_version_supported}
use asp.Wire.Frame.{
  Zlib, unsupported_version, max_frame_bytes, decode_frame_payload, decode_plain, decode_zlib,
  frame_decoded_len, encode_frame_payload_for_version, decode_frame_payload_for_version,
}

module _ (z : Zlib) where
  length-decode_plain : (body p : List ℕ) (n : ℕ) → decode_plain z body n ≡ ok p → length p ≡ n
  unfolding decode_plain
  length-decode_plain body p n h = ground arith

  length-decode_zlib : (body p : List ℕ) (n : ℕ) → decode_zlib z body n ≡ ok p → length p ≡ n
  unfolding decode_zlib
  length-decode_zlib body p n h = ground arith

  -- The length that `frame_decoded_len` advertises is the length that decoding produces.
  pub frame_decoded_len-decode :
      (f p : List ℕ) → decode_frame_payload z f ≡ ok p → frame_decoded_len f ≡ ok (length p)
  unfolding decode_frame_payload frame_decoded_len
  frame_decoded_len-decode f p h = ground arith

  -- A decoded message never exceeds 128 MiB.
  pub decode_frame_payload-le :
      (f p : List ℕ) → decode_frame_payload z f ≡ ok p → length p ≤ max_frame_bytes
  unfolding frame_decoded_len
  decode_frame_payload-le f p h = ground (arith, frame_decoded_len-decode f p h)

  -- Whatever bytes arrive and whatever version is asked for, a message that is decoded has a
  -- supported version and at most 128 MiB.
  pub decode_bounded :
      (f p : List ℕ) (version : ℕ)
      → decode_frame_payload_for_version z f version ≡ ok p
      → (protocol_version_supported version ≡ true) × (length p ≤ max_frame_bytes)
  unfolding decode_frame_payload_for_version protocol_version_supported
  decode_bounded f p version h = ground (arith, decode_frame_payload-le f p)

  -- At a version outside the supported list neither direction guesses a shape.
  pub version_fails_closed :
      (p : List ℕ) (version : ℕ)
      → protocol_version_supported version ≡ false
      → (encode_frame_payload_for_version z p version ≡ err unsupported_version)
        × (decode_frame_payload_for_version z p version ≡ err unsupported_version)
  unfolding encode_frame_payload_for_version decode_frame_payload_for_version
      protocol_version_supported
  version_fails_closed p version h = ground arith

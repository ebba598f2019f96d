-- ===== src/Wire/Frame/Stream.antt =====
-- `write_frame_for_version` and `read_frame_for_version` of crates/asp-protocol/src/lib.rs over the
-- bytes of one QUIC stream. Postcard is the parameter `Codec`; the stream is the list of the bytes
-- that the peer sent and the reader has not taken.
use asp.Base.{
  ℕ, ◌≤◌, ◌<◌, ◌≡◌, ◌⊎◌, Bool-cases, inl, inr, Option, some, none, List, [], ◌∷◌, ◌++◌, length,
  take, drop, ltb, if◌then◌else◌, arith, u32_max, to_be_bytes, from_be_bytes,
  from_be_bytes-to_be_bytes, take-append_left, drop-append_left, length-append, Result, ok, err,
  ◌>>=◌, ◌>>◌, bail_if, ok_or, ok_chain,
}
use asp.Wire.Frame.{
  Zlib, FrameError, maximum_for_version, u32_try_from, encode_frame_payload_for_version,
  decode_frame_payload_for_version,
}
use asp.Wire.Frame.RoundTrip.{decode-encode_for_version}

pub data StreamError : Type 0 where
  frame : FrameError → StreamError
  finished_early wire_too_large postcard_failed : StreamError

-- Postcard, at the message type `T`.
pub record Codec (T : Type 0) : Type 0 where
  pub encode_message : T → Option (List ℕ)
  pub decode_message : List ℕ → Option T
  pub decode-encode :
      (value : T) (bytes : List ℕ)
      → encode_message value ≡ some bytes
      → decode_message bytes ≡ some value

abbrev lift_frame : {A : Type 0} → Result FrameError A → Result StreamError A
lift_frame (ok a) = ok a
lift_frame (err e) = err (frame e)

-- recv.read_exact(&mut buffer of n bytes): the bytes and the rest of the stream
unfoldable pub read_exact : ℕ → List ℕ → Result StreamError (List ℕ × List ℕ)
read_exact n recv =
    if ltb (length recv) n then err finished_early else ok (take n recv, drop n recv)

-- A stream that ends before the first length byte is a clean end.
unfoldable pub read_frame_payload_for_version :
    List ℕ → ℕ → Result StreamError (Option (List ℕ × List ℕ))
unfolding read_exact
read_frame_payload_for_version [] version = ok none
read_frame_payload_for_version recv version = do
  (len, rest) ← read_exact 4 recv
  n ← ok_or (from_be_bytes len) finished_early
  bail_if (ltb (maximum_for_version version) n) wire_too_large
  (payload, rest') ← read_exact n rest
  ok (some (payload, rest'))

module _ (z : Zlib) {T : Type 0} (postcard : Codec T) where
  -- The bytes that are written to the send stream.
  unfoldable pub write_frame_for_version : T → ℕ → Result StreamError (List ℕ)
  write_frame_for_version value version = do
    bytes ← ok_or (postcard.encode_message value) postcard_failed
    payload ← lift_frame (encode_frame_payload_for_version z bytes version)
    len ← lift_frame (u32_try_from (length payload))
    ok (to_be_bytes len ++ payload)

  unfoldable pub decode_payload : List ℕ → ℕ → Result StreamError T
  decode_payload payload version = do
    decoded ← lift_frame (decode_frame_payload_for_version z payload version)
    ok_or (postcard.decode_message decoded) postcard_failed

  unfoldable pub after_payload :
      Option (List ℕ × List ℕ) → ℕ → Result StreamError (Option (T × List ℕ))
  after_payload none version = ok none
  after_payload (some (payload, rest)) version = do
    value ← decode_payload payload version
    ok (some (value, rest))

  unfoldable pub read_frame_for_version : List ℕ → ℕ → Result StreamError (Option (T × List ℕ))
  read_frame_for_version recv version = do
    payload ← read_frame_payload_for_version recv version
    after_payload payload version

read_frame_payload-append :
    (payload rest : List ℕ) (version : ℕ)
    → length payload ≤ maximum_for_version version
    → length payload ≤ u32_max
    → read_frame_payload_for_version ((to_be_bytes (length payload) ++ payload) ++ rest) version
      ≡ ok (some (payload, rest))
unfolding read_frame_payload_for_version
read_frame_payload-append payload rest version fits small = ground (
  arith,
  from_be_bytes-to_be_bytes (length payload) small,
  length-append payload rest,
  take-append_left payload rest,
  drop-append_left payload rest,
)

module _ (z : Zlib) {T : Type 0} (postcard : Codec T) where
  -- A frame that was written is read back, and what follows it on the stream is left there.
  pub read-write_frame :
      (value : T) (version : ℕ) (sent rest : List ℕ)
      → write_frame_for_version z postcard value version ≡ ok sent
      → read_frame_for_version z postcard (sent ++ rest) version ≡ ok (some (value, rest))
  unfolding write_frame_for_version read_frame_for_version after_payload decode_payload
  read-write_frame value version sent rest h =
      let (bytes, he, h1) = ok_chain (ok_or (postcard.encode_message value) postcard_failed) _ h in
      let (payload, hp, h2) =
        ok_chain (lift_frame (encode_frame_payload_for_version z bytes version)) _ h1 in
      let plain : encode_frame_payload_for_version z bytes version ≡ ok payload = ground arith in
      let (decoded, fits) = decode-encode_for_version z bytes payload version plain in
      let small : length payload ≤ u32_max = ground arith in
      let shape : sent ≡ to_be_bytes (length payload) ++ payload = ground arith in
      let encoded : postcard.encode_message value ≡ some bytes = ground arith in
      rw (shape, read_frame_payload-append payload rest version fits small)
        (ground (arith, decoded, postcard.decode-encode value bytes encoded))

-- A stream holds a length prefix. If that is beyond the version's limit, the frame is refused as too
-- large, whatever of its body is on the stream, be it nothing. If it is within the limit and the body
-- is cut short, the stream is refused as ended early. Else the payload is the bytes after the prefix,
-- as many as the prefix says and no more, and what follows is left on the stream.
pub read_frame_payload_bounded :
    (recv : List ℕ) (version n : ℕ)
    → 4 ≤ length recv
    → from_be_bytes (take 4 recv) ≡ some n
    → ((maximum_for_version version < n)
        × (read_frame_payload_for_version recv version ≡ err wire_too_large))
      ⊎ ((n ≤ maximum_for_version version)
          × (length (drop 4 recv) < n)
          × (read_frame_payload_for_version recv version ≡ err finished_early))
      ⊎ ((n ≤ maximum_for_version version)
          × (n ≤ length (drop 4 recv))
          × (read_frame_payload_for_version recv version
              ≡ ok (some (take n (drop 4 recv), drop n (drop 4 recv)))))
unfolding read_frame_payload_for_version
read_frame_payload_bounded [] version n full prefix = absurd (omega (arith, full))
read_frame_payload_bounded (x ∷ xs) version n full prefix =
    elim (Bool-cases (ltb (maximum_for_version version) n)) [
      | inl over ↦ inl (ground (arith, over), ground (arith, prefix, over))
      | inr within ↦ elim (Bool-cases (ltb (length (drop 3 xs)) n)) [
        | inl short ↦ inr (
            inl (
              ground (arith, within),
              ground (arith, short),
              ground (arith, prefix, within, short),
            ))
        | inr long ↦ inr (
            inr
              (ground (arith, within), ground (arith, long), ground (arith, prefix, within, long)))
      ]
    ]

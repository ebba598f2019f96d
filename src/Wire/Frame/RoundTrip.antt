-- ===== src/Wire/Frame/RoundTrip.antt =====
-- Decoding an encoded frame gives the payload back.
use asp.Base.{
  ℕ, ◌+◌, ◌≤◌, ◌≡◌, ◌∙◌, true, inl, inr, some, none, ◌⊎◌, ◌<◌, List, length, take_all, arith,
  from_be_bytes-to_be_bytes, ok, Bool-cases, Result-cases, Option-cases, ltb, ltb→lt, ◌==◌, ◌≢◌,
}
use asp.Wire.Version.{protocol_version_supported, legacy_protocol_version, protocol_version}
use asp.Wire.Sampling.{should_attempt_frame_compression}
use asp.Wire.Frame.{
  Zlib, max_frame_bytes, framed, encode_compressed, encode_frame_payload, decode_frame_payload,
  decode_plain, decode_zlib, frame_encoding_plain, frame_encoding_zlib, maximum_for_version,
  encode_frame_payload_for_version, decode_frame_payload_for_version,
}

module _ (z : Zlib) where
  -- The header that the encoder writes is the one that the decoder reads.
  decode-framed_plain :
      (n : ℕ) (body : List ℕ)
      → n ≤ max_frame_bytes
      → decode_frame_payload z (framed frame_encoding_plain n body) ≡ decode_plain z body n
  unfolding decode_frame_payload
  decode-framed_plain n body h = ground (arith, from_be_bytes-to_be_bytes n)

  decode-framed_zlib :
      (n : ℕ) (body : List ℕ)
      → n ≤ max_frame_bytes
      → decode_frame_payload z (framed frame_encoding_zlib n body) ≡ decode_zlib z body n
  unfolding decode_frame_payload
  decode-framed_zlib n body h = ground (arith, from_be_bytes-to_be_bytes n)

  -- What a frame is: the plain one, or a compressed one that is strictly smaller.
  pub IsFrameOf : List ℕ → List ℕ → Type 0
  IsFrameOf p f =
      (f ≡ framed frame_encoding_plain (length p) p)
      ⊎ ((c : List ℕ) × (z.deflate p ≡ some c)
          × (length c < length p)
          × (f ≡ framed frame_encoding_zlib (length p) c))

  pub encode_compressed-IsFrameOf :
      (p f : List ℕ)
      → length p ≤ max_frame_bytes
      → encode_compressed z p (length p) ≡ ok f
      → IsFrameOf p f
  unfolding encode_compressed IsFrameOf
  encode_compressed-IsFrameOf p f fits h = elim (Option-cases (z.deflate p)) [
    | inl e ↦ absurd (ground arith)
    | inr (c, e) ↦ elim (Bool-cases (ltb (length c) (length p))) [
      | inl lt ↦ inr (c, e, ltb→lt _ _ lt, ground arith)
      | inr ge ↦ inl (ground arith)
    ]
  ]

  pub encode-IsFrameOf :
      (p f : List ℕ)
      → encode_frame_payload z p ≡ ok f
      → (length p ≤ max_frame_bytes) × IsFrameOf p f
  unfolding encode_frame_payload IsFrameOf
  encode-IsFrameOf p f h =
      let fits : length p ≤ max_frame_bytes = ground arith in
      (
        fits,
        elim (Bool-cases (should_attempt_frame_compression p)) [
          | inl tried ↦ encode_compressed-IsFrameOf p f fits (ground arith)
          | inr plain ↦ inl (ground arith)
        ],
      )

  decode-IsFrameOf :
      (p f : List ℕ) → length p ≤ max_frame_bytes → IsFrameOf p f → decode_frame_payload z f ≡ ok p
  unfolding IsFrameOf decode_plain decode_zlib
  decode-IsFrameOf p f fits (inl plain) =
      rw plain (decode-framed_plain (length p) p fits ∙ ground arith)
  decode-IsFrameOf p f fits (inr (c, e, lt, zlib)) = rw zlib (
      decode-framed_zlib (length p) c fits
      ∙ ground (
        arith,
        z.inflate-deflate p c (length p + 1) e,
        z.length-deflate p c e,
        take_all (length p + 1) p,
      ))

  -- What the encoder produces, the decoder restores, for every codec that keeps its contract.
  pub decode-encode_frame_payload :
      (p f : List ℕ) → encode_frame_payload z p ≡ ok f → decode_frame_payload z f ≡ ok p
  decode-encode_frame_payload p f h =
      let r : (length p ≤ max_frame_bytes) × IsFrameOf p f = encode-IsFrameOf p f h in
      decode-IsFrameOf p f r.0 r.1

  IsFrameOf-length : (p f : List ℕ) → IsFrameOf p f → length f ≤ length p + 7
  unfolding IsFrameOf
  IsFrameOf-length p f (inl plain) = rw plain (omega arith)
  IsFrameOf-length p f (inr (c, e, lt, zlib)) = rw zlib (omega arith)

  -- What the encoder produces at a version, the decoder restores at it, and the reader admits it.
  pub decode-encode_for_version :
      (p f : List ℕ) (version : ℕ)
      → encode_frame_payload_for_version z p version ≡ ok f
      → (decode_frame_payload_for_version z f version ≡ ok p)
        × (length f ≤ maximum_for_version version)
  unfolding encode_frame_payload_for_version decode_frame_payload_for_version maximum_for_version
  decode-encode_for_version p f version h = elim (Bool-cases (version == legacy_protocol_version)) [
    | inl legacy ↦ ground arith
    | inr other ↦ elim (Bool-cases (version == protocol_version)) [
      | inl current ↦
          let e : encode_frame_payload z p ≡ ok f = ground arith in
          ground (
            arith,
            decode-encode_frame_payload p f e,
            encode-IsFrameOf p f e,
            IsFrameOf-length p f (encode-IsFrameOf p f e).1,
          )
      | inr neither ↦ absurd (ground arith)
    ]
  ]

  -- With a codec that does not fail, every payload within the limit is encoded.
  encode_total :
      (p : List ℕ)
      → ((q : List ℕ) → z.deflate q ≢ none)
      → length p ≤ max_frame_bytes
      → (f : List ℕ) × (encode_frame_payload z p ≡ ok f)
  unfolding encode_frame_payload encode_compressed
  encode_total p total fits = elim (Result-cases (encode_frame_payload z p)) [
    | inl done ↦ done
    | inr (e, h) ↦ absurd (ground (arith, total p))
  ]

  -- At both supported versions a payload of at most 128 MiB is encoded, in at most seven more bytes,
  -- and decoded to itself, if the codec's encoder does not fail.
  pub frame_round_trip :
      (p : List ℕ) (version : ℕ)
      → ((q : List ℕ) → z.deflate q ≢ none)
      → protocol_version_supported version ≡ true
      → length p ≤ max_frame_bytes
      → (f : List ℕ) × (encode_frame_payload_for_version z p version ≡ ok f)
        × (decode_frame_payload_for_version z f version ≡ ok p)
        × (length f ≤ length p + 7)
  unfolding encode_frame_payload_for_version decode_frame_payload_for_version
      protocol_version_supported
  frame_round_trip p version total supported fits =
      elim (Bool-cases (version == legacy_protocol_version)) [
        | inl legacy ↦ (p, ground arith, ground arith, omega arith)
        | inr current ↦
            let (f, e) = encode_total p total fits in
            (
              f,
              ground (arith, e),
              ground (arith, decode-encode_frame_payload p f e),
              IsFrameOf-length p f (encode-IsFrameOf p f e).1,
            )
      ]

-- ===== src/Pty/Datagram/RoundTrip.antt =====
-- The datagrams are decoded to what was encoded, and fit the peer's budget.
use asp.Base.{
  ℕ, ◌≤◌, ◌≡◌, refl, ap, sym, subst, ◌∙◌, Bool, true, ◌&&◌, none, some, [], ◌∷◌, length, take,
  arith, ltb, leb, ok, Bool-cases, Option-cases, inl, inr, Result-cases,
}
use asp.Event.{Bytes}
use asp.Wire.Sampling.{frame_compression_min_bytes}
use asp.Wire.Frame.{Zlib, frame_header_bytes, encode_frame_payload, frame_decoded_len}
use asp.Wire.Frame.RoundTrip.{decode-encode_frame_payload}
use asp.Wire.Frame.Bounds.{frame_decoded_len-decode}
use asp.Wire.Frame.Stream.{Codec}
use asp.Pty.Datagram.{
  PtyStateDeltaDatagram, PtyStateRichDatagram, encode_pty_state_delta_datagram,
  decode_pty_state_delta_datagram, encode_pty_rich_datagram, decode_pty_rich_datagram, decode_wire,
  decode_compressed, compressed_form, plain_form, pty_rich_datagram_max_decoded_bytes,
  pty_delta_max_rows,
}

module _ (delta_codec : Codec PtyStateDeltaDatagram) where
  -- A delta that was encoded fits the budget and is decoded to itself.
  pub decode-encode_delta :
      (d : PtyStateDeltaDatagram) (max_size : ℕ) (p : Bytes)
      → encode_pty_state_delta_datagram delta_codec d max_size ≡ ok (some p)
      → (decode_pty_state_delta_datagram delta_codec p ≡ ok (some d))
        × (length p ≤ max_size)
        × (length d.changes ≤ pty_delta_max_rows)
  unfolding encode_pty_state_delta_datagram decode_pty_state_delta_datagram
  decode-encode_delta d max_size p h = elim (Option-cases (delta_codec.encode_message d)) [
    | inl e ↦ absurd (ground (arith, e))
    | inr (b, e) ↦ ground (arith, e, delta_codec.decode-encode d b e)
  ]

-- The header is all that `frame_decoded_len` reads.
frame_decoded_len-take :
    (f : Bytes) → frame_decoded_len (take frame_header_bytes f) ≡ frame_decoded_len f
unfolding frame_decoded_len
frame_decoded_len-take [] = refl
frame_decoded_len-take (a ∷ []) = refl
frame_decoded_len-take (a ∷ b ∷ []) = refl
frame_decoded_len-take (a ∷ b ∷ c ∷ []) = refl
frame_decoded_len-take (a ∷ b ∷ c ∷ d ∷ []) = refl
frame_decoded_len-take (a ∷ b ∷ c ∷ d ∷ e ∷ []) = refl
frame_decoded_len-take (a ∷ b ∷ c ∷ d ∷ e ∷ f ∷ []) = refl
frame_decoded_len-take (a ∷ b ∷ c ∷ d ∷ e ∷ f ∷ g ∷ rest) = ground arith

module _ (z : Zlib) (rich_codec : Codec PtyStateRichDatagram)
    (length-encode : (d : PtyStateRichDatagram) (b : Bytes)
      → rich_codec.encode_message d ≡ some b
      → length d.screen ≤ length b) where
  decode_wire-encode :
      (d : PtyStateRichDatagram) (b : Bytes)
      → rich_codec.encode_message d ≡ some b
      → length b ≤ pty_rich_datagram_max_decoded_bytes
      → decode_wire z rich_codec b ≡ ok (some d)
  unfolding decode_wire
  decode_wire-encode d b e fits =
      ground (arith, rich_codec.decode-encode d b e, length-encode d b e)

  plain_form-decoded :
      (d : PtyStateRichDatagram) (b p : Bytes) (max_size : ℕ) (allow : Bool)
      → rich_codec.encode_message d ≡ some b
      → length b ≤ pty_rich_datagram_max_decoded_bytes
      → plain_form z rich_codec b max_size ≡ some p
      → (decode_pty_rich_datagram z rich_codec p allow ≡ ok (some d)) × (length p ≤ max_size)
  unfolding plain_form decode_pty_rich_datagram
  plain_form-decoded d b p max_size allow e fits h = ground (arith, decode_wire-encode d b e fits)

  compressed_form-decoded :
      (d : PtyStateRichDatagram) (b p : Bytes) (max_size : ℕ)
      → rich_codec.encode_message d ≡ some b
      → length b ≤ pty_rich_datagram_max_decoded_bytes
      → compressed_form z rich_codec b max_size ≡ ok (some p)
      → (decode_pty_rich_datagram z rich_codec p true ≡ ok (some d)) × (length p ≤ max_size)
  unfolding compressed_form decode_pty_rich_datagram decode_compressed
  compressed_form-decoded d b p max_size e fits h = elim (Result-cases (encode_frame_payload z b)) [
    | inr (failure, w) ↦ absurd (ground (arith, w))
    | inl (f, w) ↦
        let back = decode-encode_frame_payload z b f w in
        ground (
          arith,
          w,
          back,
          frame_decoded_len-take f,
          frame_decoded_len-decode z f b back,
          decode_wire-encode d b e fits,
        )
  ]

  -- A rich screen that was encoded, compressed or not, fits the budget, and a peer that agreed to the
  -- same compression decodes it to itself.
  pub decode-encode_rich :
      (d : PtyStateRichDatagram) (max_size : ℕ) (allow : Bool) (p : Bytes)
      → encode_pty_rich_datagram z rich_codec d max_size allow ≡ ok (some p)
      → (decode_pty_rich_datagram z rich_codec p allow ≡ ok (some d)) × (length p ≤ max_size)
  unfolding encode_pty_rich_datagram
  decode-encode_rich d max_size allow p h = elim (Option-cases (rich_codec.encode_message d)) [
    | inl e ↦ absurd (ground (arith, e))
    | inr (b, e) ↦ elim (Bool-cases (ltb pty_rich_datagram_max_decoded_bytes (length b))) [
      | inl long ↦ absurd (ground (arith, e, long))
      | inr fits ↦ elim (Bool-cases (allow && leb frame_compression_min_bytes (length b))) [
        | inr plain ↦
            plain_form-decoded d b p max_size allow e (ground (arith, fits))
              (ground (arith, e, fits, plain))
        | inl tried ↦ elim (Result-cases (compressed_form z rich_codec b max_size)) [
          | inr (failure, c) ↦ absurd (ground (arith, e, fits, tried, c))
          | inl (none, c) ↦
              plain_form-decoded d b p max_size allow e (ground (arith, fits))
                (ground (arith, e, fits, tried, c))
          | inl (some q, c) ↦
              let same : q ≡ p = ground (arith, e, fits, tried, c) in
              let on : allow ≡ true = ground (arith, tried) in
              subst
                (λ a.
                  (decode_pty_rich_datagram z rich_codec p a ≡ ok (some d)) × (length p ≤ max_size))
                (sym on)
                (compressed_form-decoded d b p max_size e (ground (arith, fits))
                  (c ∙ ap (λ x. ok (some x)) same))
        ]
      ]
    ]
  ]

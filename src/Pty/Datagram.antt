-- ===== src/Pty/Datagram.antt =====
-- The PTY datagrams of crates/asp-protocol/src/lib.rs. Postcard is the parameter `Codec`, zlib the
-- parameter `Zlib`. A sequence beyond its bound makes the decoder of the wire form fail.
pub mod RoundTrip
use asp.Base.{
  ℕ, ◌≤◌, ◌≡◌, Bool, true, false, not, ◌&&◌, ◌||◌, ◌-◌, Option, none, some, List, [], ◌∷◌, ◌++◌,
  length, take, drop, get_or, ltb, leb, ◌==◌, bytes_eq, if◌then◌else◌, saturating_add, Result, ok,
  err, ◌>>=◌, ◌>>◌, bail_if, ok_or,
}
use asp.Event.{Uuid, Bytes}
use asp.Wire.Sampling.{frame_compression_min_bytes}
use asp.Wire.Frame.{
  Zlib, FrameError, frame_header_bytes, frame_encoding_zlib, encode_frame_payload,
  decode_frame_payload, frame_decoded_len,
}
use asp.Wire.Frame.Stream.{Codec}

abbrev pub pty_datagram_max_decoded_bytes : ℕ
pty_datagram_max_decoded_bytes = 8388608

abbrev pub pty_datagram_max_rows : ℕ
pty_datagram_max_rows = 4096

abbrev pub pty_delta_datagram_max_decoded_bytes : ℕ
pty_delta_datagram_max_decoded_bytes = 8388608

abbrev pub pty_delta_max_rows : ℕ
pty_delta_max_rows = 4096

abbrev pub pty_rich_datagram_max_decoded_bytes : ℕ
pty_rich_datagram_max_decoded_bytes = 8388608

abbrev pub pty_delta_datagram_magic : Bytes
pty_delta_datagram_magic = b'P' ∷ b'D' ∷ []

abbrev pub pty_rich_datagram_magic : Bytes
pty_rich_datagram_magic = b'P' ∷ b'R' ∷ []

abbrev pub pty_rich_compressed_datagram_magic : Bytes
pty_rich_compressed_datagram_magic = b'P' ∷ b'Z' ∷ []

pub record PtyStateDatagram : Type 0 where
  pub session_id : Uuid
  pub generation : ℕ
  pub rows : ℕ
  pub cols : ℕ
  pub screen : List Bytes
  pub cursor_row : ℕ
  pub cursor_col : ℕ

pub record PtyRowDelta : Type 0 where
  pub row : ℕ
  pub text : Bytes

pub record PtyStateDeltaDatagram : Type 0 where
  pub session_id : Uuid
  pub base_generation : ℕ
  pub generation : ℕ
  pub rows : ℕ
  pub cols : ℕ
  pub changes : List PtyRowDelta
  pub cursor_row : ℕ
  pub cursor_col : ℕ

pub record PtyStateRichDatagram : Type 0 where
  pub session_id : Uuid
  pub generation : ℕ
  pub rows : ℕ
  pub cols : ℕ
  pub screen : Bytes
  pub cursor_row : ℕ
  pub cursor_col : ℕ

pub data DatagramError : Type 0 where
  not_encoded not_decoded exceeds_limit truncated : DatagramError
  frame : FrameError → DatagramError

abbrev pub lift_frame : {A : Type 0} → Result FrameError A → Result DatagramError A
lift_frame (ok a) = ok a
lift_frame (err e) = err (frame e)

-- payload.starts_with(magic), for a magic of two bytes
abbrev pub starts_with : Bytes → Bytes → Bool
starts_with payload magic = bytes_eq (take 2 payload) magic

module _ (delta_codec : Codec PtyStateDeltaDatagram) where
  unfoldable pub encode_pty_state_delta_datagram :
      PtyStateDeltaDatagram → ℕ → Result DatagramError (Option Bytes)
  encode_pty_state_delta_datagram datagram max_size =
      if ltb pty_delta_max_rows (length datagram.changes) then ok none else do
        encoded ← ok_or (delta_codec.encode_message datagram) not_encoded
        ok (
            if ltb pty_delta_datagram_max_decoded_bytes (length encoded)
              || ltb max_size (saturating_add 2 (length encoded))
            then none
            else some (pty_delta_datagram_magic ++ encoded))

  unfoldable pub decode_pty_state_delta_datagram :
      Bytes → Result DatagramError (Option PtyStateDeltaDatagram)
  decode_pty_state_delta_datagram payload =
      if not (starts_with payload pty_delta_datagram_magic) then ok none else do
        bail_if (ltb pty_delta_datagram_max_decoded_bytes (length (drop 2 payload))) exceeds_limit
        wire ← ok_or (delta_codec.decode_message (drop 2 payload)) not_decoded
        bail_if (ltb pty_delta_max_rows (length wire.changes)) not_decoded
        ok (some wire)

module _ (plain_codec : Codec PtyStateDatagram) where
  unfoldable pub decode_pty_state_datagram : Bytes → Result DatagramError PtyStateDatagram
  decode_pty_state_datagram payload = do
    bail_if (ltb pty_datagram_max_decoded_bytes (length payload)) exceeds_limit
    wire ← ok_or (plain_codec.decode_message payload) not_decoded
    bail_if (ltb pty_datagram_max_rows (length wire.screen)) not_decoded
    ok wire

module _ (z : Zlib) (rich_codec : Codec PtyStateRichDatagram) where
  -- The compressed form of `encoded`, where it is one and is smaller than the plain form.
  unfoldable pub compressed_form : Bytes → ℕ → Result DatagramError (Option Bytes)
  compressed_form encoded max_size = do
    framed ← lift_frame (encode_frame_payload z encoded)
    let compressed_len = saturating_add 2 (length framed)
    ok (
        if leb frame_header_bytes (length framed)
          && get_or framed 2 0 == frame_encoding_zlib
          && ltb compressed_len (saturating_add 2 (length encoded))
          && leb compressed_len max_size
        then some (pty_rich_compressed_datagram_magic ++ framed)
        else none)

  unfoldable pub plain_form : Bytes → ℕ → Option Bytes
  plain_form encoded max_size =
      if ltb max_size (saturating_add 2 (length encoded))
      then none
      else some (pty_rich_datagram_magic ++ encoded)

  -- if let Some(payload) = compressed { return Ok(Some(payload)) }
  abbrev pub or_plain : Option Bytes → Bytes → ℕ → Option Bytes
  or_plain (some payload) encoded max_size = some payload
  or_plain none encoded max_size = plain_form encoded max_size

  unfoldable pub encode_pty_rich_datagram :
      PtyStateRichDatagram → ℕ → Bool → Result DatagramError (Option Bytes)
  unfolding plain_form
  encode_pty_rich_datagram datagram max_size allow_compression = do
    encoded ← ok_or (rich_codec.encode_message datagram) not_encoded
    if ltb pty_rich_datagram_max_decoded_bytes (length encoded)
        then ok none
        else if allow_compression && leb frame_compression_min_bytes (length encoded)
        then (compressed_form encoded max_size >>= λ c. ok (or_plain c encoded max_size))
        else ok (plain_form encoded max_size)

  unfoldable pub decode_wire : Bytes → Result DatagramError (Option PtyStateRichDatagram)
  decode_wire body = do
    wire ← ok_or (rich_codec.decode_message body) not_decoded
    bail_if (ltb pty_rich_datagram_max_decoded_bytes (length wire.screen)) not_decoded
    ok (some wire)

  unfoldable pub decode_compressed : Bytes → Result DatagramError (Option PtyStateRichDatagram)
  decode_compressed f = do
    bail_if (ltb (length f) frame_header_bytes) truncated
    decoded_len ← lift_frame (frame_decoded_len (take frame_header_bytes f))
    bail_if (ltb pty_rich_datagram_max_decoded_bytes decoded_len) exceeds_limit
    decoded ← lift_frame (decode_frame_payload z f)
    decode_wire decoded

  unfoldable pub decode_pty_rich_datagram :
      Bytes → Bool → Result DatagramError (Option PtyStateRichDatagram)
  unfolding decode_wire
  decode_pty_rich_datagram payload allow_compression =
      if starts_with payload pty_rich_datagram_magic
      then if ltb pty_rich_datagram_max_decoded_bytes (length payload - 2)
        then err exceeds_limit
        else decode_wire (drop 2 payload)
      else if starts_with payload pty_rich_compressed_datagram_magic
      then (if not allow_compression then ok none else decode_compressed (drop 2 payload))
      else ok none

-- ===== src/Pty/Tests.antt =====
-- Terminal state and input at concrete screens. The codecs stand in for Postcard, for screens of one
-- line and deltas of one row.
use asp.Base.{
  ℕ, ◌+◌, ◌≤◌, ◌≡◌, ◌⊎◌, refl, subst, true, false, Option, none, some, List, [], ◌∷◌, length,
  replicate, ok, inl, arith,
}
use asp.Event.{Bytes}
use asp.Wire.Frame.Stream.{Codec}
use asp.Wire.Tests.{run_length, shorten}
use asp.Wire.Frame.{framed, encode_frame_payload, encode_compressed}
use asp.Wire.Sampling.{should_attempt_frame_compression}
use asp.Pty.Datagram.{
  encode_pty_state_delta_datagram, decode_pty_state_delta_datagram, starts_with,
  pty_delta_datagram_magic, pty_rich_datagram_magic, pty_rich_compressed_datagram_magic,
  compressed_form, PtyStateDatagram, PtyRowDelta, PtyStateDeltaDatagram, PtyStateRichDatagram,
  encode_pty_rich_datagram, decode_pty_rich_datagram,
}
use asp.Pty.Datagram.RoundTrip.{decode-encode_rich}
use asp.Pty.Server.{
  send_pty_state_delta_or_full, delta_for, send_delta, send_full, smaller_delta, Snapshot,
  derive_pty_row_deltas, same_shape, changed_rows, delta_of, Link,
}
use asp.Pty.Client.{
  receive_datagram, receive_delta, base_matches, rows_valid, replace_rows, Attachment, apply_delta,
}
use asp.Pty.Delta.{IsScreen, view, apply_delta-derive}
use asp.Pty.Converge.{World, attached, Shown, Reach, here, next, tick, deliver}
use asp.Pty.Converge.Invariant.{Unmarked, plain_screen_state-Shown}
use asp.Pty.Input.{
  Arrival, no_input, receive_inputs, receive_input, accept, write_and_acknowledge, accepted, typed,
  AllBelow, pty_write_failed,
}
use asp.Pty.Input.Once.{Cut, receive_inputs-once}
use asp.Pty.Input.InOrder.{arriving, in_order, receive_inputs-all}

-- Six zeros come first, so that a delta is shorter.
some-injective : {A : Type 0} {a b : A} → some a ≡ some b → a ≡ b
some-injective h = cc

abbrev encode_lines : PtyStateDatagram → List Bytes → Option Bytes
encode_lines d (line ∷ []) = some (
    0 ∷ 0 ∷ 0 ∷ 0 ∷ 0 ∷ 0 ∷ d.session_id ∷ d.generation ∷ d.rows ∷ d.cols ∷ d.cursor_row
    ∷ d.cursor_col ∷ line)
encode_lines d _ = none

abbrev decode_lines : Bytes → Option PtyStateDatagram
decode_lines (a ∷ b ∷ c ∷ d ∷ e ∷ f ∷ session ∷ generation ∷ rows ∷ cols ∷ row ∷ col ∷ line) =
    some (record {
      session_id = session;
      generation = generation;
      rows = rows;
      cols = cols;
      screen = line ∷ [];
      cursor_row = row;
      cursor_col = col;
    })
decode_lines _ = none

decode-encode_lines :
    (d : PtyStateDatagram) (screen : List Bytes) (b : Bytes)
    → encode_lines d screen ≡ some b
    → decode_lines b ≡ some (record d { screen = screen })
decode-encode_lines d (line ∷ []) b h =
    subst (λ y. decode_lines y ≡ some (record d { screen = line ∷ [] })) (some-injective h) refl
decode-encode_lines d _ b h = absurd (cc)

abbrev plain_codec : Codec PtyStateDatagram
plain_codec = record {
  encode_message = λ d. encode_lines d d.screen;
  decode_message = decode_lines;
  decode-encode = λ d b h. decode-encode_lines d d.screen b h;
}

lines-Unmarked :
    (d : PtyStateDatagram) (screen : List Bytes) (b : Bytes)
    → encode_lines d screen ≡ some b
    → (starts_with b pty_delta_datagram_magic ≡ false)
      × (starts_with b pty_rich_datagram_magic ≡ false)
      × (starts_with b pty_rich_compressed_datagram_magic ≡ false)
lines-Unmarked d (line ∷ []) b h =
    subst
      (λ y.
        (starts_with y pty_delta_datagram_magic ≡ false)
        × (starts_with y pty_rich_datagram_magic ≡ false)
        × (starts_with y pty_rich_compressed_datagram_magic ≡ false))
      (some-injective h) (refl, refl, refl)
lines-Unmarked d _ b h = absurd (cc)

plain_codec-Unmarked : Unmarked plain_codec
plain_codec-Unmarked d b h = lines-Unmarked d d.screen b h

abbrev encode_changes : PtyStateDeltaDatagram → List PtyRowDelta → Option Bytes
encode_changes d (change ∷ []) = some (
    d.session_id ∷ d.base_generation ∷ d.generation ∷ d.rows ∷ d.cols ∷ d.cursor_row ∷ d.cursor_col
    ∷ change.row ∷ change.text)
encode_changes d _ = none

abbrev decode_delta : Bytes → Option PtyStateDeltaDatagram
decode_delta (session ∷ base ∷ generation ∷ rows ∷ cols ∷ cursor_row ∷ cursor_col ∷ row ∷ text) =
    some (record {
      session_id = session;
      base_generation = base;
      generation = generation;
      rows = rows;
      cols = cols;
      changes = record { row = row; text = text } ∷ [];
      cursor_row = cursor_row;
      cursor_col = cursor_col;
    })
decode_delta _ = none

decode-encode_changes :
    (d : PtyStateDeltaDatagram) (changes : List PtyRowDelta) (b : Bytes)
    → encode_changes d changes ≡ some b
    → decode_delta b ≡ some (record d { changes = changes })
decode-encode_changes d (change ∷ []) b h =
    subst (λ y. decode_delta y ≡ some (record d { changes = change ∷ [] })) (some-injective h) refl
decode-encode_changes d _ b h = absurd (cc)

abbrev delta_codec : Codec PtyStateDeltaDatagram
delta_codec = record {
  encode_message = λ d. encode_changes d d.changes;
  decode_message = decode_delta;
  decode-encode = λ d b h. decode-encode_changes d d.changes b h;
}

abbrev encode_rich : PtyStateRichDatagram → Bytes
encode_rich d =
    d.session_id ∷ d.generation ∷ d.rows ∷ d.cols ∷ d.cursor_row ∷ d.cursor_col ∷ d.screen

abbrev decode_rich : Bytes → Option PtyStateRichDatagram
decode_rich (session ∷ generation ∷ rows ∷ cols ∷ row ∷ col ∷ screen) = some (record {
  session_id = session;
  generation = generation;
  rows = rows;
  cols = cols;
  screen = screen;
  cursor_row = row;
  cursor_col = col;
})
decode_rich _ = none

abbrev rich_codec : Codec PtyStateRichDatagram
rich_codec = record {
  encode_message = λ d. some (encode_rich d);
  decode_message = decode_rich;
  decode-encode = λ d b h. subst (λ y. decode_rich y ≡ some d) (some-injective h) refl;
}

length-encode_rich :
    (d : PtyStateRichDatagram) (b : Bytes)
    → some (encode_rich d) ≡ some b
    → length d.screen ≤ length b
length-encode_rich d b h = ground arith

-- A blank screen, which is compressed.
abbrev blank : PtyStateRichDatagram
blank = record {
  session_id = 0;
  generation = 0;
  rows = 0;
  cols = 0;
  screen = replicate 1024 0;
  cursor_row = 0;
  cursor_col = 0;
}

abbrev blank_payload : Bytes
blank_payload = b'P' ∷ b'Z' ∷ framed 1 1030 (120 ∷ 156 ∷ 0 ∷ 1030 ∷ [])

blank_encoded :
    encode_pty_rich_datagram run_length rich_codec blank 1200 true ≡ ok (some blank_payload)
unfolding encode_pty_rich_datagram compressed_form encode_frame_payload encode_compressed shorten
    should_attempt_frame_compression
blank_encoded = refl

decode-encode_rich_example :
    (decode_pty_rich_datagram run_length rich_codec blank_payload true ≡ ok (some blank))
    × (length blank_payload ≤ 1200)
decode-encode_rich_example =
    decode-encode_rich run_length rich_codec length-encode_rich blank 1200 true blank_payload
      blank_encoded

-- One line, which is the generation.
abbrev shows : ℕ → Snapshot
shows n = record {
  generation = n;
  rows = 1;
  cols = 80;
  screen = (n ∷ []) ∷ [];
  cursor_row = 0;
  cursor_col = 1;
}

shows-IsScreen : (n : ℕ) → IsScreen (shows n)
shows-IsScreen n = record { lines = omega arith; rows_u16 = omega arith; short = (omega arith, tt) }

abbrev second_line : List PtyRowDelta
second_line = record { row = 0; text = 2 ∷ [] } ∷ []

second_line_derived : derive_pty_row_deltas (shows 1) (shows 2) ≡ some second_line
unfolding derive_pty_row_deltas same_shape changed_rows
second_line_derived = refl

apply_delta-derive_example :
    apply_delta (view (shows 1)) (delta_of 7 (shows 1) (shows 2) second_line)
    ≡ some (view (shows 2))
apply_delta-derive_example =
    apply_delta-derive 7 (shows 1) (shows 2) second_line (shows-IsScreen 1) (shows-IsScreen 2)
      second_line_derived

-- The first screen is sent again as a full datagram, the second as a delta, which arrives.
abbrev attachment : Attachment
attachment = record { session_id = 7; pty_state_delta = true; pty_rich_compression = false }

abbrev link : Link
link = record { max_datagram_size = some 1200; send_datagram = λ p. true }

abbrev delta_payload : Bytes
delta_payload = b'P' ∷ b'D' ∷ 7 ∷ 1 ∷ 2 ∷ 1 ∷ 80 ∷ 0 ∷ 1 ∷ 0 ∷ 2 ∷ []

abbrev full_payload : Bytes
full_payload = 0 ∷ 0 ∷ 0 ∷ 0 ∷ 0 ∷ 0 ∷ 7 ∷ 1 ∷ 1 ∷ 80 ∷ 0 ∷ 1 ∷ 1 ∷ []

abbrev sent_both : World
sent_both = record {
  server = record { last = some (shows 2); delta_frames_since_full = 1 };
  sent = delta_payload ∷ full_payload ∷ [];
  stream = [];
  shell = record { newest_generation = 1; plain_screen_state = some (view (shows 1)) };
}

abbrev delivered : World
delivered = record sent_both {
  shell = record { newest_generation = 2; plain_screen_state = some (view (shows 2)) };
}

both_sent :
    Reach run_length plain_codec delta_codec rich_codec shows attachment
      (attached (shows 1))
      sent_both
unfolding send_pty_state_delta_or_full delta_for send_delta send_full smaller_delta same_shape
    derive_pty_row_deltas changed_rows encode_pty_state_delta_datagram
both_sent =
    next (next here (tick link (shows 1) (shows-IsScreen 1, refl) refl))
      (tick link (shows 2) (shows-IsScreen 2, refl) refl)

delta_delivered :
    Reach run_length plain_codec delta_codec rich_codec shows attachment
      (attached (shows 1))
      delivered
unfolding receive_datagram receive_delta decode_pty_state_delta_datagram apply_delta base_matches
    rows_valid replace_rows
delta_delivered = next both_sent (deliver delta_payload (inl refl) refl)

plain_screen_state-Shown_example :
    (x : Snapshot) × Shown run_length plain_codec delta_codec rich_codec shows attachment x
    × (view (shows 2) ≡ view x)
plain_screen_state-Shown_example =
    plain_screen_state-Shown run_length plain_codec delta_codec rich_codec shows attachment
      (shows 1) delivered plain_codec-Unmarked refl (shows-IsScreen 1, refl) delta_delivered
      (view (shows 2)) refl

abbrev letter : ℕ → Bytes
letter k = (97 + k) ∷ []

-- The second chunk comes twice, and the fourth before the third.
abbrev with_gap : List Arrival
with_gap =
    arriving (record { sequence = 0; bytes = letter 0 })
    ∷ arriving (record { sequence = 1; bytes = letter 1 })
    ∷ arriving (record { sequence = 1; bytes = letter 1 })
    ∷ arriving (record { sequence = 3; bytes = letter 3 })
    ∷ []

receive_inputs-once_example :
    let out = receive_inputs no_input with_gap in
    let t = out.0 in
    ((t.written ≡ typed letter (accepted t.last)) × AllBelow (accepted t.last) t.acknowledged)
    ⊎ Cut letter out
receive_inputs-once_example = receive_inputs-once letter with_gap (refl, (refl, (refl, (refl, tt))))

two_written : (receive_inputs no_input with_gap).0.written ≡ 97 ∷ 98 ∷ []
unfolding receive_inputs receive_input accept write_and_acknowledge
two_written = refl

-- The terminal fails at the second chunk.
one_written :
    receive_inputs no_input (
      arriving (record { sequence = 0; bytes = letter 0 })
      ∷ (record (arriving (record { sequence = 1; bytes = 5 ∷ 6 ∷ [] })) { cut_at = some 1 })
      ∷ [])
    ≡ (
      record { last = some 1; written = 97 ∷ 5 ∷ []; acknowledged = 0 ∷ [] },
      some pty_write_failed,
    )
unfolding receive_inputs receive_input accept write_and_acknowledge
one_written = refl

receive_inputs-all_example :
    ((receive_inputs no_input (in_order letter 0 5)).1 ≡ none)
    × ((receive_inputs no_input (in_order letter 0 5)).0.written ≡ typed letter 5)
receive_inputs-all_example = receive_inputs-all letter 5 (omega arith) (λ k. omega arith)

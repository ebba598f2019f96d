-- ===== src/Pty/Server.antt =====
-- The sender of plain terminal state in crates/asp-server/src/main.rs: `derive_pty_row_deltas` and
-- `send_pty_state_delta_or_full`. What the connection does with a datagram is an argument, and the
-- counters of the metrics are left out.
use asp.Base.{
  ℕ, ◌+◌, ◌%◌, Bool, not, ◌&&◌, Option, none, some, List, [], ◌∷◌, length, ltb, leb, ◌==◌, bytes_eq,
  if◌then◌else◌, ok, err, min,
}
use asp.Event.{Uuid, Bytes}
use asp.Wire.Frame.Stream.{Codec}
use asp.Pty.Datagram.{
  PtyStateDatagram, PtyRowDelta, PtyStateDeltaDatagram, encode_pty_state_delta_datagram,
}

-- `asp_pty::Snapshot` without its tail of raw bytes, which no datagram carries.
pub record Snapshot : Type 0 where
  pub generation : ℕ
  pub rows : ℕ
  pub cols : ℕ
  pub screen : List Bytes
  pub cursor_row : ℕ
  pub cursor_col : ℕ

pub record PtyDatagramState : Type 0 where
  pub last : Option Snapshot
  pub delta_frames_since_full : ℕ

abbrev pub pty_delta_full_interval : ℕ
pty_delta_full_interval = 16

-- `row as u16`
abbrev pub as_u16 : ℕ → ℕ
as_u16 n = n % 65536

-- previous.screen.iter().zip(snapshot.screen.iter()).enumerate(), from `row` on
unfoldable pub changed_rows : ℕ → List Bytes → List Bytes → List PtyRowDelta
changed_rows row [] new = []
changed_rows row (o ∷ old) [] = []
changed_rows row (o ∷ old) (n ∷ new) =
    let rest = changed_rows (row + 1) old new in
    if bytes_eq o n then rest else record { row = as_u16 row; text = n } ∷ rest

unfoldable pub same_shape : Snapshot → Snapshot → Bool
same_shape previous snapshot =
    ltb previous.generation snapshot.generation
    && previous.rows == snapshot.rows
    && previous.cols == snapshot.cols
    && length previous.screen == length snapshot.screen

unfoldable pub derive_pty_row_deltas : Snapshot → Snapshot → Option (List PtyRowDelta)
unfolding same_shape changed_rows
derive_pty_row_deltas previous snapshot =
    if not (same_shape previous snapshot)
    then none
    else some (changed_rows 0 previous.screen snapshot.screen)

abbrev pub full_of : Uuid → Snapshot → PtyStateDatagram
full_of session_id s = record {
  session_id = session_id;
  generation = s.generation;
  rows = s.rows;
  cols = s.cols;
  screen = s.screen;
  cursor_row = s.cursor_row;
  cursor_col = s.cursor_col;
}

abbrev pub delta_of : Uuid → Snapshot → Snapshot → List PtyRowDelta → PtyStateDeltaDatagram
delta_of session_id previous s changes = record {
  session_id = session_id;
  base_generation = previous.generation;
  generation = s.generation;
  rows = s.rows;
  cols = s.cols;
  changes = changes;
  cursor_row = s.cursor_row;
  cursor_col = s.cursor_col;
}

-- `connection.send_datagram(payload).is_ok()`, and the largest datagram that the peer takes
pub record Link : Type 0 where
  pub max_datagram_size : Option ℕ
  pub send_datagram : Bytes → Bool

abbrev pub saturating_succ_u8 : ℕ → ℕ
saturating_succ_u8 n = min (n + 1) 255

module _ (plain_codec : Codec PtyStateDatagram) (delta_codec : Codec PtyStateDeltaDatagram) where
  -- The full form, or the base is forgotten.
  unfoldable pub send_full : Link → ℕ → Snapshot → Bytes → PtyDatagramState × Option Bytes
  send_full link max_size snapshot full_encoded =
      if leb (length full_encoded) max_size && link.send_datagram full_encoded
      then (record { last = some snapshot; delta_frames_since_full = 0 }, some full_encoded)
      else (record { last = none; delta_frames_since_full = 0 }, none)

  -- The delta's payload, where it was encoded and is smaller than the full form.
  unfoldable pub smaller_delta : Uuid → ℕ → Snapshot → Snapshot → Bytes → Option Bytes
  unfolding derive_pty_row_deltas
  smaller_delta session_id max_size previous snapshot full_encoded =
      elim (derive_pty_row_deltas previous snapshot) [
        | none ↦ none
        | some changes ↦
            elim (encode_pty_state_delta_datagram delta_codec
              (delta_of session_id previous snapshot changes) max_size) [
                | err failure ↦ none
                | ok none ↦ none
                | ok (some payload) ↦
                    if ltb (length payload) (length full_encoded) then some payload else none
              ]
      ]

  unfoldable pub send_delta :
      Link
      → ℕ
      → PtyDatagramState
      → Snapshot
      → Option Bytes
      → Bytes
      → PtyDatagramState × Option Bytes
  unfolding send_full
  send_delta link max_size state snapshot none full_encoded =
      send_full link max_size snapshot full_encoded
  send_delta link max_size state snapshot (some payload) full_encoded =
      if link.send_datagram payload
      then (
        record {
          last = some snapshot;
          delta_frames_since_full = saturating_succ_u8 state.delta_frames_since_full;
        },
        some payload,
      )
      else send_full link max_size snapshot full_encoded

  -- The delta against the last sent screen, where there is one that serves as a base.
  unfoldable pub delta_for : Uuid → ℕ → PtyDatagramState → Snapshot → Bytes → Option Bytes
  unfolding smaller_delta same_shape
  delta_for session_id max_size state snapshot full_encoded = elim state.last [
    | none ↦ none
    | some previous ↦
        if same_shape previous snapshot && ltb state.delta_frames_since_full pty_delta_full_interval
        then smaller_delta session_id max_size previous snapshot full_encoded
        else none
  ]

  -- The new state, and the datagram that was sent.
  unfoldable pub send_pty_state_delta_or_full :
      Uuid → Link → PtyDatagramState → Snapshot → PtyDatagramState × Option Bytes
  unfolding delta_for send_delta send_full
  send_pty_state_delta_or_full session_id link state snapshot = elim link.max_datagram_size [
    | none ↦ (state, none)
    | some max_size ↦ elim (plain_codec.encode_message (full_of session_id snapshot)) [
      | none ↦ (state, none)
      | some full_encoded ↦
          send_delta link max_size state snapshot
            (delta_for session_id max_size state snapshot full_encoded) full_encoded
    ]
  ]

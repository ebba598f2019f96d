-- ===== src/Pty/Client.antt =====
-- The client's replaceable terminal screen in crates/asp-client/src/main.rs: `PlainPtyScreenState`,
-- `record_pty_generation` and the datagram branch of `shell`. What is drawn is left out.
use asp.Base.{
  ℕ, Bool, true, false, not, ◌&&◌, ◌||◌, Option, none, some, List, [], ◌∷◌, length, set, max, ltb,
  leb, ◌==◌, if◌then◌else◌, ok, err,
}
use asp.Event.{Uuid, Bytes}
use asp.Wire.Frame.{Zlib}
use asp.Wire.Frame.Stream.{Codec}
use asp.Pty.Datagram.{
  PtyStateDatagram, PtyRowDelta, PtyStateDeltaDatagram, PtyStateRichDatagram,
  decode_pty_state_delta_datagram, decode_pty_state_datagram, decode_pty_rich_datagram,
}

abbrev pub max_row_bytes : ℕ
max_row_bytes = 65536

pub record PlainPtyScreenState : Type 0 where
  pub generation : ℕ
  pub rows : ℕ
  pub cols : ℕ
  pub screen : List Bytes
  pub cursor_row : ℕ
  pub cursor_col : ℕ

-- previous_row.is_some_and(|previous| change.row <= previous)
abbrev pub not_below : Option ℕ → ℕ → Bool
not_below none row = false
not_below (some previous) row = leb row previous

-- The loop that checks the rows, from `previous_row` on.
unfoldable pub rows_valid : ℕ → ℕ → Option ℕ → List PtyRowDelta → Bool
rows_valid rows height previous_row [] = true
rows_valid rows height previous_row (change ∷ changes) =
    let rest = rows_valid rows height (some change.row) changes in
    if leb rows change.row
      || leb height change.row
      || ltb max_row_bytes (length change.text)
      || not_below previous_row change.row
    then false
    else rest

unfoldable pub replace_rows : List Bytes → List PtyRowDelta → List Bytes
replace_rows screen [] = screen
replace_rows screen (change ∷ changes) = replace_rows (set screen change.row change.text) changes

unfoldable pub base_matches : PlainPtyScreenState → PtyStateDeltaDatagram → Bool
base_matches s delta =
    delta.base_generation == s.generation
    && ltb delta.base_generation delta.generation
    && delta.rows == s.rows
    && delta.cols == s.cols
    && leb (length delta.changes) (length s.screen)

-- The new screen, where the delta applies.
unfoldable pub apply_delta :
    PlainPtyScreenState → PtyStateDeltaDatagram → Option PlainPtyScreenState
unfolding base_matches rows_valid replace_rows
apply_delta s delta =
    if base_matches s delta && rows_valid s.rows (length s.screen) none delta.changes
    then some (record s {
      screen = replace_rows s.screen delta.changes;
      generation = delta.generation;
      cursor_row = delta.cursor_row;
      cursor_col = delta.cursor_col;
    })
    else none

-- `apply_delta` also says whether anything visible changed.
unfoldable pub delta_changes : PlainPtyScreenState → PtyStateDeltaDatagram → Bool
delta_changes s delta =
    not (length delta.changes == 0)
    || not (s.cursor_row == delta.cursor_row)
    || not (s.cursor_col == delta.cursor_col)

unfoldable pub record_pty_generation : ℕ → ℕ → ℕ × Bool
record_pty_generation current candidate =
    if leb candidate current then (current, false) else (candidate, true)

-- The variables of `shell` that datagrams change.
pub record Shell : Type 0 where
  pub newest_generation : ℕ
  pub plain_screen_state : Option PlainPtyScreenState

abbrev pub screen_of : PtyStateDatagram → PlainPtyScreenState
screen_of d = record {
  generation = d.generation;
  rows = d.rows;
  cols = d.cols;
  screen = d.screen;
  cursor_row = d.cursor_row;
  cursor_col = d.cursor_col;
}

-- The session, and what was negotiated on the connection.
pub record Attachment : Type 0 where
  pub session_id : Uuid
  pub pty_state_delta : Bool
  pub pty_rich_compression : Bool

unfoldable pub receive_delta : Attachment → Shell → PtyStateDeltaDatagram → Shell
receive_delta a shell delta = elim shell.plain_screen_state [
  | none ↦ shell
  | some screen ↦
      if delta.session_id == a.session_id && leb shell.newest_generation delta.generation
      then elim (apply_delta screen delta) [
        | none ↦ shell
        | some s ↦ record {
          newest_generation = max shell.newest_generation delta.generation;
          plain_screen_state = some s;
        }
      ]
      else shell
]

unfoldable pub receive_rich : Attachment → Shell → PtyStateRichDatagram → Shell
unfolding record_pty_generation
receive_rich a shell d =
    if d.session_id == a.session_id
    then record shell {
      newest_generation = (record_pty_generation shell.newest_generation d.generation).0;
    }
    else shell

unfoldable pub receive_plain : Attachment → Shell → PtyStateDatagram → Shell
unfolding record_pty_generation
receive_plain a shell d =
    if d.session_id == a.session_id
      && (record_pty_generation shell.newest_generation d.generation).1
    then record {
      newest_generation = (record_pty_generation shell.newest_generation d.generation).0;
      plain_screen_state = some (screen_of d);
    }
    else shell

module _ (z : Zlib) (plain_codec : Codec PtyStateDatagram)
    (delta_codec : Codec PtyStateDeltaDatagram) (rich_codec : Codec PtyStateRichDatagram) where
  abbrev pub receive_other : Attachment → Shell → Bytes → Shell
  receive_other a shell payload =
      elim (decode_pty_rich_datagram z rich_codec payload a.pty_rich_compression) [
        | ok (some d) ↦ receive_rich a shell d
        | _ ↦ elim (decode_pty_state_datagram plain_codec payload) [
          | ok d ↦ receive_plain a shell d
          | err failure ↦ shell
        ]
      ]

  unfoldable pub receive_datagram : Attachment → Shell → Bytes → Shell
  receive_datagram a shell payload =
      if a.pty_state_delta
      then elim (decode_pty_state_delta_datagram delta_codec payload) [
        | ok (some delta) ↦ receive_delta a shell delta
        | _ ↦ receive_other a shell payload
      ]
      else receive_other a shell payload

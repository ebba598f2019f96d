-- ===== src/Pty/Delta.antt =====
-- The deltas that the server derives are those that the client applies.
use asp.Base.{
  ℕ, ◌+◌, ◌≤◌, ◌<◌, ◌≡◌, refl, ap, sym, ◌∙◌, true, false, Option, none, some, List, [], ◌∷◌, ◌++◌,
  append_assoc, length, length-append, set, arith, bytes_eq, bytes_eq→eq, Bool-cases, inl, inr,
}
use asp.Event.{Uuid, Bytes}
use asp.Pty.Datagram.{PtyRowDelta}
use asp.Pty.Server.{Snapshot, as_u16, changed_rows, same_shape, derive_pty_row_deltas, delta_of}
use asp.Pty.Client.{
  PlainPtyScreenState, max_row_bytes, not_below, rows_valid, replace_rows, base_matches,
  apply_delta,
}

-- Every row is short enough to be sent.
abbrev pub AllShort : List Bytes → Type 0
AllShort [] = Unit {0}
AllShort (t ∷ screen) = (length t ≤ max_row_bytes) × AllShort screen

-- What the client keeps of a snapshot.
abbrev pub view : Snapshot → PlainPtyScreenState
view s = record {
  generation = s.generation;
  rows = s.rows;
  cols = s.cols;
  screen = s.screen;
  cursor_row = s.cursor_row;
  cursor_col = s.cursor_col;
}

-- A screen has no more lines than rows, which is a `u16`, and its lines are short.
pub record IsScreen (s : Snapshot) : Type 0 where
  pub lines : length s.screen ≤ s.rows
  pub rows_u16 : s.rows < 65536
  pub short : AllShort s.screen

changed_rows-valid :
    (rows height row : ℕ) (previous : Option ℕ) (old new : List Bytes)
    → height ≤ rows
    → rows < 65536
    → row + length old ≤ height
    → length old ≡ length new
    → AllShort new
    → ((r : ℕ) → row ≤ r → not_below previous r ≡ false)
    → rows_valid rows height previous (changed_rows row old new) ≡ true
unfolding changed_rows rows_valid
changed_rows-valid rows height row previous [] new le small fits same short below = refl
changed_rows-valid rows height row previous (o ∷ old) [] le small fits same short below = refl
changed_rows-valid rows height row previous (o ∷ old) (n ∷ new) le small fits same short below =
    elim (Bool-cases (bytes_eq o n)) [
      | inl equal ↦ rw equal (
          changed_rows-valid rows height (row + 1) previous old new le small (omega arith)
            (omega arith) short.1 (λ r h. below r (omega arith)))
      | inr changed ↦
          let u16 : as_u16 row ≡ row = omega arith in
          let rest =
            changed_rows-valid rows height (row + 1) (some (as_u16 row)) old new le small
              (omega arith) (omega arith) short.1 (λ r h. ground (arith, u16)) in
          rw changed (ground (arith, u16, rest, below row (omega arith), short.0))
    ]

set-append :
    (pre : List Bytes) (o : Bytes) (old : List Bytes) (n : Bytes) (row : ℕ)
    → row ≡ length pre
    → set (pre ++ (o ∷ old)) row n ≡ pre ++ (n ∷ old)
set-append [] o old n row e = rw e refl
set-append (p ∷ pre) o old n row e =
    rw e (ap (λ l. p ∷ l) (set-append pre o old n (length pre) refl))

replace_rows-changed_rows :
    (pre old new : List Bytes) (row : ℕ)
    → row ≡ length pre
    → row + length old < 65536
    → length old ≡ length new
    → replace_rows (pre ++ old) (changed_rows row old new) ≡ pre ++ new
unfolding changed_rows replace_rows
replace_rows-changed_rows pre [] [] row at small same = refl
replace_rows-changed_rows pre [] (n ∷ new) row at small same = absurd (omega arith)
replace_rows-changed_rows pre (o ∷ old) [] row at small same = absurd (omega arith)
replace_rows-changed_rows pre (o ∷ old) (n ∷ new) row at small same =
    let next : row + 1 ≡ length (pre ++ (n ∷ [])) = omega (arith, length-append pre (n ∷ [])) in
    let rest : replace_rows (pre ++ (n ∷ old)) (changed_rows (row + 1) old new) ≡ pre ++ (n ∷ new) =
      ap (λ l. replace_rows l (changed_rows (row + 1) old new))
        (sym (append_assoc pre (n ∷ []) old))
      ∙ replace_rows-changed_rows (pre ++ (n ∷ [])) old new (row + 1) next (omega arith)
          (omega arith)
      ∙ append_assoc pre (n ∷ []) new in
    elim (Bool-cases (bytes_eq o n)) [
      | inl equal ↦ rw equal (
          ap (λ x. replace_rows (pre ++ (x ∷ old)) (changed_rows (row + 1) old new))
            (bytes_eq→eq o n equal)
          ∙ rest)
      | inr changed ↦ rw changed (
          ap (λ l. replace_rows l (changed_rows (row + 1) old new))
            (set-append pre o old n (as_u16 row) (omega arith))
          ∙ rest)
    ]

length-changed_rows :
    (row : ℕ) (old new : List Bytes) → length (changed_rows row old new) ≤ length old
unfolding changed_rows
length-changed_rows row [] new = omega arith
length-changed_rows row (o ∷ old) [] = omega arith
length-changed_rows row (o ∷ old) (n ∷ new) = ground (arith, length-changed_rows (row + 1) old new)

-- A client that holds the base has, after the delta that the server derives, the server's new screen.
pub apply_delta-derive :
    (session_id : Uuid) (previous s : Snapshot) (changes : List PtyRowDelta)
    → IsScreen previous
    → IsScreen s
    → derive_pty_row_deltas previous s ≡ some changes
    → apply_delta (view previous) (delta_of session_id previous s changes) ≡ some (view s)
unfolding derive_pty_row_deltas same_shape apply_delta base_matches
apply_delta-derive session_id previous s changes p q h = elim (Bool-cases (same_shape previous s)) [
  | inr other ↦ absurd (ground (arith, other))
  | inl same ↦
      let c : changed_rows 0 previous.screen s.screen ≡ changes = ground (arith, same) in
      let lines : length previous.screen ≡ length s.screen = ground arith in
      let valid =
        changed_rows-valid previous.rows (length previous.screen) 0 none previous.screen s.screen
          p.lines p.rows_u16 (omega arith) lines q.short (λ r h. refl) in
      let replaced =
        replace_rows-changed_rows [] previous.screen s.screen 0 refl
          (omega (arith, p.lines, p.rows_u16)) lines in
      let few = length-changed_rows 0 previous.screen s.screen in
      ground (arith, c, valid, replaced, few)
]

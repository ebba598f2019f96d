-- ===== src/Patch/Lines.antt =====
-- `derive_line_patch_ranges` of crates/asp-client/src/main.rs: line-oriented ranges for an edit that
-- changes the length, chosen along a bounded table of longest common subsequences.
pub mod EditsTo
pub mod Split
pub mod Steps
pub mod Ends
use asp.Base.{
  ℕ, zero, suc, ◌+◌, ◌-◌, ◌*◌, max, Bool, true, false, not, ◌&&◌, ◌||◌, Option, none, some, List,
  [], ◌∷◌, ◌++◌, map, length, get_elem?, get_or, set, replicate, slice, ltb, leb, ◌==◌, bytes_eq,
  if◌then◌else◌, saturating_sub, checked_add, checked_mul,
}
use asp.Patch.{FilePatchRange}
use asp.Patch.Edits.{Edit, range_of}
use asp.Patch.Runs.{file_patch_range_coalesce_gap_bytes}

abbrev pub file_patch_line_max_lines : ℕ
file_patch_line_max_lines = 2048

abbrev pub file_patch_line_max_lcs_cells : ℕ
file_patch_line_max_lcs_cells = 4000000

abbrev pub file_patch_max_derived_ranges : ℕ
file_patch_max_derived_ranges = 4096

-- A line's bytes are `start..stop` of the file.
pub record Line : Type 0 where
  pub start : ℕ
  pub stop : ℕ

-- The loop of `split_patch_lines`, at byte `index` with the line begun at `start`.
unfoldable pub split_lines_from : ℕ → ℕ → List ℕ → List Line
split_lines_from start index [] =
    if ltb start index then record { start = start; stop = index } ∷ [] else []
split_lines_from start index (byte ∷ rest) =
    let ended =
      record { start = start; stop = index + 1 } ∷ split_lines_from (index + 1) (index + 1) rest in
    let going = split_lines_from start (index + 1) rest in if byte == 10 then ended else going

unfoldable pub split_patch_lines : List ℕ → List Line
unfolding split_lines_from
split_patch_lines bytes = split_lines_from 0 0 bytes

-- lines.get(index).map_or(data_len, |line| line.0)
unfoldable pub patch_line_offset : List Line → ℕ → ℕ → ℕ
patch_line_offset lines index data_len = elim (get_elem? lines index) [
  | none ↦ data_len
  | some line ↦ line.start
]

-- data[lines[index].0..lines[index].1]; the code indexes only below the number of lines.
unfoldable pub line_bytes : List ℕ → List Line → ℕ → List ℕ
line_bytes bytes lines index =
    let line = get_or lines index (record { start = 0; stop = 0 }) in
    slice bytes line.start line.stop

-- The two files as the loops see them.
pub record Files : Type 0 where
  pub old : List ℕ
  pub new : List ℕ
  pub old_lines : List Line
  pub new_lines : List Line
  pub width : ℕ

unfoldable pub same_line : Files → ℕ → ℕ → Bool
unfolding line_bytes
same_line f old_index new_index =
    bytes_eq (line_bytes f.old f.old_lines old_index) (line_bytes f.new f.new_lines new_index)

-- The value that the table loops store at (old_index, new_index). An entry is at most the number of
-- lines, so the `u32` addition does not wrap.
unfoldable pub lcs_value : Files → List ℕ → ℕ → ℕ → ℕ
unfolding same_line
lcs_value f lcs old_index new_index =
    if same_line f old_index new_index
    then 1 + get_or lcs ((old_index + 1) * f.width + new_index + 1) 0
    else max (get_or lcs ((old_index + 1) * f.width + new_index) 0)
        (get_or lcs (old_index * f.width + new_index + 1) 0)

-- for new_index in (0..n).rev()
unfoldable pub fill_row : Files → ℕ → ℕ → List ℕ → List ℕ
fill_row f old_index zero lcs = lcs
fill_row f old_index (suc new_index) lcs =
    fill_row f old_index new_index
      (set lcs (old_index * f.width + new_index) (lcs_value f lcs old_index new_index))

-- for old_index in (0..n).rev()
unfoldable pub fill_table : Files → ℕ → List ℕ → List ℕ
fill_table f zero lcs = lcs
fill_table f (suc old_index) lcs =
    fill_table f old_index (fill_row f old_index (length f.new_lines) lcs)

-- The edit pushed between the anchors and the current indices, if there is one.
unfoldable pub pending_edit : Files → ℕ → ℕ → ℕ → ℕ → List Edit
unfolding patch_line_offset
pending_edit f old_anchor old_index new_anchor new_index =
    if not (old_index == old_anchor) || not (new_index == new_anchor)
    then record {
      old_start = patch_line_offset f.old_lines old_anchor (length f.old);
      old_end = patch_line_offset f.old_lines old_index (length f.old);
      new_start = patch_line_offset f.new_lines new_anchor (length f.new);
      new_end = patch_line_offset f.new_lines new_index (length f.new);
    }
      ∷ []
    else []

-- The mutable locals of the walk over the table.
pub record Walk : Type 0 where
  pub old_index : ℕ
  pub new_index : ℕ
  pub old_anchor : ℕ
  pub new_anchor : ℕ
  pub edits : List Edit

unfoldable pub in_range : Files → Walk → Bool
in_range f s = ltb s.old_index (length f.old_lines) && ltb s.new_index (length f.new_lines)

-- The body of the walk.
unfoldable pub walk_step : Files → List ℕ → Walk → Walk
walk_step f lcs s =
    if same_line f s.old_index s.new_index
    then record {
      old_index = s.old_index + 1;
      new_index = s.new_index + 1;
      old_anchor = s.old_index + 1;
      new_anchor = s.new_index + 1;
      edits = s.edits ++ pending_edit f s.old_anchor s.old_index s.new_anchor s.new_index;
    }
    else if leb (get_or lcs (s.old_index * f.width + s.new_index + 1) 0)
        (get_or lcs ((s.old_index + 1) * f.width + s.new_index) 0)
    then record s { old_index = s.old_index + 1 }
    else record s { new_index = s.new_index + 1 }

-- Each round moves one index on, so the number of lines of both files is enough fuel.
unfoldable pub walk : ℕ → Files → List ℕ → Walk → Walk
walk zero f lcs s = s
walk (suc fuel) f lcs s =
    let next = walk fuel f lcs (walk_step f lcs s) in if in_range f s then next else s

abbrev pub walk_start : Walk
walk_start = record { old_index = 0; new_index = 0; old_anchor = 0; new_anchor = 0; edits = [] }

unfoldable pub walked : Files → Walk
walked f =
    walk (length f.old_lines + length f.new_lines) f
      (fill_table f (length f.old_lines) (replicate ((length f.old_lines + 1) * f.width) 0))
      walk_start

-- `edits` after the push that follows the loop.
unfoldable pub line_edits : Files → List Edit
line_edits f =
    let s = walked f in s.edits ++ pending_edit f s.old_anchor s.old_index s.new_anchor s.new_index

-- if edit.0 == edit.1 && edit.2 == edit.3 { continue; }
abbrev pub is_empty_edit : Edit → Bool
is_empty_edit e = e.old_start == e.old_end && e.new_start == e.new_end

-- The coalescing loop; `previous` is the last element of `coalesced`.
unfoldable pub coalesce_edits_after : Edit → List Edit → List Edit
coalesce_edits_after previous [] = previous ∷ []
coalesce_edits_after previous (e ∷ es) =
    let skipped = coalesce_edits_after previous es in
    let joined =
      coalesce_edits_after (record previous { old_end = e.old_end; new_end = e.new_end }) es in
    let apart = previous ∷ coalesce_edits_after e es in
    if is_empty_edit e
    then skipped
    else if leb (saturating_sub e.old_start previous.old_end) file_patch_range_coalesce_gap_bytes
    then joined
    else apart

unfoldable pub coalesce_edits : List Edit → List Edit
unfolding coalesce_edits_after
coalesce_edits [] = []
coalesce_edits (e ∷ es) =
    let skipped = coalesce_edits es in
    let started = coalesce_edits_after e es in if is_empty_edit e then skipped else started

unfoldable pub files_of : List ℕ → List ℕ → Files
files_of old new = record {
  old = old;
  new = new;
  old_lines = split_patch_lines old;
  new_lines = split_patch_lines new;
  width = length (split_patch_lines new) + 1;
}

unfoldable pub derive_line_patch_ranges : List ℕ → List ℕ → Option (List FilePatchRange)
unfolding files_of line_edits walked walk in_range walk_step coalesce_edits pending_edit fill_table
    fill_row lcs_value split_patch_lines
derive_line_patch_ranges old new =
    let f = files_of old new in
    if ltb file_patch_line_max_lines (length f.old_lines)
      || ltb file_patch_line_max_lines (length f.new_lines)
    then none
    else elim (checked_add (length f.new_lines) 1) [
      | none ↦ none
      | some width ↦ elim (checked_add (length f.old_lines) 1) [
        | none ↦ none
        | some rows ↦ elim (checked_mul rows width) [
          | none ↦ none
          | some cells ↦
              if ltb file_patch_line_max_lcs_cells cells
              then none
              else if ltb file_patch_max_derived_ranges (length (line_edits f))
              then none
              else some (map (range_of new) (coalesce_edits (line_edits f)))
        ]
      ]
    ]

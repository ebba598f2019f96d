-- ===== src/Patch.antt =====
-- Hash-guarded file patches: the server's `materialize_file_patch_ranges` and `FilePatch` handler of
-- crates/asp-server/src/main.rs. The client's derivation is in the child modules.
pub mod Splice
pub mod Materialize
pub mod Contiguous
pub mod Edits
pub mod Runs
pub mod Lines
pub mod Derive
mod Tests
use asp.Base.{
  ℕ, ◌+◌, ◌-◌, Bool, true, false, Option, none, some, List, [], ◌∷◌, ◌++◌, length, take, drop,
  slice, ltb, leb, ◌==◌, if◌then◌else◌, checked_add, checked_sub, Result, ok, err, ◌>>=◌, ◌>>◌,
  bail_if, ok_or,
}

-- One byte-range replacement; `offset` and `remove_len` address the file before the edit.
pub record FilePatchRange : Type 0 where
  pub offset : ℕ
  pub remove_len : ℕ
  pub replacement : List ℕ

abbrev pub max_file_patch_ranges : ℕ
max_file_patch_ranges = 4096

abbrev pub file_max_bytes : ℕ
file_max_bytes = 16777216

pub data PatchError : Type 0 where
  no_ranges too_many_ranges unsorted overflow out_of_bounds file_too_large : PatchError

-- The mutable locals of the checking loop.
pub record Totals : Type 0 where
  pub cursor : ℕ
  pub removed_total : ℕ
  pub replacement_total : ℕ

-- The checking loop's body. A `u64` always fits the 64-bit `usize`.
unfoldable pub check_range : ℕ → Totals → FilePatchRange → Result PatchError Totals
check_range old_len s range = do
  bail_if (ltb range.offset s.cursor) unsorted
  last ← ok_or (checked_add range.offset range.remove_len) overflow
  bail_if (ltb old_len last) out_of_bounds
  removed_total ← ok_or (checked_add s.removed_total range.remove_len) overflow
  replacement_total ← ok_or (checked_add s.replacement_total (length range.replacement)) overflow
  ok (record {
    cursor = last;
    removed_total = removed_total;
    replacement_total = replacement_total;
  })

unfoldable pub check_ranges : ℕ → Totals → List FilePatchRange → Result PatchError Totals
check_ranges old_len s [] = ok s
check_ranges old_len s (range ∷ ranges) = do
  s' ← check_range old_len s range
  check_ranges old_len s' ranges

-- The second loop: `written` is the vector that it extends, `cursor` the position in `old`.
unfoldable pub write_ranges : List ℕ → ℕ → List ℕ → List FilePatchRange → Result PatchError (List ℕ)
write_ranges old cursor written [] = ok (written ++ drop cursor old)
write_ranges old cursor written (range ∷ ranges) = do
  last ← ok_or (checked_add range.offset range.remove_len) overflow
  write_ranges old last ((written ++ slice old cursor range.offset) ++ range.replacement) ranges

-- old.len().checked_sub(removed_total).and_then(|length| length.checked_add(replacement_total))
unfoldable pub new_length : ℕ → Totals → Result PatchError ℕ
new_length old_len s = do
  kept ← ok_or (checked_sub old_len s.removed_total) overflow
  ok_or (checked_add kept s.replacement_total) overflow

unfoldable pub materialize_file_patch_ranges :
    List ℕ → List FilePatchRange → Result PatchError (List ℕ)
materialize_file_patch_ranges old ranges = do
  bail_if (length ranges == 0) no_ranges
  bail_if (ltb max_file_patch_ranges (length ranges)) too_many_ranges
  totals ←
      check_ranges (length old) (record { cursor = 0; removed_total = 0; replacement_total = 0 })
        ranges
  new_len ← new_length (length old) totals
  bail_if (ltb file_max_bytes new_len) file_too_large
  write_ranges old 0 [] ranges

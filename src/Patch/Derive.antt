-- ===== src/Patch/Derive.antt =====
-- `derive_file_patch_ranges`, its cost estimates and `cached_file_patch_with_ranges` of
-- crates/asp-client/src/main.rs.
pub mod Rebuild
use asp.Base.{
  ℕ, ◌+◌, ◌-◌, Bool, true, false, not, ◌&&◌, Option, none, some, List, [], ◌∷◌, length, drop, slice,
  ltb, leb, ◌==◌, bytes_eq, if◌then◌else◌, saturating_add, saturating_sub, saturating_mul,
}
use asp.Patch.{FilePatchRange}
use asp.Patch.Contiguous.{Cut, cut, replacement_of, common_prefix, common_suffix}
use asp.Patch.Runs.{derive_run_ranges}
use asp.Patch.Lines.{derive_line_patch_ranges}

-- The function's body behind its prefix and suffix, as the cut `c`.
unfoldable pub derive_from_cut : List ℕ → List ℕ → Cut → List FilePatchRange
derive_from_cut old new c =
    let old_middle = slice old c.prefix (saturating_sub (length old) c.suffix) in
    let new_middle = slice new c.prefix (saturating_sub (length new) c.suffix) in
    if not (length old_middle == length new_middle)
    then elim (derive_line_patch_ranges old new) [
      | some ranges ↦ ranges
      | none ↦
          record { offset = c.prefix; remove_len = length old_middle; replacement = new_middle }
          ∷ []
    ]
    else derive_run_ranges c.prefix old_middle new_middle

unfoldable pub derive_file_patch_ranges : List ℕ → List ℕ → List FilePatchRange
unfolding derive_from_cut
derive_file_patch_ranges old new = derive_from_cut old new (cut old new)

-- ranges.iter().fold(0, |total, range| total.saturating_add(range.replacement.len()))
unfoldable pub replacement_len_from : ℕ → List FilePatchRange → ℕ
replacement_len_from total [] = total
replacement_len_from total (range ∷ ranges) =
    replacement_len_from (saturating_add total (length range.replacement)) ranges

unfoldable pub file_patch_ranges_replacement_len : List FilePatchRange → ℕ
unfolding replacement_len_from
file_patch_ranges_replacement_len ranges = replacement_len_from 0 ranges

unfoldable pub estimated_file_patch_ranges_wire_bytes : List FilePatchRange → ℕ
unfolding file_patch_ranges_replacement_len
estimated_file_patch_ranges_wire_bytes ranges =
    saturating_add (saturating_add 160 (saturating_mul (length ranges) 24))
      (file_patch_ranges_replacement_len ranges)

unfoldable pub should_use_file_patch : ℕ → ℕ → Bool
should_use_file_patch replacement_len full_file_len =
    ltb (saturating_add replacement_len 128) full_file_len

unfoldable pub should_use_file_patch_ranges : List FilePatchRange → ℕ → Bool
unfolding estimated_file_patch_ranges_wire_bytes
should_use_file_patch_ranges ranges full_file_len =
    ltb 1 (length ranges)
    && ltb (estimated_file_patch_ranges_wire_bytes ranges) full_file_len
    && ltb (file_patch_ranges_replacement_len ranges) full_file_len

-- What the client sends instead of the whole file.
pub data CachedFilePatch : Type 0 where
  unchanged : CachedFilePatch
  patch : ℕ → ℕ → List ℕ → CachedFilePatch
  ranges : List FilePatchRange → CachedFilePatch

-- The body of the loop of `cached_file_patch_with_ranges` for a file that has the requested path and
-- hash, whose cached bytes are `base`.
unfoldable pub cached_file_patch_of : List ℕ → List ℕ → Bool → Option CachedFilePatch
cached_file_patch_of base replacement_file allow_ranges =
    if bytes_eq base replacement_file
    then some unchanged
    else if allow_ranges
        && should_use_file_patch_ranges (derive_file_patch_ranges base replacement_file)
            (length replacement_file)
    then some (ranges (derive_file_patch_ranges base replacement_file))
    else if should_use_file_patch (length (replacement_of base replacement_file))
        (length replacement_file)
    then some (
        patch (cut base replacement_file).prefix (cut base replacement_file).suffix
          (replacement_of base replacement_file))
    else none

-- ===== src/Patch/Tests.antt =====
-- Runs of the patch functions, and the theorems about them at concrete files.
use asp.Base.{ℕ, ◌≡◌, refl, true, some, List, [], ◌∷◌, ◌++◌, replicate, ok, ◌↔◌, inl, length, arith}
use asp.Patch.Splice.{splice}
use asp.Patch.Materialize.{Accepted, materialize_exact}
use asp.Patch.Lines.Ends.{old_reached, new_reached, line_ranges_exact}
use asp.Patch.Runs.{derive_run_ranges}
use asp.Patch.{
  FilePatchRange, materialize_file_patch_ranges, check_ranges, check_range, write_ranges,
  new_length,
}
use asp.Patch.Derive.{
  cached_file_patch_of, should_use_file_patch_ranges, derive_file_patch_ranges, ranges, patch,
  should_use_file_patch,
}
use asp.Patch.Contiguous.{
  cut, common_suffix, replacement_of, apply_file_patch, apply_file_patch-cut,
}
use asp.Patch.Lines.{derive_line_patch_ranges}
use asp.Patch.Derive.Rebuild.{applied, ReadToEnd, FewRanges, cached_file_patch-applied}

abbrev common : List ℕ
common = replicate 120 b'c' ++ (10 ∷ [])

-- The last line of `base` is deleted, and two lines before it are changed.
abbrev base : List ℕ
base =
    (b'x' ∷ b'1' ∷ 10 ∷ []) ++ (common ++ ((b'x' ∷ b'2' ∷ 10 ∷ []) ++ (common ++ (b't' ∷ 10 ∷ []))))

abbrev new : List ℕ
new = (b'y' ∷ b'1' ∷ 10 ∷ []) ++ (common ++ ((b'y' ∷ b'2' ∷ 10 ∷ []) ++ common))

abbrev sent : List FilePatchRange
sent =
    record { offset = 0; remove_len = 3; replacement = b'y' ∷ b'1' ∷ 10 ∷ [] }
    ∷ record { offset = 124; remove_len = 3; replacement = b'y' ∷ b'2' ∷ 10 ∷ [] }
    ∷ []

-- The client chooses ranges that do not mention the deleted line,
sent_for_deletion : cached_file_patch_of base new true ≡ some (ranges sent)
unfolding cached_file_patch_of should_use_file_patch_ranges derive_file_patch_ranges cut
    common_suffix derive_line_patch_ranges
sent_for_deletion = refl

-- and the server stores the new file with the deleted line still at its end.
stored_for_deletion : materialize_file_patch_ranges base sent ≡ ok (new ++ (b't' ∷ 10 ∷ []))
unfolding materialize_file_patch_ranges check_ranges check_range write_ranges new_length
stored_for_deletion = refl

lines_for_deletion : derive_line_patch_ranges base new ≡ some sent
unfolding derive_line_patch_ranges
lines_for_deletion = refl

line_ranges_exact_example :
    (splice base 0 sent ≡ new)
    ↔ ((old_reached base new ≡ length base) × (new_reached base new ≡ length new))
line_ranges_exact_example = line_ranges_exact base new sent lines_for_deletion

abbrev two_edits : List FilePatchRange
two_edits =
    record { offset = 1; remove_len = 2; replacement = 9 ∷ [] }
    ∷ record { offset = 4; remove_len = 0; replacement = 7 ∷ 8 ∷ [] }
    ∷ []

materialize_exact_example :
    (materialize_file_patch_ranges (1 ∷ 2 ∷ 3 ∷ 4 ∷ 5 ∷ []) two_edits
      ≡ ok (1 ∷ 9 ∷ 4 ∷ 7 ∷ 8 ∷ 5 ∷ []))
    ↔ (Accepted (1 ∷ 2 ∷ 3 ∷ 4 ∷ 5 ∷ []) two_edits
        × (◌≡◌ {A = List ℕ}
            (1 ∷ 9 ∷ 4 ∷ 7 ∷ 8 ∷ 5 ∷ [])
            (splice (1 ∷ 2 ∷ 3 ∷ 4 ∷ 5 ∷ []) 0 two_edits)))
materialize_exact_example =
    materialize_exact (1 ∷ 2 ∷ 3 ∷ 4 ∷ 5 ∷ []) (1 ∷ 9 ∷ 4 ∷ 7 ∷ 8 ∷ 5 ∷ []) two_edits (omega arith)

abbrev before : List ℕ
before = replicate 150 b'a' ++ (b'b' ∷ [])

abbrev after : List ℕ
after = replicate 150 b'a' ++ (b'c' ∷ [])

apply_file_patch-cut_example :
    apply_file_patch before
      (cut before after).prefix
      (cut before after).suffix
      (replacement_of before after)
    ≡ ok after
apply_file_patch-cut_example = apply_file_patch-cut before after (omega arith) (omega arith)

patch_chosen : cached_file_patch_of before after true ≡ some (patch 150 0 (b'c' ∷ []))
unfolding cached_file_patch_of should_use_file_patch_ranges derive_file_patch_ranges cut
    common_suffix should_use_file_patch replacement_of derive_run_ranges
patch_chosen = refl

cached_file_patch-applied_example : applied before (patch 150 0 (b'c' ∷ [])) ≡ some after
cached_file_patch-applied_example =
    cached_file_patch-applied before after (omega arith) (omega arith) true
      (patch 150 0 (b'c' ∷ [])) patch_chosen (unfold ReadToEnd in inl refl) (unfold FewRanges in tt)

-- ===== src/Patch/Lines/Ends.antt =====
-- What the line-oriented ranges rebuild, and exactly when that is the new file.
use asp.Base.{
  ℕ, ◌+◌, ◌-◌, ◌≤◌, ◌≡◌, ◌⊎◌, ◌↔◌, ap, ap₂, ◌∙◌, some, List, ◌++◌, append-nil, map, length, take,
  drop, length-append, length-take, length-drop, take_all, drop_all, arith,
}
use asp.Patch.{FilePatchRange}
use asp.Patch.Splice.{splice, InOrder}
use asp.Patch.Edits.{range_of}
use asp.Patch.Lines.{files_of, walked, line_edits, coalesce_edits, derive_line_patch_ranges}
use asp.Patch.Lines.EditsTo.{EditsTo, EditsTo-InOrder, EditsTo-splice, coalesce_edits-EditsTo}
use asp.Patch.Lines.Split.{split_patch_lines-Tiles}
use asp.Patch.Lines.Steps.{
  AreTiled, old_at, new_at, line_edits-EditsTo, walked-ends, walked-in_files,
}

module _ (old new : List ℕ) where
  files-AreTiled : AreTiled (files_of old new)
  unfolding files_of
  files-AreTiled = record {
    old_tiled = split_patch_lines-Tiles old;
    new_tiled = split_patch_lines-Tiles new;
  }

  -- The byte positions at which the walk over the lines ends.
  pub old_reached : ℕ
  old_reached = old_at (files_of old new) (walked (files_of old new)).old_index

  pub new_reached : ℕ
  new_reached = new_at (files_of old new) (walked (files_of old new)).new_index

  reached_in_files : (old_reached ≤ length old) × (new_reached ≤ length new)
  unfolding old_reached new_reached files_of
  reached_in_files = walked-in_files (files_of old new) files-AreTiled

  -- One of the two files has been read to its end.
  pub reached_end : (old_reached ≡ length old) ⊎ (new_reached ≡ length new)
  unfolding old_reached new_reached files_of
  reached_end = walked-ends (files_of old new) files-AreTiled

  coalesced-EditsTo :
      EditsTo old new old_reached new_reached 0 0 (coalesce_edits (line_edits (files_of old new)))
  unfolding old_reached new_reached files_of
  coalesced-EditsTo =
      coalesce_edits-EditsTo old new (line_edits (files_of old new)) 0 0 old_reached new_reached
        (line_edits-EditsTo (files_of old new) files-AreTiled)

  derived_ranges :
      (ranges : List FilePatchRange)
      → derive_line_patch_ranges old new ≡ some ranges
      → ranges ≡ map (range_of new) (coalesce_edits (line_edits (files_of old new)))
  unfolding derive_line_patch_ranges
  derived_ranges ranges h = ground arith

  module _ (ranges : List FilePatchRange)
      (derived : derive_line_patch_ranges old new ≡ some ranges) where
    -- The ranges are in order, and give the new file as far as the walk read it, followed by what
    -- it left unread of the old one.
    pub line_ranges-splice :
        InOrder (length old) 0 ranges
        × (splice old 0 ranges ≡ take new_reached new ++ drop old_reached old)
    line_ranges-splice = rw (derived_ranges ranges derived) (
      EditsTo-InOrder old new (coalesce_edits (line_edits (files_of old new))) 0 0 old_reached
          new_reached reached_in_files.0 coalesced-EditsTo,
      EditsTo-splice old new (coalesce_edits (line_edits (files_of old new))) 0 0 old_reached
            new_reached coalesced-EditsTo
          ∙ ap (λ (k : ℕ). take k new ++ drop old_reached old) {y = new_reached} (omega arith),
    )

    -- The line-oriented ranges rebuild the new file exactly when the walk has read both files to
    -- their ends.
    pub line_ranges_exact :
        (splice old 0 ranges ≡ new) ↔ ((old_reached ≡ length old) × (new_reached ≡ length new))
    line_ranges_exact = (only_if, if_both)
      where
        unread : List ℕ
        unread = drop old_reached old

        lengths : length (splice old 0 ranges) ≡ new_reached + (length old - old_reached)
        lengths =
            ap length line_ranges-splice.1
            ∙ omega (
              arith,
              reached_in_files,
              length-append (take new_reached new) unread,
              length-take new_reached new,
              length-drop old_reached old,
            )

        only_if :
            splice old 0 ranges ≡ new → (old_reached ≡ length old) × (new_reached ≡ length new)
        only_if e = ground (arith, reached_end, reached_in_files, lengths, ap length e)

        if_both :
            (old_reached ≡ length old) × (new_reached ≡ length new) → splice old 0 ranges ≡ new
        if_both e =
            line_ranges-splice.1
            ∙ ap₂ ◌++◌ (take_all new_reached new (omega (arith, e.1)))
                (drop_all old_reached old (omega (arith, e.0)))
            ∙ append-nil new

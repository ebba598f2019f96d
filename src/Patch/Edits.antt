-- ===== src/Patch/Edits.antt =====
-- Edits in both coordinate systems at once, and when they describe the step from one file to
-- another: the meeting point of the two derivations of the client.
use asp.Base.{
  ℕ, ◌+◌, ◌-◌, ◌≤◌, ◌≡◌, ap, ap₂, ◌∙◌, sym, subst, List, [], ◌∷◌, ◌++◌, map, length, drop, slice,
  arith, slice-append-drop,
}
use asp.Patch.{FilePatchRange}
use asp.Patch.Splice.{splice, InOrder}

-- (old start, old end, new start, new end)
pub record Edit : Type 0 where
  pub old_start : ℕ
  pub old_end : ℕ
  pub new_start : ℕ
  pub new_end : ℕ

-- The range that the client sends for an edit.
abbrev pub range_of : List ℕ → Edit → FilePatchRange
range_of new e = record {
  offset = e.old_start;
  remove_len = e.old_end - e.old_start;
  replacement = slice new e.new_start e.new_end;
}

-- From the positions `i` and `j` on, the files agree between the edits.
abbrev pub IsEdits : List ℕ → List ℕ → ℕ → ℕ → List Edit → Type 0
IsEdits old new i j [] = (i ≤ length old) × (drop i old ≡ drop j new)
IsEdits old new i j (e ∷ es) =
    (i ≤ e.old_start)
    × (j ≤ e.new_start)
    × (e.old_start ≤ e.old_end)
    × (e.new_start ≤ e.new_end)
    × (slice old i e.old_start ≡ slice new j e.new_start)
    × IsEdits old new e.old_end e.new_end es

module _ (old new : List ℕ) where
  pub IsEdits-InOrder :
      (es : List Edit) (i j : ℕ)
      → IsEdits old new i j es
      → InOrder (length old) i (map (range_of new) es)
  IsEdits-InOrder [] i j h = h.0
  IsEdits-InOrder (e ∷ es) i j h = (
    h.0,
    let at_end : e.old_start + (e.old_end - e.old_start) ≡ e.old_end = omega (arith, h.2) in
        subst (λ k. InOrder (length old) k (map (range_of new) es)) (sym at_end)
          (IsEdits-InOrder es e.old_end e.new_end h.5),
  )

  -- The ranges of the edits turn the old file into the new one.
  pub IsEdits-splice :
      (es : List Edit) (i j : ℕ)
      → IsEdits old new i j es
      → splice old i (map (range_of new) es) ≡ drop j new
  IsEdits-splice [] i j h = h.1
  IsEdits-splice (e ∷ es) i j h =
      ap₂ ◌++◌ h.4 (
        ap (λ ys. slice new e.new_start e.new_end ++ ys)
          (ap (λ k. splice old k (map (range_of new) es)) at_end
            ∙ IsEdits-splice es e.old_end e.new_end h.5)
        ∙ slice-append-drop new e.new_start e.new_end h.3)
      ∙ slice-append-drop new j e.new_start h.1
    where
      at_end : e.old_start + (e.old_end - e.old_start) ≡ e.old_end
      at_end = omega (arith, h.2)

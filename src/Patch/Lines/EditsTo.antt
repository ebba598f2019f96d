-- ===== src/Patch/Lines/EditsTo.antt =====
-- Edits that are right up to given positions of the two files, and that coalescing keeps so.
use asp.Base.{
  ℕ, ◌+◌, ◌-◌, ◌≤◌, ◌≡◌, ap, ap₂, ◌∙◌, sym, subst, List, [], ◌∷◌, ◌++◌, map, length, drop, slice,
  arith, append_assoc, slice-append-drop, slice-append-slice, slice_empty, Bool-cases, inl, inr,
  leb, saturating_sub, true,
}
use asp.Patch.Splice.{splice, InOrder}
use asp.Patch.Edits.{Edit, range_of}
use asp.Patch.Runs.{file_patch_range_coalesce_gap_bytes}
use asp.Patch.Lines.{coalesce_edits, coalesce_edits_after, is_empty_edit}

-- From `i` and `j` up to `p` and `q` the files agree between the edits.
abbrev pub EditsTo : List ℕ → List ℕ → ℕ → ℕ → ℕ → ℕ → List Edit → Type 0
EditsTo old new p q i j [] = (i ≤ p) × (j ≤ q) × (slice old i p ≡ slice new j q)
EditsTo old new p q i j (e ∷ es) =
    (i ≤ e.old_start)
    × (j ≤ e.new_start)
    × (e.old_start ≤ e.old_end)
    × (e.new_start ≤ e.new_end)
    × (slice old i e.old_start ≡ slice new j e.new_start)
    × EditsTo old new p q e.old_end e.new_end es

module _ (old new : List ℕ) where
  -- Positions between which the files agree.
  abbrev pub Same : ℕ → ℕ → ℕ → ℕ → Type 0
  Same i j p q = (i ≤ p) × (j ≤ q) × (slice old i p ≡ slice new j q)

  pub Same-trans : (i j p q r s : ℕ) → Same i j p q → Same p q r s → Same i j r s
  Same-trans i j p q r s a b = (
    omega arith,
    omega arith,
    sym (slice-append-slice old i p r a.0 b.0)
        ∙ ap₂ ◌++◌ a.2 b.2
        ∙ slice-append-slice new j q s a.1 b.1,
  )

  pub EditsTo-extend :
      (es : List Edit) (i j p q r s : ℕ)
      → EditsTo old new p q i j es
      → Same p q r s
      → EditsTo old new r s i j es
  EditsTo-extend [] i j p q r s h same = Same-trans i j p q r s h same
  EditsTo-extend (e ∷ es) i j p q r s h same =
      (h.0, h.1, h.2, h.3, h.4, EditsTo-extend es e.old_end e.new_end p q r s h.5 same)

  pub EditsTo-snoc :
      (es : List Edit) (i j p q : ℕ) (e : Edit)
      → EditsTo old new p q i j es
      → Same p q e.old_start e.new_start
      → e.old_start ≤ e.old_end
      → e.new_start ≤ e.new_end
      → EditsTo old new e.old_end e.new_end i j (es ++ (e ∷ []))
  EditsTo-snoc [] i j p q e h same a b =
      let t : Same i j e.old_start e.new_start =
        Same-trans i j p q e.old_start e.new_start h same in
      (t.0, t.1, a, b, t.2, (omega arith, omega arith, empty))
    where
      empty : slice old e.old_end e.old_end ≡ slice new e.new_end e.new_end
      empty = slice_empty old e.old_end ∙ sym (slice_empty new e.new_end)
  EditsTo-snoc (d ∷ es) i j p q e h same a b =
      (h.0, h.1, h.2, h.3, h.4, EditsTo-snoc es d.old_end d.new_end p q e h.5 same a b)

  pub EditsTo-prepend :
      (es : List Edit) (i j k l p q : ℕ)
      → Same i j k l
      → EditsTo old new p q k l es
      → EditsTo old new p q i j es
  EditsTo-prepend [] i j k l p q same h = Same-trans i j k l p q same h
  EditsTo-prepend (e ∷ es) i j k l p q same h =
      let t : Same i j e.old_start e.new_start =
        Same-trans i j k l e.old_start e.new_start same (h.0, h.1, h.4) in
      (t.0, t.1, h.2, h.3, t.2, h.5)

  pub EditsTo-le : (es : List Edit) (i j p q : ℕ) → EditsTo old new p q i j es → (i ≤ p) × (j ≤ q)
  EditsTo-le [] i j p q h = (h.0, h.1)
  EditsTo-le (e ∷ es) i j p q h = omega (arith, h, EditsTo-le es e.old_end e.new_end p q h.5)

  pub EditsTo-InOrder :
      (es : List Edit) (i j p q : ℕ)
      → p ≤ length old
      → EditsTo old new p q i j es
      → InOrder (length old) i (map (range_of new) es)
  EditsTo-InOrder [] i j p q le h = omega (arith, h.0)
  EditsTo-InOrder (e ∷ es) i j p q le h = (
    h.0,
    subst (λ k. InOrder (length old) k (map (range_of new) es)) (sym at_end)
        (EditsTo-InOrder es e.old_end e.new_end p q le h.5),
  )
    where
      at_end : e.old_start + (e.old_end - e.old_start) ≡ e.old_end
      at_end = omega (arith, h.2)

  -- The ranges give the new file up to `q`, and then what the old file has from `p` on.
  pub EditsTo-splice :
      (es : List Edit) (i j p q : ℕ)
      → EditsTo old new p q i j es
      → splice old i (map (range_of new) es) ≡ slice new j q ++ drop p old
  EditsTo-splice [] i j p q h =
      sym (slice-append-drop old i p h.0) ∙ ap (λ ys. ys ++ drop p old) h.2
  EditsTo-splice (e ∷ es) i j p q h =
      ap₂ ◌++◌ h.4 (
        ap (λ ys. slice new e.new_start e.new_end ++ ys)
          (ap (λ k. splice old k (map (range_of new) es)) at_end
            ∙ EditsTo-splice es e.old_end e.new_end p q h.5)
        ∙ sym (append_assoc (slice new e.new_start e.new_end) (slice new e.new_end q) (drop p old))
        ∙ ap (λ ys. ys ++ drop p old) (slice-append-slice new e.new_start e.new_end q h.3 below.1))
      ∙ sym (append_assoc (slice new j e.new_start) (slice new e.new_start q) (drop p old))
      ∙ ap (λ ys. ys ++ drop p old)
          (slice-append-slice new j e.new_start q h.1 (omega (arith, h.3, below)))
    where
      at_end : e.old_start + (e.old_end - e.old_start) ≡ e.old_end
      at_end = omega (arith, h.2)

      below : (e.old_end ≤ p) × (e.new_end ≤ q)
      below = EditsTo-le es e.old_end e.new_end p q h.5

  empty-Same :
      (e : Edit) → is_empty_edit e ≡ true → Same e.old_start e.new_start e.old_end e.new_end
  empty-Same e h =
      let a : e.old_start ≡ e.old_end = ground arith in
      let b : e.new_start ≡ e.new_end = ground arith in
      (
        omega arith,
        omega arith,
        ap (λ k. slice old e.old_start k) (sym a)
            ∙ slice_empty old e.old_start
            ∙ sym (slice_empty new e.new_start)
            ∙ ap (λ k. slice new e.new_start k) b,
      )

  -- Taking out an empty edit.
  skip_empty :
      (e : Edit) (es : List Edit) (i j p q : ℕ)
      → is_empty_edit e ≡ true
      → EditsTo old new p q i j (e ∷ es)
      → EditsTo old new p q i j es
  skip_empty e es i j p q h edits =
      EditsTo-prepend es i j e.old_end e.new_end p q
        (Same-trans i j e.old_start e.new_start e.old_end e.new_end (edits.0, edits.1, edits.4)
          (empty-Same e h))
        edits.5

  coalesce_edits_after-EditsTo :
      (es : List Edit) (e : Edit) (i j p q : ℕ)
      → EditsTo old new p q i j (e ∷ es)
      → EditsTo old new p q i j (coalesce_edits_after e es)
  unfolding coalesce_edits_after
  coalesce_edits_after-EditsTo [] e i j p q h = h
  coalesce_edits_after-EditsTo (d ∷ es) e i j p q h = elim (Bool-cases (is_empty_edit d)) [
    | inl empty ↦ rw empty (
        coalesce_edits_after-EditsTo es e i j p q
          (h.0, h.1, h.2, h.3, h.4, skip_empty d es e.old_end e.new_end p q empty h.5))
    | inr full ↦
        rw full
          (elim (Bool-cases
            (leb (saturating_sub d.old_start e.old_end) file_patch_range_coalesce_gap_bytes)) [
              | inl near ↦ rw near (
                  coalesce_edits_after-EditsTo es
                    (record e { old_end = d.old_end; new_end = d.new_end }) i j p q
                    (h.0, h.1, omega arith, omega arith, h.4, h.5.5))
              | inr far ↦ rw far (
                h.0,
                h.1,
                h.2,
                h.3,
                h.4,
                coalesce_edits_after-EditsTo es d e.old_end e.new_end p q h.5,
              )
            ])
  ]

  pub coalesce_edits-EditsTo :
      (es : List Edit) (i j p q : ℕ)
      → EditsTo old new p q i j es
      → EditsTo old new p q i j (coalesce_edits es)
  unfolding coalesce_edits
  coalesce_edits-EditsTo [] i j p q h = h
  coalesce_edits-EditsTo (e ∷ es) i j p q h = elim (Bool-cases (is_empty_edit e)) [
    | inl empty ↦ rw empty (coalesce_edits-EditsTo es i j p q (skip_empty e es i j p q empty h))
    | inr full ↦ rw full (coalesce_edits_after-EditsTo es e i j p q h)
  ]

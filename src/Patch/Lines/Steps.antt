-- ===== src/Patch/Lines/Steps.antt =====
-- The walk over the table keeps its edits right up to the anchors, and stops where one file ends.
use asp.Base.{
  ℕ, zero, suc, ◌+◌, ◌-◌, ◌*◌, ◌≤◌, ◌<◌, ◌≡◌, ◌⊎◌, refl, ap, ◌∙◌, sym, subst, List, ◌++◌,
  append-nil, bytes_eq→eq, length, slice_empty, arith, ◌==◌, Bool-cases, inl, inr, true, false, ltb,
  leb, get_or, not, ◌||◌,
}
use native.Mathlib.Numerals.{add-one}
use asp.Patch.Lines.{
  Files, Walk, walk_start, in_range, same_line, walk_step, walk, walked, line_edits, pending_edit,
  patch_line_offset, line_bytes,
}
use asp.Patch.Lines.EditsTo.{EditsTo, Same, EditsTo-snoc, EditsTo-extend}
use asp.Patch.Lines.Split.{
  Tiles, patch_line_offset_mono, patch_line_offset_zero, patch_line_offset_end,
  patch_line_offset_le, line_bytes-eq-slice,
}

module _ (f : Files) where
  abbrev pub old_at : ℕ → ℕ
  old_at k = patch_line_offset f.old_lines k (length f.old)

  abbrev pub new_at : ℕ → ℕ
  new_at k = patch_line_offset f.new_lines k (length f.new)

  pub record AreTiled : Type 0 where
    pub old_tiled : Tiles (length f.old) 0 f.old_lines
    pub new_tiled : Tiles (length f.new) 0 f.new_lines

  pub record IsSound (s : Walk) : Type 0 where
    pub old_anchored : s.old_anchor ≤ s.old_index
    pub new_anchored : s.new_anchor ≤ s.new_index
    pub old_in : s.old_index ≤ length f.old_lines
    pub new_in : s.new_index ≤ length f.new_lines
    pub sound : EditsTo f.old f.new (old_at s.old_anchor) (new_at s.new_anchor) 0 0 s.edits

module _ (f : Files) (t : AreTiled f) where
  mono : (i j : ℕ) → i ≤ j → (old_at f i ≤ old_at f j) × (new_at f i ≤ new_at f j)
  mono i j h = omega (
    arith,
    patch_line_offset_mono (length f.old) 0 f.old_lines i (j - i) t.old_tiled,
    patch_line_offset_mono (length f.new) 0 f.new_lines i (j - i) t.new_tiled,
    ap (old_at f) {x = i + (j - i)} {y = j} (omega arith),
    ap (new_at f) {x = i + (j - i)} {y = j} (omega arith),
  )

  Same-refl : (p q : ℕ) → Same f.old f.new p q p q
  Same-refl p q = (omega arith, omega arith, slice_empty f.old p ∙ sym (slice_empty f.new q))

  -- With the pending edit the edits are right up to the current indices.
  pending_edit-EditsTo :
      (s : Walk)
      → IsSound f s
      → EditsTo f.old f.new
          (old_at f s.old_index)
          (new_at f s.new_index)
          0
          0
          (s.edits ++ pending_edit f s.old_anchor s.old_index s.new_anchor s.new_index)
  unfolding pending_edit
  pending_edit-EditsTo s v =
      elim (Bool-cases (not (s.old_index == s.old_anchor) || not (s.new_index == s.new_anchor))) [
        | inl moved ↦ rw moved (
            EditsTo-snoc f.old f.new s.edits 0 0 (old_at f s.old_anchor) (new_at f s.new_anchor) _
              v.sound (Same-refl (old_at f s.old_anchor) (new_at f s.new_anchor))
              (mono s.old_anchor s.old_index v.old_anchored).0
              (mono s.new_anchor s.new_index v.new_anchored).1)
        | inr still ↦
            let a : s.old_anchor ≡ s.old_index = ground arith in
            let b : s.new_anchor ≡ s.new_index = ground arith in
            rw (still, append-nil)
              (subst (λ k. EditsTo f.old f.new (old_at f k) (new_at f s.new_index) 0 0 s.edits) a
                (subst (λ k. EditsTo f.old f.new (old_at f s.old_anchor) (new_at f k) 0 0 s.edits) b
                  v.sound))
      ]

  same_line-Same :
      (i j : ℕ)
      → i < length f.old_lines
      → j < length f.new_lines
      → same_line f i j ≡ true
      → Same f.old f.new (old_at f i) (new_at f j) (old_at f (i + 1)) (new_at f (j + 1))
  unfolding same_line
  same_line-Same i j hi hj h = (
    (mono i (i + 1) (omega arith)).0,
    (mono j (j + 1) (omega arith)).1,
    rw (add-one i, add-one j)
        (sym (line_bytes-eq-slice f.old f.old_lines i hi t.old_tiled)
          ∙ bytes_eq→eq (line_bytes f.old f.old_lines i) (line_bytes f.new f.new_lines j) h
          ∙ line_bytes-eq-slice f.new f.new_lines j hj t.new_tiled),
  )

  walk_step-IsSound :
      (lcs : List ℕ) (s : Walk) → in_range f s ≡ true → IsSound f s → IsSound f (walk_step f lcs s)
  unfolding walk_step in_range
  walk_step-IsSound lcs s run v =
      let hi : s.old_index < length f.old_lines = ground arith in
      let hj : s.new_index < length f.new_lines = ground arith in
      elim (Bool-cases (same_line f s.old_index s.new_index)) [
        | inl same ↦ rw same (record {
          old_anchored = omega arith;
          new_anchored = omega arith;
          old_in = omega arith;
          new_in = omega arith;
          sound =
              EditsTo-extend f.old f.new
                (s.edits ++ pending_edit f s.old_anchor s.old_index s.new_anchor s.new_index) 0 0
                (old_at f s.old_index) (new_at f s.new_index) (old_at f (s.old_index + 1))
                (new_at f (s.new_index + 1)) (pending_edit-EditsTo s v)
                (same_line-Same s.old_index s.new_index hi hj same);
        })
        | inr differ ↦
            rw differ
              (elim (Bool-cases (
                leb (get_or lcs (s.old_index * f.width + s.new_index + 1) 0)
                  (get_or lcs ((s.old_index + 1) * f.width + s.new_index) 0))) [
                    | inl down ↦ rw down (record {
                      old_anchored = omega (arith, v.old_anchored);
                      new_anchored = v.new_anchored;
                      old_in = omega arith;
                      new_in = v.new_in;
                      sound = v.sound;
                    })
                    | inr right ↦ rw right (record {
                      old_anchored = v.old_anchored;
                      new_anchored = omega (arith, v.new_anchored);
                      old_in = v.old_in;
                      new_in = omega arith;
                      sound = v.sound;
                    })
                  ])
      ]

  walk-IsSound : (fuel : ℕ) (lcs : List ℕ) (s : Walk) → IsSound f s → IsSound f (walk fuel f lcs s)
  unfolding walk
  walk-IsSound zero lcs s v = v
  walk-IsSound (suc fuel) lcs s v = elim (Bool-cases (in_range f s)) [
    | inl run ↦ rw run (walk-IsSound fuel lcs (walk_step f lcs s) (walk_step-IsSound lcs s run v))
    | inr stop ↦ rw stop v
  ]

  -- Every round moves on.
  walk_step-grows :
      (lcs : List ℕ) (s : Walk)
      → s.old_index + s.new_index < (walk_step f lcs s).old_index + (walk_step f lcs s).new_index
  unfolding walk_step
  walk_step-grows lcs s = ground arith

  -- With enough fuel the walk stops by its test.
  walk-stops :
      (fuel : ℕ) (lcs : List ℕ) (s : Walk)
      → length f.old_lines + length f.new_lines ≤ s.old_index + s.new_index + fuel
      → IsSound f s
      → in_range f (walk fuel f lcs s) ≡ false
  unfolding walk
  walk-stops zero lcs s enough v = unfold in_range in ground (arith, v.old_in, v.new_in)
  walk-stops (suc fuel) lcs s enough v = elim (Bool-cases (in_range f s)) [
    | inl run ↦ rw run (
        walk-stops fuel lcs (walk_step f lcs s) (omega (arith, walk_step-grows lcs s))
          (walk_step-IsSound lcs s run v))
    | inr stop ↦ rw stop stop
  ]

  start-IsSound : IsSound f walk_start
  start-IsSound = record {
    old_anchored = omega arith;
    new_anchored = omega arith;
    old_in = omega arith;
    new_in = omega arith;
    sound =
        let a : old_at f 0 ≡ 0 = patch_line_offset_zero (length f.old) 0 f.old_lines t.old_tiled in
        let b : new_at f 0 ≡ 0 = patch_line_offset_zero (length f.new) 0 f.new_lines t.new_tiled in
        rw (a, b) (omega arith, omega arith, refl);
  }

  -- When the walk has ended the edits are right up to its indices, one of which is at its end.
  pub line_edits-EditsTo :
      EditsTo f.old f.new
        (old_at f (walked f).old_index)
        (new_at f (walked f).new_index)
        0
        0
        (line_edits f)
  unfolding line_edits walked
  line_edits-EditsTo = pending_edit-EditsTo (walked f) (walk-IsSound _ _ walk_start start-IsSound)

  walked-stops : IsSound f (walked f) × (in_range f (walked f) ≡ false)
  unfolding walked
  walked-stops = (
    walk-IsSound _ _ walk_start start-IsSound,
    walk-stops (length f.old_lines + length f.new_lines) _ walk_start (omega arith) start-IsSound,
  )

  pub walked-ends :
      (old_at f (walked f).old_index ≡ length f.old)
      ⊎ (new_at f (walked f).new_index ≡ length f.new)
  unfolding in_range
  walked-ends = elim (Bool-cases (ltb (walked f).old_index (length f.old_lines))) [
    | inl more ↦ inr (
        patch_line_offset_end (length f.new) f.new_lines (walked f).new_index
          (ground (arith, walked-stops.1)))
    | inr done ↦
        inl (patch_line_offset_end (length f.old) f.old_lines (walked f).old_index (ground arith))
  ]

  pub walked-in_files :
      (old_at f (walked f).old_index ≤ length f.old)
      × (new_at f (walked f).new_index ≤ length f.new)
  walked-in_files = (
    (patch_line_offset_le (length f.old) 0 f.old_lines (walked f).old_index t.old_tiled).1,
    (patch_line_offset_le (length f.new) 0 f.new_lines (walked f).new_index t.new_tiled).1,
  )

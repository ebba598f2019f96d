-- ===== src/Patch/Runs/Agree.antt =====
-- Between the runs the two files agree.
use asp.Base.{
  ℕ, zero, suc, ◌+◌, ◌≤◌, ◌≡◌, refl, ap, ap₂, ◌∙◌, sym, subst, List, [], ◌∷◌, ◌++◌, map, length,
  drop, slice, arith, length-drop, length-append, slice-append-drop, slice_empty, slice_snoc,
  drop-append_le, drop-drop, ◌==◌, ==_iff, Bool-cases, inl, inr,
}
use asp.Patch.Edits.{Edit, IsEdits}
use asp.Patch.Runs.{Run, changed_length, changed_runs}

-- A run as an edit of the whole files, whose middles start at `prefix`.
abbrev pub widen : ℕ → Run → Edit
widen prefix run = record {
  old_start = prefix + run.start;
  old_end = prefix + run.stop;
  new_start = prefix + run.start;
  new_end = prefix + run.stop;
}

pub changed_length-le :
    (xs ys : List ℕ) → (changed_length xs ys ≤ length xs) × (changed_length xs ys ≤ length ys)
unfolding changed_length
changed_length-le (x ∷ xs) (y ∷ ys) = ground (arith, changed_length-le xs ys)
changed_length-le [] ys = omega arith
changed_length-le (x ∷ xs) [] = omega arith

module _ (old new : List ℕ) (prefix : ℕ) (end : List ℕ) where
  -- Position `prefix + index` of both files is where the rests of the middles stand.
  abbrev pub At : ℕ → List ℕ → List ℕ → Type 0
  At index olds news =
      (drop (prefix + index) old ≡ olds ++ end)
      × (drop (prefix + index) new ≡ news ++ end)
      × (length olds ≡ length news)
      × (prefix + index ≤ length old)

  drop-At :
      (file rest : List ℕ) (index index' n : ℕ)
      → index' ≡ index + n
      → n ≤ length rest
      → drop (prefix + index) file ≡ rest ++ end
      → drop (prefix + index') file ≡ drop n rest ++ end
  drop-At file rest index index' n eq h e =
      ap (λ (k : ℕ). drop k file) {y = prefix + index + n} (omega arith)
      ∙ sym (drop-drop n (prefix + index) file)
      ∙ ap (drop n) e
      ∙ drop-append_le n rest end h

  At-drop :
      (index index' n : ℕ) (olds news : List ℕ)
      → index' ≡ index + n
      → n ≤ length olds
      → At index olds news
      → At index' (drop n olds) (drop n news)
  At-drop index index' n olds news eq h at = (
    drop-At old olds index index' n eq h at.0,
    drop-At new news index index' n eq (omega (arith, at.2)) at.1,
    omega (arith, at.2, length-drop n olds, length-drop n news),
    omega (
      arith,
      eq,
      at.3,
      h,
      length-drop (prefix + index) old,
      ap length at.0,
      length-append olds end,
    ),
  )

  drop_agree :
      (i j : ℕ)
      → i ≤ j
      → slice old i j ≡ slice new i j
      → drop j old ≡ drop j new
      → drop i old ≡ drop i new
  drop_agree i j h same e =
      sym (slice-append-drop old i j h) ∙ ap₂ ◌++◌ same e ∙ slice-append-drop new i j h

  slice_agree :
      (index i x y : ℕ) (xs ys : List ℕ)
      → i ≤ prefix + index
      → x ≡ y
      → slice old i (prefix + index) ≡ slice new i (prefix + index)
      → At index (x ∷ xs) (y ∷ ys)
      → slice old i (prefix + (index + 1)) ≡ slice new i (prefix + (index + 1))
  slice_agree index i x y xs ys h eq same at =
      subst (λ k. slice old i k ≡ slice new i k) {x = prefix + index + 1} (omega arith)
        (slice_snoc old i (prefix + index) x (xs ++ end) h at.0
          ∙ ap₂ (λ zs z. zs ++ (z ∷ [])) same eq
          ∙ sym (slice_snoc new i (prefix + index) y (ys ++ end) h at.1))

  -- From cursor `i`, equal up to the current index, the runs that the loop finds are edits.
  pub changed_runs-IsEdits :
      (fuel index i : ℕ) (olds news : List ℕ)
      → length olds ≤ fuel
      → i ≤ prefix + index
      → slice old i (prefix + index) ≡ slice new i (prefix + index)
      → At index olds news
      → IsEdits old new i i (map (widen prefix) (changed_runs fuel index olds news))
  unfolding changed_runs
  changed_runs-IsEdits zero index i [] [] enough le same at =
      (omega (arith, at.3), drop_agree i (prefix + index) le same (at.0 ∙ sym at.1))
  changed_runs-IsEdits (suc fuel) index i [] [] enough le same at =
      (omega (arith, at.3), drop_agree i (prefix + index) le same (at.0 ∙ sym at.1))
  changed_runs-IsEdits fuel index i [] (y ∷ ys) enough le same at = absurd (omega (arith, at.2))
  changed_runs-IsEdits fuel index i (x ∷ xs) [] enough le same at = absurd (omega (arith, at.2))
  changed_runs-IsEdits zero index i (x ∷ xs) (y ∷ ys) enough le same at = absurd (omega arith)
  changed_runs-IsEdits (suc fuel) index i (x ∷ xs) (y ∷ ys) enough le same at =
      elim (Bool-cases (x == y)) [
        | inl equal ↦ rw equal (
            changed_runs-IsEdits fuel (index + 1) i xs ys (omega arith) (omega arith)
              (slice_agree index i x y xs ys le ((==_iff x y).0 equal) same at)
              (At-drop index (index + 1) 1 (x ∷ xs) (y ∷ ys) refl (omega arith) at))
        | inr differ ↦
            let n : ℕ = changed_length xs ys in
            let next : ℕ = index + 1 + n in
            rw differ (
              le,
              le,
              omega arith,
              omega arith,
              same,
              changed_runs-IsEdits fuel next (prefix + next) (drop n xs) (drop n ys)
                  (omega (arith, length-drop n xs)) (omega arith)
                  (slice_empty old (prefix + next) ∙ sym (slice_empty new (prefix + next)))
                  (At-drop index next (suc n) (x ∷ xs) (y ∷ ys) (omega arith)
                    (omega (arith, changed_length-le xs ys)) at),
            )
      ]

-- ===== src/Patch/Runs/Coalesce.antt =====
-- Coalescing keeps the runs correct, and the ranges that are sent rebuild the new file.
use asp.Base.{
  ℕ, zero, suc, ◌+◌, ◌-◌, ◌≤◌, ◌≡◌, refl, ap, ap₂, ◌∙◌, sym, List, [], ◌∷◌, ◌++◌, map, length, take,
  drop, slice, arith, length-drop, length-take, slice-append-drop, slice-slice, ◌==◌, Bool-cases,
  inl, inr, saturating_sub, leb,
}
use asp.Patch.{FilePatchRange}
use asp.Patch.Splice.{splice, InOrder}
use asp.Patch.Contiguous.{Cut, IsCut}
use asp.Patch.Edits.{Edit, IsEdits, range_of, IsEdits-InOrder, IsEdits-splice}
use asp.Patch.Runs.{
  Run, changed_length, changed_runs, coalesce, coalesce_after, range_of_run, derive_run_ranges,
  file_patch_range_coalesce_gap_bytes,
}
use asp.Patch.Runs.Agree.{widen, changed_runs-IsEdits, changed_length-le}

module _ (old new : List ℕ) (prefix : ℕ) where
  coalesce_after-IsEdits :
      (runs : List Run) (run : Run) (i : ℕ)
      → IsEdits old new i i (map (widen prefix) (run ∷ runs))
      → IsEdits old new i i (map (widen prefix) (coalesce_after run runs))
  unfolding coalesce_after
  coalesce_after-IsEdits [] run i h = h
  coalesce_after-IsEdits (next ∷ runs) run i h =
      elim (Bool-cases
        (leb (saturating_sub next.start run.stop) file_patch_range_coalesce_gap_bytes)) [
          | inl near ↦ rw near (
              coalesce_after-IsEdits runs (record { start = run.start; stop = next.stop }) i
                (h.0, h.1, omega arith, omega arith, h.4, h.5.5))
          | inr far ↦
              rw far
                (h.0, h.1, h.2, h.3, h.4, coalesce_after-IsEdits runs next (prefix + run.stop) h.5)
        ]

  coalesce-IsEdits :
      (runs : List Run) (i : ℕ)
      → IsEdits old new i i (map (widen prefix) runs)
      → IsEdits old new i i (map (widen prefix) (coalesce runs))
  unfolding coalesce
  coalesce-IsEdits [] i h = h
  coalesce-IsEdits (run ∷ runs) i h = coalesce_after-IsEdits runs run i h

-- Every run ends within the middle.
abbrev Within : ℕ → List Run → Type 0
Within m [] = Unit {0}
Within m (run ∷ runs) = (run.stop ≤ m) × Within m runs

changed_runs-Within :
    (m fuel index : ℕ) (olds news : List ℕ)
    → index + length olds ≤ m
    → Within m (changed_runs fuel index olds news)
unfolding changed_runs
changed_runs-Within m zero index olds news h = tt
changed_runs-Within m (suc fuel) index [] news h = tt
changed_runs-Within m (suc fuel) index (x ∷ xs) [] h = tt
changed_runs-Within m (suc fuel) index (x ∷ xs) (y ∷ ys) h = elim (Bool-cases (x == y)) [
  | inl equal ↦ rw equal (changed_runs-Within m fuel (index + 1) xs ys (omega arith))
  | inr differ ↦
      let n : ℕ = changed_length xs ys in
      rw differ (
        omega (arith, changed_length-le xs ys),
        changed_runs-Within m fuel (index + 1 + n) (drop n xs) (drop n ys)
            (omega (arith, changed_length-le xs ys, length-drop n xs)),
      )
]

coalesce_after-Within :
    (m : ℕ) (runs : List Run) (run : Run)
    → run.stop ≤ m
    → Within m runs
    → Within m (coalesce_after run runs)
unfolding coalesce_after
coalesce_after-Within m [] run h hs = (h, tt)
coalesce_after-Within m (next ∷ runs) run h hs =
    elim (Bool-cases
      (leb (saturating_sub next.start run.stop) file_patch_range_coalesce_gap_bytes)) [
        | inl near ↦ rw near (
            coalesce_after-Within m runs (record { start = run.start; stop = next.stop }) hs.0 hs.1)
        | inr far ↦ rw far (h, coalesce_after-Within m runs next hs.0 hs.1)
      ]

coalesce-Within : (m : ℕ) (runs : List Run) → Within m runs → Within m (coalesce runs)
unfolding coalesce
coalesce-Within m [] h = h
coalesce-Within m (run ∷ runs) h = coalesce_after-Within m runs run h.0 h.1

-- A run's range is that of its edit of the whole files.
map-range_of_run :
    (new : List ℕ) (prefix stop : ℕ) (runs : List Run)
    → Within (stop - prefix) runs
    → map (range_of_run prefix (slice new prefix stop)) runs
      ≡ map (range_of new) (map (widen prefix) runs)
unfolding range_of_run
map-range_of_run new prefix stop [] h = refl
map-range_of_run new prefix stop (run ∷ runs) h =
    ap₂ (λ (r : FilePatchRange) rs. r ∷ rs)
      (λ i. record {
        offset = prefix + run.start;
        remove_len = removal i;
        replacement = slice-slice new prefix stop run.start run.stop h.0 i;
      })
      (map-range_of_run new prefix stop runs h.1)
  where
    removal : run.stop - run.start ≡ prefix + run.stop - (prefix + run.start)
    removal = omega arith

-- The equal-length derivation: what an abstract cut with equal middles yields.
module _ (old new : List ℕ) (c : Cut) (is_cut : IsCut old new c)
    (even : length old ≡ length new) where
  abbrev pub old_middle : List ℕ
  old_middle = slice old c.prefix (length old - c.suffix)

  abbrev pub new_middle : List ℕ
  new_middle = slice new c.prefix (length new - c.suffix)

  abbrev pub runs : List Run
  runs = changed_runs (length old_middle) 0 old_middle new_middle

  abbrev pub edits : List Edit
  edits = map (widen c.prefix) (coalesce runs)

  length-middle :
      (file : List ℕ)
      → c.prefix + c.suffix ≤ length file
      → length (slice file c.prefix (length file - c.suffix)) ≡ length file - c.suffix - c.prefix
  length-middle file h = omega (
    arith,
    h,
    length-take (length file - c.suffix - c.prefix) (drop c.prefix file),
    length-drop c.prefix file,
  )

  middle_rest :
      (file : List ℕ)
      → c.prefix + c.suffix ≤ length file
      → drop (c.prefix + 0) file
        ≡ slice file c.prefix (length file - c.suffix) ++ drop (length file - c.suffix) file
  middle_rest file h =
      ap (λ (k : ℕ). drop k file) {y = c.prefix} (omega arith)
      ∙ sym (slice-append-drop file c.prefix (length file - c.suffix) (omega arith))

  runs-IsEdits : IsEdits old new 0 0 edits
  runs-IsEdits = coalesce-IsEdits old new c.prefix runs 0 (
      changed_runs-IsEdits old new c.prefix (drop (length old - c.suffix) old) (length old_middle) 0
        0 old_middle new_middle (omega arith) (omega arith)
        (ap (λ (k : ℕ). take k old) {y = c.prefix} (omega arith)
          ∙ is_cut.same_prefix
          ∙ ap (λ (k : ℕ). take k new) {x = c.prefix} (omega arith))
        (
          middle_rest old is_cut.in_old,
          middle_rest new is_cut.in_new ∙ ap (λ ys. new_middle ++ ys) (sym is_cut.same_suffix),
          omega (arith, even, length-middle old is_cut.in_old, length-middle new is_cut.in_new),
          omega (arith, is_cut.in_old),
        ))

  runs-Within : Within (length new - c.suffix - c.prefix) (coalesce runs)
  runs-Within = coalesce-Within (length new - c.suffix - c.prefix) runs (
      changed_runs-Within (length new - c.suffix - c.prefix) (length old_middle) 0 old_middle
        new_middle (omega (arith, even, length-middle old is_cut.in_old)))

  derive_run_ranges-eq-edits :
      derive_run_ranges c.prefix old_middle new_middle ≡ map (range_of new) edits
  unfolding derive_run_ranges
  derive_run_ranges-eq-edits =
      map-range_of_run new c.prefix (length new - c.suffix) (coalesce runs) runs-Within

  -- The ranges are in order and rebuild the new file.
  pub derive_run_ranges-splice :
      InOrder (length old) 0 (derive_run_ranges c.prefix old_middle new_middle)
      × (splice old 0 (derive_run_ranges c.prefix old_middle new_middle) ≡ new)
  derive_run_ranges-splice = rw derive_run_ranges-eq-edits (
    IsEdits-InOrder old new edits 0 0 runs-IsEdits,
    IsEdits-splice old new edits 0 0 runs-IsEdits,
  )

-- ===== src/Patch/Runs.antt =====
-- The equal-length half of `derive_file_patch_ranges` in crates/asp-client/src/main.rs: runs of
-- changed bytes in the middle of the file, coalesced over small gaps.
pub mod Coalesce
pub mod Agree
use asp.Base.{
  ℕ, zero, suc, ◌+◌, ◌-◌, Bool, true, false, List, [], ◌∷◌, map, length, drop, slice, leb, ◌==◌,
  if◌then◌else◌, saturating_sub,
}
use asp.Patch.{FilePatchRange}

abbrev pub file_patch_range_coalesce_gap_bytes : ℕ
file_patch_range_coalesce_gap_bytes = 32

-- A run of changed bytes, `start..end` in the middle.
pub record Run : Type 0 where
  pub start : ℕ
  pub stop : ℕ

-- The inner loop: how many further positions differ before the next equal one or the end.
unfoldable pub changed_length : List ℕ → List ℕ → ℕ
changed_length (x ∷ xs) (y ∷ ys) = let rest = changed_length xs ys in if x == y then 0 else rest + 1
changed_length _ _ = 0

-- The outer loop, from `index` on; the lists are what is left of the two middles. Each round takes
-- at least one byte, so the length of the old middle is enough fuel.
unfoldable pub changed_runs : ℕ → ℕ → List ℕ → List ℕ → List Run
changed_runs (suc fuel) index (x ∷ xs) (y ∷ ys) =
    let unchanged = changed_runs fuel (index + 1) xs ys in
    let n = changed_length xs ys in
    let changed =
      record { start = index; stop = index + 1 + n }
      ∷ changed_runs fuel (index + 1 + n) (drop n xs) (drop n ys) in
    if x == y then unchanged else changed
changed_runs _ index _ _ = []

-- The coalescing loop; `previous` is the last element of `coalesced`.
unfoldable pub coalesce_after : Run → List Run → List Run
coalesce_after previous [] = previous ∷ []
coalesce_after previous (run ∷ runs) =
    let joined = coalesce_after (record { start = previous.start; stop = run.stop }) runs in
    let apart = previous ∷ coalesce_after run runs in
    if leb (saturating_sub run.start previous.stop) file_patch_range_coalesce_gap_bytes
    then joined
    else apart

unfoldable pub coalesce : List Run → List Run
unfolding coalesce_after
coalesce [] = []
coalesce (run ∷ runs) = coalesce_after run runs

-- The range that is sent for a run.
unfoldable pub range_of_run : ℕ → List ℕ → Run → FilePatchRange
range_of_run prefix new_middle run = record {
  offset = prefix + run.start;
  remove_len = run.stop - run.start;
  replacement = slice new_middle run.start run.stop;
}

-- From `let mut runs` to the end of the function.
unfoldable pub derive_run_ranges : ℕ → List ℕ → List ℕ → List FilePatchRange
unfolding changed_runs changed_length coalesce range_of_run
derive_run_ranges prefix old_middle new_middle =
    map (range_of_run prefix new_middle)
      (coalesce (changed_runs (length old_middle) 0 old_middle new_middle))

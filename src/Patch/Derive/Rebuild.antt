-- ===== src/Patch/Derive/Rebuild.antt =====
-- What the client derives, the server turns back into the new file.
use asp.Base.{
  ℕ, ◌+◌, ◌-◌, ◌≤◌, ◌≡◌, ◌⊎◌, ap, ◌∙◌, sym, subst, ◌&&◌, Bool, true, false, Option, none, some,
  List, [], ◌∷◌, ◌++◌, append_assoc, length, take, drop, slice, length-take, length-drop, arith,
  ◌==◌, ==_iff, bytes_eq→eq, bytes_eq, Bool-cases, Option-cases, inl, inr, Result, ok, err,
}
use asp.Patch.{FilePatchRange, materialize_file_patch_ranges, max_file_patch_ranges, file_max_bytes}
use asp.Patch.Splice.{splice, InOrder}
use asp.Patch.Materialize.{materialize_exact}
use asp.Patch.Contiguous.{
  Cut, IsCut, cut, cut-IsCut, replacement_of, apply_file_patch, apply_file_patch-cut, IsCut-rebuild,
}
use asp.Patch.Runs.Coalesce.{derive_run_ranges-splice}
use asp.Patch.Lines.{derive_line_patch_ranges}
use asp.Patch.Lines.Ends.{old_reached, new_reached, line_ranges-splice, line_ranges_exact}
use asp.Patch.Derive.{
  derive_from_cut, derive_file_patch_ranges, should_use_file_patch_ranges, should_use_file_patch,
  CachedFilePatch, unchanged, patch, ranges, cached_file_patch_of,
}

abbrev stored : {E : Type 0} → Result E (List ℕ) → Option (List ℕ)
stored (ok out) = some out
stored (err e) = none

-- The case in which the line walk is not used, or has read both files to their ends.
unfoldable pub ReadToEnd : List ℕ → List ℕ → Type 0
ReadToEnd old new =
    (length old ≡ length new)
    ⊎ (derive_line_patch_ranges old new ≡ none)
    ⊎ ((old_reached old new ≡ length old) × (new_reached old new ≡ length new))

module _ (old new : List ℕ) where
  abbrev Rebuilds : List FilePatchRange → Type 0
  Rebuilds rs = InOrder (length old) 0 rs × (splice old 0 rs ≡ new)

  middle_lengths :
      (c : Cut)
      → IsCut old new c
      → (length (slice old c.prefix (length old - c.suffix)) ≡ length old - c.suffix - c.prefix)
        × (length (slice new c.prefix (length new - c.suffix)) ≡ length new - c.suffix - c.prefix)
  middle_lengths c h = omega (
    arith,
    h.in_old,
    h.in_new,
    length-take (length old - c.suffix - c.prefix) (drop c.prefix old),
    length-drop c.prefix old,
    length-take (length new - c.suffix - c.prefix) (drop c.prefix new),
    length-drop c.prefix new,
  )

  -- One range for the whole middle.
  one_range-Rebuilds :
      (c : Cut)
      → IsCut old new c
      → Rebuilds (
          record {
            offset = c.prefix;
            remove_len = length (slice old c.prefix (length old - c.suffix));
            replacement = slice new c.prefix (length new - c.suffix);
          }
          ∷ [])
  one_range-Rebuilds c h = (
    (omega arith, omega (arith, h.in_old, middle_lengths c h)),
    ap (λ (k : ℕ). take k old ++ (middle ++ drop stop old)) {x = c.prefix - 0} {y = c.prefix}
          (omega arith)
        ∙ ap (λ (j : ℕ). take c.prefix old ++ (middle ++ drop j old)) {y = length old - c.suffix}
            (omega (arith, h.in_old, middle_lengths c h))
        ∙ sym (
            append_assoc (take c.prefix old) (slice new c.prefix (length new - c.suffix))
              (drop (length old - c.suffix) old))
        ∙ IsCut-rebuild old new c h,
  )
    where
      middle : List ℕ
      middle = slice new c.prefix (length new - c.suffix)

      stop : ℕ
      stop = c.prefix + length (slice old c.prefix (length old - c.suffix))

  derive_from_cut-Rebuilds :
      (c : Cut) → IsCut old new c → ReadToEnd old new → Rebuilds (derive_from_cut old new c)
  unfolding derive_from_cut ReadToEnd
  derive_from_cut-Rebuilds c h to_end =
      elim (Bool-cases (
        length (slice old c.prefix (length old - c.suffix))
        == length (slice new c.prefix (length new - c.suffix)))) [
          | inl even ↦ rw even (
              derive_run_ranges-splice old new c h
                (omega (arith, h, middle_lengths c h, (==_iff _ _).0 even)))
          | inr uneven ↦ rw uneven (elim (Option-cases (derive_line_patch_ranges old new)) [
            | inl fallback ↦ rw fallback (one_range-Rebuilds c h)
            | inr (rs, derived) ↦ rw derived (
              (line_ranges-splice old new rs derived).0,
              (line_ranges_exact old new rs derived).1 (both uneven rs derived to_end),
            )
          ])
        ]
    where
      both :
          (length (slice old c.prefix (length old - c.suffix))
              == length (slice new c.prefix (length new - c.suffix)))
            ≡ false
          → (rs : List FilePatchRange) → derive_line_patch_ranges old new ≡ some rs
          → ReadToEnd old new
          → (old_reached old new ≡ length old) × (new_reached old new ≡ length new)
      both uneven rs derived (inl even) = absurd (ground (arith, middle_lengths c h))
      both uneven rs derived (inr (inl fallback)) = absurd (ground arith)
      both uneven rs derived (inr (inr reached)) = reached

  derive_file_patch_ranges-Rebuilds :
      ReadToEnd old new → Rebuilds (derive_file_patch_ranges old new)
  unfolding derive_file_patch_ranges
  derive_file_patch_ranges-Rebuilds to_end =
      derive_from_cut-Rebuilds (cut old new) (cut-IsCut old new) to_end

-- What the server stores for the client's choice: nothing, or the arm of its handler.
unfoldable pub applied : List ℕ → CachedFilePatch → Option (List ℕ)
applied base unchanged = some base
applied base (patch prefix suffix replacement) =
    stored (apply_file_patch base prefix suffix replacement)
applied base (ranges rs) = stored (materialize_file_patch_ranges base rs)

unfoldable pub FewRanges : CachedFilePatch → Type 0
FewRanges unchanged = Unit {0}
FewRanges (patch prefix suffix replacement) = Unit {0}
FewRanges (ranges rs) = length rs ≤ max_file_patch_ranges

module _ (base new : List ℕ) (small : length base ≤ file_max_bytes)
    (fits : length new ≤ file_max_bytes) where
  ranges-applied :
      ReadToEnd base new
      → length (derive_file_patch_ranges base new) ≤ max_file_patch_ranges
      → should_use_file_patch_ranges (derive_file_patch_ranges base new) (length new) ≡ true
      → materialize_file_patch_ranges base (derive_file_patch_ranges base new) ≡ ok new
  unfolding should_use_file_patch_ranges
  ranges-applied to_end few use' =
      let (ordered, rebuilt) = derive_file_patch_ranges-Rebuilds base new to_end in
      (materialize_exact base new (derive_file_patch_ranges base new) (omega arith)).1 (
        record {
          some_ranges = ground arith;
          few_ranges = few;
          ordered = ordered;
          fits = rw rebuilt fits;
        },
        sym rebuilt,
      )

  -- Whatever the client sends in place of the whole file, the server stores the new file: for files
  -- within 16 MiB, if the line walk (where it is used) read both to their ends and there are at most
  -- 4096 ranges.
  pub cached_file_patch-applied :
      (allow_ranges : Bool) (choice : CachedFilePatch)
      → cached_file_patch_of base new allow_ranges ≡ some choice
      → ReadToEnd base new
      → FewRanges choice
      → applied base choice ≡ some new
  unfolding cached_file_patch_of applied FewRanges
  cached_file_patch-applied allow_ranges choice chosen to_end few =
      elim (Bool-cases (bytes_eq base new)) [
        | inl same ↦ ground (arith, bytes_eq→eq base new same)
        | inr differ ↦
            elim (Bool-cases (
              allow_ranges
              && should_use_file_patch_ranges (derive_file_patch_ranges base new) (length new))) [
                | inl by_ranges ↦
                    let e : choice ≡ ranges (derive_file_patch_ranges base new) = ground arith in
                    rw e (ap stored (ranges-applied to_end (subst FewRanges e few) (ground arith)))
                | inr whole ↦
                    elim (Bool-cases
                      (should_use_file_patch (length (replacement_of base new)) (length new))) [
                        | inl by_patch ↦
                            let e : choice
                                ≡ patch (cut base new).prefix (cut base new).suffix
                                    (replacement_of base new) =
                              ground arith in
                            rw e (ap stored (apply_file_patch-cut base new small fits))
                        | inr neither ↦ absurd (ground arith)
                      ]
              ]
      ]

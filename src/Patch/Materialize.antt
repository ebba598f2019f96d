-- ===== src/Patch/Materialize.antt =====
-- `materialize_file_patch_ranges` accepts exactly the ordered ranges within its limits, and its
-- result is their splice.
use asp.Base.{
  ℕ, ◌+◌, ◌≤◌, ◌<◌, ◌≡◌, refl, ap, ◌∙◌, sym, subst, ◌↔◌, inl, inr, List, [], ◌∷◌, ◌++◌,
  append_assoc, length, slice, arith, u64_max, Result-cases, ok, ok_chain,
}
use asp.Patch.{
  FilePatchRange, Totals, check_range, check_ranges, write_ranges, new_length,
  materialize_file_patch_ranges, max_file_patch_ranges, file_max_bytes,
}
use asp.Patch.Splice.{
  splice, InOrder, removed, replaced, InOrder-le, InOrder-removed, length-splice,
}

write_ranges-eq-splice :
    (old written : List ℕ) (cursor : ℕ) (ranges : List FilePatchRange)
    → length old ≤ u64_max
    → InOrder (length old) cursor ranges
    → write_ranges old cursor written ranges ≡ ok (written ++ splice old cursor ranges)
unfolding write_ranges
write_ranges-eq-splice old written cursor [] small h = refl
write_ranges-eq-splice old written cursor (range ∷ ranges) small h = ground (
  arith,
  InOrder-le (length old) (range.offset + range.remove_len) ranges h.1,
  write_ranges-eq-splice old ((written ++ slice old cursor range.offset) ++ range.replacement)
      (range.offset + range.remove_len) ranges small h.1,
  append_assoc (written ++ slice old cursor range.offset) range.replacement
      (splice old (range.offset + range.remove_len) ranges),
  append_assoc written (slice old cursor range.offset)
      (range.replacement ++ splice old (range.offset + range.remove_len) ranges),
)

-- What a successful run of the checking loop has established.
record Checked (size : ℕ) (s : Totals) (ranges : List FilePatchRange) (t : Totals) : Type 0 where
  pub ordered : InOrder size s.cursor ranges
  pub removal : t.removed_total ≡ s.removed_total + removed ranges
  pub replacing : t.replacement_total ≡ s.replacement_total + replaced ranges

check_range-inv :
    (size : ℕ) (s t : Totals) (range : FilePatchRange)
    → check_range size s range ≡ ok t
    → (s.cursor ≤ range.offset)
      × (t.cursor ≡ range.offset + range.remove_len)
      × (t.cursor ≤ size)
      × (t.removed_total ≡ s.removed_total + range.remove_len)
      × (t.replacement_total ≡ s.replacement_total + length range.replacement)
unfolding check_range
check_range-inv size s t range h = ground arith

check_ranges-Checked :
    (size : ℕ) (s t : Totals) (ranges : List FilePatchRange)
    → s.cursor ≤ size
    → check_ranges size s ranges ≡ ok t
    → Checked size s ranges t
unfolding check_ranges
check_ranges-Checked size s t [] h e = ground arith
check_ranges-Checked size s t (range ∷ ranges) h e =
    let (s', e1, e2) = ok_chain (check_range size s range) (λ s'. check_ranges size s' ranges) e in
    let (a, b, c, d, f) = check_range-inv size s s' range e1 in
    let rest : Checked size s' ranges t = check_ranges-Checked size s' t ranges c e2 in
    record {
      ordered = (a, subst (λ k. InOrder size k ranges) b rest.ordered);
      removal = omega (arith, rest.removal);
      replacing = omega (arith, rest.replacing);
    }

check_range_total :
    (size : ℕ) (s : Totals) (range : FilePatchRange)
    → size ≤ u64_max
    → s.cursor ≤ range.offset
    → range.offset + range.remove_len ≤ size
    → s.removed_total + range.remove_len ≤ u64_max
    → s.replacement_total + length range.replacement ≤ u64_max
    → check_range size s range
      ≡ ok (record {
        cursor = range.offset + range.remove_len;
        removed_total = s.removed_total + range.remove_len;
        replacement_total = s.replacement_total + length range.replacement;
      })
unfolding check_range
check_range_total size s range h1 h2 h3 h4 h5 = ground arith

check_ranges_total :
    (size : ℕ) (s : Totals) (ranges : List FilePatchRange)
    → size ≤ u64_max
    → InOrder size s.cursor ranges
    → s.removed_total + removed ranges ≤ u64_max
    → s.replacement_total + replaced ranges ≤ u64_max
    → (t : Totals) × (check_ranges size s ranges ≡ ok t)
unfolding check_ranges
check_ranges_total size s [] small h p q = (s, refl)
check_ranges_total size s (range ∷ ranges) small h p q =
    let fits : range.offset + range.remove_len ≤ size = InOrder-le size _ ranges h.1 in
    rw (check_range_total size s range small h.0 fits (omega arith) (omega arith)) (
      check_ranges_total size
        (record {
          cursor = range.offset + range.remove_len;
          removed_total = s.removed_total + range.remove_len;
          replacement_total = s.replacement_total + length range.replacement;
        })
        ranges small h.1 (omega arith) (omega arith))

-- What the server accepts: between 1 and 4096 ranges in order, and a result of at most 16 MiB.
pub record Accepted (old : List ℕ) (ranges : List FilePatchRange) : Type 0 where
  pub some_ranges : 0 < length ranges
  pub few_ranges : length ranges ≤ max_file_patch_ranges
  pub ordered : InOrder (length old) 0 ranges
  pub fits : length (splice old 0 ranges) ≤ file_max_bytes

abbrev start : Totals
start = record { cursor = 0; removed_total = 0; replacement_total = 0 }

materialize_sound :
    (old data' : List ℕ) (ranges : List FilePatchRange)
    → length old ≤ u64_max
    → materialize_file_patch_ranges old ranges ≡ ok data'
    → Accepted old ranges × (data' ≡ splice old 0 ranges)
unfolding materialize_file_patch_ranges new_length
materialize_sound old data' ranges small h =
    elim (Result-cases (check_ranges (length old) start ranges)) [
      | inr (e, failed) ↦ absurd (ground arith)
      | inl (t, e) ↦
          let c : Checked (length old) start ranges t =
            check_ranges-Checked (length old) start t ranges (omega arith) e in
          ground (
            arith,
            c.ordered,
            c.removal,
            c.replacing,
            length-splice old 0 ranges c.ordered,
            InOrder-removed (length old) 0 ranges c.ordered,
            write_ranges-eq-splice old [] 0 ranges small c.ordered,
          )
    ]

materialize_complete :
    (old : List ℕ) (ranges : List FilePatchRange)
    → length old ≤ u64_max
    → Accepted old ranges
    → materialize_file_patch_ranges old ranges ≡ ok (splice old 0 ranges)
unfolding materialize_file_patch_ranges new_length
materialize_complete old ranges small a =
    let few : removed ranges ≤ length old =
      omega (arith, InOrder-removed (length old) 0 ranges a.ordered) in
    let balance : length (splice old 0 ranges) + (0 + removed ranges)
        ≡ length old + replaced ranges =
      length-splice old 0 ranges a.ordered in
    let (t, e) =
      check_ranges_total (length old) start ranges small a.ordered (omega arith) (omega arith) in
    let c : Checked (length old) start ranges t =
      check_ranges-Checked (length old) start t ranges (omega arith) e in
    ground (
      arith,
      e,
      few,
      balance,
      c.removal,
      c.replacing,
      a.some_ranges,
      a.few_ranges,
      a.fits,
      write_ranges-eq-splice old [] 0 ranges small a.ordered,
    )

-- The server accepts a list of ranges exactly when there are 1 to 4096 of them, in order, without
-- overlap and within the base, and the result has at most 16 MiB; the result is then the splice.
pub materialize_exact :
    (old out : List ℕ) (ranges : List FilePatchRange)
    → length old ≤ u64_max
    → (materialize_file_patch_ranges old ranges ≡ ok out)
      ↔ (Accepted old ranges × (out ≡ splice old 0 ranges))
materialize_exact old out ranges small = (
  (λ h. materialize_sound old out ranges small h),
  (λ a. materialize_complete old ranges small a.0 ∙ ap ok (sym a.1)),
)

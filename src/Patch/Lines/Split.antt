-- ===== src/Patch/Lines/Split.antt =====
-- The lines of a file cover it without a gap.
use asp.Base.{
  ℕ, zero, suc, ◌+◌, ◌≤◌, ◌<◌, ◌≡◌, refl, ap, sym, subst, List, [], ◌∷◌, length, get_or, slice,
  arith, ◌==◌, Bool-cases, inl, inr, ltb, ltb→lt,
}
use native.Mathlib.Nat.{add-zero, add-suc}
use asp.Patch.Lines.{Line, split_lines_from, split_patch_lines, patch_line_offset, line_bytes}

-- The lines run from `cursor` to `size`, each where the one before it stops.
abbrev pub Tiles : ℕ → ℕ → List Line → Type 0
Tiles size cursor [] = cursor ≡ size
Tiles size cursor (line ∷ lines) =
    (line.start ≡ cursor) × (cursor < line.stop) × Tiles size line.stop lines

split_lines_from-Tiles :
    (bytes : List ℕ) (start index : ℕ)
    → start ≤ index
    → Tiles (index + length bytes) start (split_lines_from start index bytes)
unfolding split_lines_from
split_lines_from-Tiles [] start index h = elim (Bool-cases (ltb start index)) [
  | inl open' ↦ rw open' (refl, ltb→lt _ _ open', omega arith)
  | inr closed ↦ rw closed (ground arith)
]
split_lines_from-Tiles (byte ∷ rest) start index h = elim (Bool-cases (byte == 10)) [
  | inl ended ↦ rw ended (
    refl,
    omega arith,
    subst (λ k. Tiles k (index + 1) (split_lines_from (index + 1) (index + 1) rest))
        {x = index + 1 + length rest} (omega arith)
        (split_lines_from-Tiles rest (index + 1) (index + 1) (omega arith)),
  )
  | inr going ↦ rw going (
      subst (λ k. Tiles k start (split_lines_from start (index + 1) rest))
        {x = index + 1 + length rest} (omega arith)
        (split_lines_from-Tiles rest start (index + 1) (omega arith)))
]

pub split_patch_lines-Tiles : (bytes : List ℕ) → Tiles (length bytes) 0 (split_patch_lines bytes)
unfolding split_patch_lines
split_patch_lines-Tiles bytes =
    subst (λ k. Tiles k 0 (split_lines_from 0 0 bytes)) {x = 0 + length bytes} (omega arith)
      (split_lines_from-Tiles bytes 0 0 (omega arith))

pub Tiles-le : (size cursor : ℕ) (lines : List Line) → Tiles size cursor lines → cursor ≤ size
Tiles-le size cursor [] h = omega arith
Tiles-le size cursor (line ∷ lines) h = omega (arith, h, Tiles-le size line.stop lines h.2)

-- The offset of the line at an index: within the file, and that of the next line is no smaller.
pub patch_line_offset_le :
    (size cursor : ℕ) (lines : List Line) (index : ℕ)
    → Tiles size cursor lines
    → (cursor ≤ patch_line_offset lines index size) × (patch_line_offset lines index size ≤ size)
unfolding patch_line_offset
patch_line_offset_le size cursor [] index h = omega arith
patch_line_offset_le size cursor (line ∷ lines) zero h =
    omega (arith, h, Tiles-le size line.stop lines h.2)
patch_line_offset_le size cursor (line ∷ lines) (suc index) h =
    omega (arith, h, patch_line_offset_le size line.stop lines index h.2)

patch_line_offset_next :
    (size cursor : ℕ) (lines : List Line) (index : ℕ)
    → Tiles size cursor lines
    → patch_line_offset lines index size ≤ patch_line_offset lines (suc index) size
unfolding patch_line_offset
patch_line_offset_next size cursor [] index h = omega arith
patch_line_offset_next size cursor (line ∷ lines) zero h =
    omega (arith, h, patch_line_offset_le size line.stop lines 0 h.2)
patch_line_offset_next size cursor (line ∷ lines) (suc index) h =
    patch_line_offset_next size line.stop lines index h.2

pub patch_line_offset_mono :
    (size cursor : ℕ) (lines : List Line) (i n : ℕ)
    → Tiles size cursor lines
    → patch_line_offset lines i size ≤ patch_line_offset lines (i + n) size
patch_line_offset_mono size cursor lines i zero h =
    omega (arith, ap (λ k. patch_line_offset lines k size) (add-zero i))
patch_line_offset_mono size cursor lines i (suc n) h = omega (
  arith,
  patch_line_offset_mono size cursor lines i n h,
  patch_line_offset_next size cursor lines (i + n) h,
  ap (λ k. patch_line_offset lines k size) (add-suc i n),
)

-- From the end on the offset is the size.
pub patch_line_offset_end :
    (size : ℕ) (lines : List Line) (index : ℕ)
    → length lines ≤ index
    → patch_line_offset lines index size ≡ size
unfolding patch_line_offset
patch_line_offset_end size [] index h = refl
patch_line_offset_end size (line ∷ lines) zero h = absurd (omega arith)
patch_line_offset_end size (line ∷ lines) (suc index) h =
    patch_line_offset_end size lines index (omega arith)

-- The bytes of a line lie between its offset and the next one.
line_bounds :
    (size cursor : ℕ) (lines : List Line) (index : ℕ) (d : Line)
    → index < length lines
    → Tiles size cursor lines
    → ((get_or lines index d).start ≡ patch_line_offset lines index size)
      × ((get_or lines index d).stop ≡ patch_line_offset lines (suc index) size)
unfolding patch_line_offset
line_bounds size cursor [] index d lt h = absurd (omega arith)
line_bounds size cursor (line ∷ []) zero d lt h = (refl, h.2)
line_bounds size cursor (line ∷ next ∷ lines) zero d lt h = (refl, sym h.2.0)
line_bounds size cursor (line ∷ lines) (suc index) d lt h =
    line_bounds size line.stop lines index d (omega arith) h.2

pub line_bytes-eq-slice :
    (bytes : List ℕ) (lines : List Line) (index : ℕ)
    → index < length lines
    → Tiles (length bytes) 0 lines
    → line_bytes bytes lines index
      ≡ slice bytes
          (patch_line_offset lines index (length bytes))
          (patch_line_offset lines (suc index) (length bytes))
unfolding line_bytes
line_bytes-eq-slice bytes lines index lt h =
    let b : _ = line_bounds (length bytes) 0 lines index (record { start = 0; stop = 0 }) lt h in
    rw (b.0, b.1)

-- The first line begins where the lines begin.
pub patch_line_offset_zero :
    (size cursor : ℕ) (lines : List Line)
    → Tiles size cursor lines
    → patch_line_offset lines 0 size ≡ cursor
unfolding patch_line_offset
patch_line_offset_zero size cursor [] h = sym h
patch_line_offset_zero size cursor (line ∷ lines) h = h.0

-- ===== src/Patch/Splice.antt =====
-- What a list of ranges means: the bytes kept, with the replacements between them.
use asp.Base.{
  ℕ, ◌+◌, ◌-◌, ◌≤◌, ◌≡◌, List, [], ◌∷◌, ◌++◌, length, drop, slice, arith, length-append,
  length-take, length-drop,
}
use asp.Patch.{FilePatchRange}

-- The file that results from position `cursor` of the old one on.
abbrev pub splice : List ℕ → ℕ → List FilePatchRange → List ℕ
splice old cursor [] = drop cursor old
splice old cursor (range ∷ ranges) =
    slice old cursor range.offset
    ++ (range.replacement ++ splice old (range.offset + range.remove_len) ranges)

-- The ranges are sorted, do not overlap, start at `cursor` or later and end within `size`.
abbrev pub InOrder : ℕ → ℕ → List FilePatchRange → Type 0
InOrder size cursor [] = cursor ≤ size
InOrder size cursor (range ∷ ranges) =
    (cursor ≤ range.offset) × InOrder size (range.offset + range.remove_len) ranges

abbrev pub removed : List FilePatchRange → ℕ
removed [] = 0
removed (range ∷ ranges) = range.remove_len + removed ranges

abbrev pub replaced : List FilePatchRange → ℕ
replaced [] = 0
replaced (range ∷ ranges) = length range.replacement + replaced ranges

pub InOrder-le :
    (size cursor : ℕ) (ranges : List FilePatchRange) → InOrder size cursor ranges → cursor ≤ size
InOrder-le size cursor [] h = h
InOrder-le size cursor (range ∷ ranges) h =
    omega (arith, InOrder-le size (range.offset + range.remove_len) ranges h.1)

pub InOrder-removed :
    (size cursor : ℕ) (ranges : List FilePatchRange)
    → InOrder size cursor ranges
    → cursor + removed ranges ≤ size
InOrder-removed size cursor [] h = omega arith
InOrder-removed size cursor (range ∷ ranges) h =
    omega (arith, InOrder-removed size (range.offset + range.remove_len) ranges h.1)

-- The length of the result: what was there, less what is removed, and what is put in.
pub length-splice :
    (old : List ℕ) (cursor : ℕ) (ranges : List FilePatchRange)
    → InOrder (length old) cursor ranges
    → length (splice old cursor ranges) + (cursor + removed ranges) ≡ length old + replaced ranges
length-splice old cursor [] h = omega (arith, length-drop cursor old)
length-splice old cursor (range ∷ ranges) h = omega (
  arith,
  length-splice old (range.offset + range.remove_len) ranges h.1,
  InOrder-le (length old) (range.offset + range.remove_len) ranges h.1,
  length-append (slice old cursor range.offset)
      (range.replacement ++ splice old (range.offset + range.remove_len) ranges),
  length-append range.replacement (splice old (range.offset + range.remove_len) ranges),
  length-take (range.offset - cursor) (drop cursor old),
  length-drop cursor old,
)

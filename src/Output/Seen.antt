-- ===== src/Output/Seen.antt =====
-- Process output that is replayed after a reconnection: `unseen_suffix` and `write_unseen` of
-- crates/asp-client/src/main.rs, for one of the two streams, which have a cursor each.
use asp.Base.{
  ℕ, ◌+◌, ◌-◌, ◌≤◌, ◌≡◌, refl, sym, ap, ◌∙◌, Bool-cases, inl, inr, Option, none, some, List, [],
  ◌∷◌, ◌++◌, length, length-append, take, drop, slice, drop-take, drop-drop, slice-slice, ap₂,
  slice-append-slice, take_all, take-append_left, drop-append_left, max, ltb, leb, if◌then◌else◌,
  u64_max, checked_add, Result, ok, ◌>>=◌, ◌>>◌, bail_if, ok_or, arith,
}
use asp.Event.{Bytes}

pub data OutputError : Type 0 where
  offset_overflow gap : OutputError

unfoldable pub unseen_suffix : ℕ → Bytes → ℕ → Result OutputError (Option Bytes)
unseen_suffix offset chunk seen = do
  end ← ok_or (checked_add offset (length chunk)) offset_overflow
  bail_if (ltb seen offset) gap
  ok (if leb end seen then none else some (drop (seen - offset) chunk))

-- The cursor, and what was written to the terminal.
pub record Screen : Type 0 where
  pub seen : ℕ
  pub written : Bytes

unfoldable pub write_unseen : ℕ → Bytes → Screen → Result OutputError Screen
unfolding unseen_suffix
write_unseen offset chunk s = do
  suffix ← unseen_suffix offset chunk s.seen
  ok (elim suffix [
    | none ↦ s
    | some fresh ↦ record { seen = offset + length chunk; written = s.written ++ fresh }
  ])

-- Chunks that follow each other, from `offset` on.
unfoldable pub write_all : ℕ → List Bytes → Screen → Result OutputError Screen
unfolding write_unseen
write_all offset [] s = ok s
write_all offset (chunk ∷ chunks) s = do
  next ← write_unseen offset chunk s
  write_all (offset + length chunk) chunks next

-- The chunks one after the other.
unfoldable pub concat : List Bytes → Bytes
concat [] = []
concat (chunk ∷ chunks) = chunk ++ concat chunks

-- The terminal has what `log` holds up to the cursor.
pub record Has (log : Bytes) (s : Screen) : Type 0 where
  pub within : s.seen ≤ length log
  pub prefix : s.written ≡ take s.seen log

length-prefix : (xs ys : Bytes) → length xs ≤ length (xs ++ ys)
length-prefix xs ys = omega (arith, length-append xs ys)

-- The end of a chunk that goes beyond the cursor.
suffix_slice :
    (log chunk : Bytes) (offset seen : ℕ)
    → slice log offset (offset + length chunk) ≡ chunk
    → offset ≤ seen
    → seen ≤ offset + length chunk
    → drop (seen - offset) chunk ≡ slice log seen (offset + length chunk)
suffix_slice log chunk offset seen at le ge =
    ap (drop (seen - offset)) (sym at)
    ∙ drop-take (seen - offset) (offset + length chunk - offset) (drop offset log)
    ∙ ap (take (offset + length chunk - offset - (seen - offset)))
        (drop-drop (seen - offset) offset log)
    ∙ ap (λ n. take n (drop (offset + (seen - offset)) log))
        {x = offset + length chunk - offset - (seen - offset)} {y = offset + length chunk - seen}
        (omega arith)
    ∙ ap (λ n. take (offset + length chunk - seen) (drop n log)) {x = offset + (seen - offset)}
        {y = seen} (omega arith)

take-slice : (log : Bytes) (n : ℕ) → take n log ≡ slice log 0 n
take-slice log n = ap (λ k. take k log) {x = n} {y = n - 0} (omega arith)

-- Two neighbouring parts from the beginning.
take-append-slice : (log : Bytes) (n m : ℕ) → n ≤ m → take n log ++ slice log n m ≡ take m log
take-append-slice log n m le =
    ap (λ w. w ++ slice log n m) (take-slice log n)
    ∙ slice-append-slice log 0 n m (omega arith) le
    ∙ sym (take-slice log m)

write_unseen-Has :
    (log chunk : Bytes) (offset : ℕ) (s : Screen)
    → length log ≤ u64_max
    → offset + length chunk ≤ length log
    → slice log offset (offset + length chunk) ≡ chunk
    → offset ≤ s.seen
    → Has log s
    → (v : Screen) × (write_unseen offset chunk s ≡ ok v)
      × Has log v
      × (v.seen ≡ max s.seen (offset + length chunk))
unfolding write_unseen unseen_suffix
write_unseen-Has log chunk offset s bound fits at le has =
    elim (Bool-cases (leb (offset + length chunk) s.seen)) [
      | inl old ↦ (s, ground (arith, old), has, ground (arith, old))
      | inr new ↦
          let v : Screen = record {
            seen = offset + length chunk;
            written = s.written ++ drop (s.seen - offset) chunk;
          } in
          (
            v,
            ground (arith, new),
            record {
              within = fits;
              prefix =
                  ap₂ ◌++◌ has.prefix
                    (suffix_slice log chunk offset s.seen at le (ground (arith, new)))
                  ∙ take-append-slice log s.seen (offset + length chunk) (ground (arith, new));
            },
            ground (arith, new),
          )
    ]

length-concat :
    (chunk : Bytes) (chunks : List Bytes)
    → length (concat (chunk ∷ chunks)) ≡ length chunk + length (concat chunks)
unfolding concat
length-concat chunk chunks = length-append chunk (concat chunks)

-- The first of some chunks that follow each other in the log, and the others.
first_chunk :
    (log chunk : Bytes) (chunks : List Bytes) (offset : ℕ)
    → slice log offset (offset + length (concat (chunk ∷ chunks))) ≡ concat (chunk ∷ chunks)
    → offset + length (concat (chunk ∷ chunks)) ≤ length log
    → (slice log offset (offset + length chunk) ≡ chunk)
      × (slice log (offset + length chunk) (offset + length chunk + length (concat chunks))
          ≡ concat chunks)
unfolding concat
first_chunk log chunk chunks offset at fits =
    let total = length (concat (chunk ∷ chunks)) in
    let n = length-concat chunk chunks in
    let part = λ (i j : ℕ) (le : j ≤ total).
      let e : slice log (offset + i) (offset + j) ≡ slice (chunk ++ concat chunks) i j =
        sym (slice-slice log offset (offset + total) i j (omega arith))
        ∙ ap (λ w. slice w i j) at in
      e in
    (
      ap (λ k. slice log k (offset + length chunk)) {x = offset} {y = offset + 0} (omega arith)
          ∙ part 0 (length chunk) (omega arith)
          ∙ ap (λ k. take k (chunk ++ concat chunks)) {x = length chunk - 0} {y = length chunk}
              (omega arith)
          ∙ take-append_left chunk (concat chunks),
      ap (λ k. slice log (offset + length chunk) k)
            {x = offset + length chunk + length (concat chunks)} {y = offset + total} (omega arith)
          ∙ part (length chunk) total (omega arith)
          ∙ ap (take (total - length chunk)) (drop-append_left chunk (concat chunks))
          ∙ take_all (total - length chunk) (concat chunks) (omega arith),
    )

-- The log is shorter than the machine's largest number, the terminal has its beginning up to the
-- cursor, and chunks that follow each other in it are replayed from an offset that is not beyond the
-- cursor. Then however the chunks are cut and however much of them was seen, nothing fails, no byte is
-- written twice or left out, and the terminal has the log up to the end of the chunks, or further
-- where it had more.
pub write_all-Has :
    (log : Bytes) (chunks : List Bytes) (offset : ℕ) (s : Screen)
    → length log ≤ u64_max
    → offset + length (concat chunks) ≤ length log
    → slice log offset (offset + length (concat chunks)) ≡ concat chunks
    → offset ≤ s.seen
    → Has log s
    → (v : Screen) × (write_all offset chunks s ≡ ok v)
      × (v.written ≡ take v.seen log)
      × (v.seen ≡ max s.seen (offset + length (concat chunks)))
unfolding write_all concat
write_all-Has log [] offset s bound fits at le has = (s, refl, has.prefix, omega arith)
write_all-Has log (chunk ∷ chunks) offset s bound fits at le has =
    let n = length-concat chunk chunks in
    let (here, later) = first_chunk log chunk chunks offset at fits in
    let (next, e, known, reached) =
      write_unseen-Has log chunk offset s bound (omega arith) here le has in
    let (v, f, prefix, end) =
      write_all-Has log chunks (offset + length chunk) next bound (omega arith) later (omega arith)
        known in
    (v, ground (arith, e, f), prefix, omega arith)

-- ===== src/Output/Summary/Tails.antt =====
-- The summary of interleaved chunks has the length and the last bytes of each stream.
use asp.Base.{
  ℕ, ◌+◌, ◌-◌, ◌≤◌, ◌≡◌, refl, sym, ap, ◌∙◌, Bool-cases, inl, inr, List, [], ◌∷◌, ◌++◌,
  append_assoc, append-nil, ap₂, length, length-append, length-drop, drop, drop-drop, drop_all,
  drop-append_le, drop-append_left, max, ltb, leb, ◌==◌, saturating_add, u64_max, arith,
}
use asp.Event.{Bytes, OutputStream, stdout, stderr}
use asp.Output.Summary.{ProcessSummaryAccumulator, new_accumulator, push_tail, push, into_response}

-- The last `n` bytes.
abbrev pub last : ℕ → Bytes → Bytes
last n whole = drop (length whole - n) whole

-- The second part, or the end of the first one and the second.
last-append_long :
    (limit : ℕ) (whole chunk : Bytes)
    → limit ≤ length chunk
    → last limit (whole ++ chunk) ≡ last limit chunk
last-append_long limit whole chunk le =
    ap (λ n. drop n (whole ++ chunk)) {y = length whole + (length chunk - limit)}
      (omega (arith, length-append whole chunk))
    ∙ sym (drop-drop (length chunk - limit) (length whole) (whole ++ chunk))
    ∙ ap (drop (length chunk - limit)) (drop-append_left whole chunk)

last-append_short :
    (limit : ℕ) (whole chunk : Bytes)
    → length chunk ≤ limit
    → last limit (whole ++ chunk) ≡ drop (length whole + length chunk - limit) whole ++ chunk
last-append_short limit whole chunk le =
    ap (λ n. drop (n - limit) (whole ++ chunk)) (length-append whole chunk)
    ∙ drop-append_le (length whole + length chunk - limit) whole chunk (omega arith)

-- What falls off the tail is what falls off the whole.
drop-last :
    (limit n : ℕ) (whole : Bytes)
    → drop (length (last limit whole) + n - limit) (last limit whole)
      ≡ drop (length whole - limit + (length (last limit whole) + n - limit)) whole
drop-last limit n whole =
    drop-drop (length (last limit whole) + n - limit) (length whole - limit) whole

push_tail-last :
    (limit : ℕ) (whole chunk : Bytes)
    → length whole + length chunk ≤ u64_max
    → push_tail limit (last limit whole) chunk ≡ last limit (whole ++ chunk)
unfolding push_tail
push_tail-last limit whole chunk bound =
    let size = length-drop (length whole - limit) whole in
    elim (Bool-cases (limit == 0)) [
      | inl none_kept ↦
          let e : limit ≡ 0 = ground (arith, none_kept) in
          rw none_kept (
            drop_all (length whole - limit) whole (omega arith)
            ∙ sym (drop_all (length (whole ++ chunk) - limit) (whole ++ chunk) (omega arith)))
      | inr kept ↦ elim (Bool-cases (leb limit (length chunk))) [
        | inl long ↦
            rw (kept, long) (sym (last-append_long limit whole chunk (ground (arith, long))))
        | inr short ↦
            rw (kept, short)
              (ap (λ n. drop (n - limit) (last limit whole) ++ chunk)
                  {y = length (last limit whole) + length chunk} (omega (arith, size))
                ∙ ap (λ w. w ++ chunk)
                    (drop-last limit (length chunk) whole
                      ∙ ap (λ n. drop n whole) {y = length whole + length chunk - limit}
                          (omega (arith, size)))
                ∙ sym (last-append_short limit whole chunk (ground (arith, short))))
      ]
    ]

-- The bytes of one stream.
abbrev pub of_stdout : List (OutputStream × Bytes) → Bytes
of_stdout [] = []
of_stdout ((stdout, chunk) ∷ chunks) = chunk ++ of_stdout chunks
of_stdout ((stderr, chunk) ∷ chunks) = of_stdout chunks

abbrev pub of_stderr : List (OutputStream × Bytes) → Bytes
of_stderr [] = []
of_stderr ((stdout, chunk) ∷ chunks) = of_stderr chunks
of_stderr ((stderr, chunk) ∷ chunks) = chunk ++ of_stderr chunks

-- The chunks, with the offsets that their streams have reached.
unfoldable pub push_all :
    ℕ → ℕ → ProcessSummaryAccumulator → List (OutputStream × Bytes) → ProcessSummaryAccumulator
unfolding push
push_all out err_ a [] = a
push_all out err_ a ((stdout, chunk) ∷ chunks) =
    push_all (out + length chunk) err_ (push a stdout out chunk) chunks
push_all out err_ a ((stderr, chunk) ∷ chunks) =
    push_all out (err_ + length chunk) (push a stderr err_ chunk) chunks

-- The accumulator after these bytes.
abbrev after : ℕ → Bytes → Bytes → ProcessSummaryAccumulator
after limit out err_ = record {
  tail_limit = limit;
  stdout_bytes = length out;
  stderr_bytes = length err_;
  stdout_tail = last limit out;
  stderr_tail = last limit err_;
}

push-after_stdout :
    (limit : ℕ) (out err_ chunk : Bytes)
    → length out + length chunk ≤ u64_max
    → push (after limit out err_) stdout (length out) chunk ≡ after limit (out ++ chunk) err_
unfolding push
push-after_stdout limit out err_ chunk bound =
    let total : max (length out) (saturating_add (length out) (length chunk))
        ≡ length (out ++ chunk) =
      omega (arith, length-append out chunk) in
    rw (total, push_tail-last limit out chunk bound) refl

push-after_stderr :
    (limit : ℕ) (out err_ chunk : Bytes)
    → length err_ + length chunk ≤ u64_max
    → push (after limit out err_) stderr (length err_) chunk ≡ after limit out (err_ ++ chunk)
unfolding push
push-after_stderr limit out err_ chunk bound =
    let total : max (length err_) (saturating_add (length err_) (length chunk))
        ≡ length (err_ ++ chunk) =
      omega (arith, length-append err_ chunk) in
    rw (total, push_tail-last limit err_ chunk bound) refl

push_all-after :
    (limit : ℕ) (out err_ : Bytes) (chunks : List (OutputStream × Bytes))
    → length out + length (of_stdout chunks) ≤ u64_max
    → length err_ + length (of_stderr chunks) ≤ u64_max
    → push_all (length out) (length err_) (after limit out err_) chunks
      ≡ after limit (out ++ of_stdout chunks) (err_ ++ of_stderr chunks)
unfolding push_all
push_all-after limit out err_ [] h g =
    ap₂ (after limit) (sym (append-nil out)) (sym (append-nil err_))
push_all-after limit out err_ ((stdout, chunk) ∷ chunks) h g =
    let n = length-append chunk (of_stdout chunks) in
    let m = length-append out chunk in
    ap₂ (λ k a. push_all k (length err_) a chunks) (sym m)
      (push-after_stdout limit out err_ chunk (omega arith))
    ∙ push_all-after limit (out ++ chunk) err_ chunks (omega arith) g
    ∙ ap (λ w. after limit w (err_ ++ of_stderr chunks)) (append_assoc out chunk (of_stdout chunks))
push_all-after limit out err_ ((stderr, chunk) ∷ chunks) h g =
    let n = length-append chunk (of_stderr chunks) in
    let m = length-append err_ chunk in
    ap₂ (λ k a. push_all (length out) k a chunks) (sym m)
      (push-after_stderr limit out err_ chunk (omega arith))
    ∙ push_all-after limit out (err_ ++ chunk) chunks h (omega arith)
    ∙ ap (λ w. after limit (out ++ of_stdout chunks) w) (append_assoc err_ chunk (of_stderr chunks))

truncated :
    (limit : ℕ) (whole : Bytes)
    → ltb (length (last limit whole)) (length whole) ≡ ltb limit (length whole)
truncated limit whole = ground (arith, length-drop (length whole - limit) whole)

-- Neither stream is longer than the machine's largest number. Then the summary of chunks of both
-- streams, in whatever order they alternate, has the length and the last bytes of each stream, as many as
-- the limit allows, and says that a stream is truncated exactly when it is longer than the limit.
pub summary_exact :
    (limit process_id event_id : ℕ) (chunks : List (OutputStream × Bytes))
    → length (of_stdout chunks) ≤ u64_max
    → length (of_stderr chunks) ≤ u64_max
    → into_response (push_all 0 0 (new_accumulator limit) chunks) process_id event_id ≡ record {
      process_id = process_id;
      event_id = event_id;
      stdout_bytes = length (of_stdout chunks);
      stderr_bytes = length (of_stderr chunks);
      stdout_tail = last limit (of_stdout chunks);
      stderr_tail = last limit (of_stderr chunks);
      stdout_truncated = ltb limit (length (of_stdout chunks));
      stderr_truncated = ltb limit (length (of_stderr chunks));
    }
unfolding into_response
summary_exact limit process_id event_id chunks h g =
    let empty = drop_all {A = ℕ} (length {A = ℕ} [] - limit) [] (omega arith) in
    let start : new_accumulator limit ≡ after limit [] [] = rw empty refl in
    ap (λ a. into_response (push_all 0 0 a chunks) process_id event_id) start
    ∙ ap (λ a. into_response a process_id event_id)
        (push_all-after limit [] [] chunks (omega arith) (omega arith))
    ∙ (rw (truncated limit (of_stdout chunks), truncated limit (of_stderr chunks)) refl)

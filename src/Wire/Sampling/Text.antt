-- ===== src/Wire/Sampling/Text.antt =====
-- Data over a small alphabet, such as text, always stays on the compression path.
use asp.Base.{
  ℕ, zero, suc, ◌+◌, ◌-◌, ◌/◌, ◌≤◌, ◌<◌, min, ◌≡◌, refl, ap, ◌∙◌, List, [], ◌∷◌, length, get_or,
  set, take, drop, replicate, slice, leb, arith, saturating_add, saturating_sub,
}
use asp.Wire.Sampling.{
  Sample, count_byte, count_bytes, count_windows, distinct, sample_windows,
  should_attempt_frame_compression, frame_compression_min_bytes, frame_compression_sample_bytes,
}

-- Every byte is below `k`.
abbrev pub AllBelow : ℕ → List ℕ → Type 0
AllBelow k [] = Unit {0}
AllBelow k (x ∷ xs) = (x < k) × AllBelow k xs

AllBelow-take : (k n : ℕ) (xs : List ℕ) → AllBelow k xs → AllBelow k (take n xs)
AllBelow-take k zero xs h = tt
AllBelow-take k (suc n) [] h = tt
AllBelow-take k (suc n) (x ∷ xs) h = (h.0, AllBelow-take k n xs h.1)

AllBelow-drop : (k n : ℕ) (xs : List ℕ) → AllBelow k xs → AllBelow k (drop n xs)
AllBelow-drop k zero xs h = h
AllBelow-drop k (suc n) [] h = tt
AllBelow-drop k (suc n) (x ∷ xs) h = AllBelow-drop k n xs h.1

drop-set_lt : (n : ℕ) (xs : List ℕ) (i v : ℕ) → i < n → drop n (set xs i v) ≡ drop n xs
drop-set_lt zero xs i v h = absurd (omega arith)
drop-set_lt (suc n) [] i v h = refl
drop-set_lt (suc n) (x ∷ xs) zero v h = refl
drop-set_lt (suc n) (x ∷ xs) (suc i) v h = drop-set_lt n xs i v (omega arith)

-- At most `n` buckets below index `n` are in use.
distinct-le : (n : ℕ) (xs : List ℕ) → distinct xs ≤ n + distinct (drop n xs)
unfolding distinct
distinct-le zero xs = omega arith
distinct-le (suc n) [] = omega arith
distinct-le (suc n) (x ∷ xs) = ground (arith, distinct-le n xs)

module _ (k : ℕ) where
  drop-count_bytes :
      (xs : List ℕ) (s : Sample)
      → AllBelow k xs
      → drop k (count_bytes s xs).histogram ≡ drop k s.histogram
  unfolding count_bytes count_byte
  drop-count_bytes [] s h = refl
  drop-count_bytes (x ∷ xs) s h =
      drop-count_bytes xs (count_byte s x) h.1
      ∙ drop-set_lt k s.histogram x (saturating_add (get_or s.histogram x 0) 1) h.0

  drop-count_windows :
      (payload : List ℕ) (window : ℕ) (starts : List ℕ) (s : Sample)
      → AllBelow k payload
      → drop k (count_windows payload window s starts).histogram ≡ drop k s.histogram
  unfolding count_windows
  drop-count_windows payload window [] s h = refl
  drop-count_windows payload window (start ∷ starts) s h =
      let last : ℕ = min (saturating_add start window) (length payload) in
      drop-count_windows payload window starts (count_bytes s (slice payload start last)) h
      ∙ drop-count_bytes (slice payload start last) s
          (AllBelow-take k (last - start) (drop start payload) (AllBelow-drop k start payload h))

distinct-replicate_zero : (n : ℕ) → distinct (replicate n 0) ≡ 0
unfolding distinct
distinct-replicate_zero zero = refl
distinct-replicate_zero (suc n) = omega (arith, distinct-replicate_zero n)

distinct-sample_windows :
    (payload : List ℕ) → AllBelow 239 payload → distinct (sample_windows payload).histogram ≤ 239
unfolding sample_windows
distinct-sample_windows payload h = omega (
  arith,
  distinct-le 239 (sample_windows payload).histogram,
  ap distinct (
      drop-count_windows 239 payload window starts
        (record { histogram = replicate 256 0; sampled = 0 }) h),
  distinct-replicate_zero 17,
)
  where
    window : ℕ
    window = min frame_compression_sample_bytes (length payload)

    starts : List ℕ
    starts =
        0
        ∷ (saturating_sub (length payload) window / 2)
        ∷ saturating_sub (length payload) window
        ∷ []

-- Where every byte is below 239, as in ASCII text, zlib is tried exactly when the payload has 1024
-- bytes or more, however large it is.
pub should_attempt-AllBelow :
    (payload : List ℕ)
    → AllBelow 239 payload
    → should_attempt_frame_compression payload ≡ leb frame_compression_min_bytes (length payload)
unfolding should_attempt_frame_compression
should_attempt-AllBelow payload h = ground (arith, distinct-sample_windows payload h)

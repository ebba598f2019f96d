-- ===== src/Wire/Sampling.antt =====
-- `should_attempt_frame_compression` of crates/asp-protocol/src/lib.rs: the sample of three
-- windows that decides whether zlib is tried.
pub mod Text
use asp.Base.{
  ℕ, zero, suc, ◌+◌, ◌/◌, min, max, Bool, true, false, not, ◌&&◌, List, [], ◌∷◌, length, get_or,
  set, replicate, slice, ltb, leb, ◌==◌, if◌then◌else◌, saturating_add, saturating_sub,
}

abbrev pub frame_compression_min_bytes : ℕ
frame_compression_min_bytes = 1024

abbrev pub frame_compression_heuristic_min_bytes : ℕ
frame_compression_heuristic_min_bytes = 65536

abbrev pub frame_compression_sample_bytes : ℕ
frame_compression_sample_bytes = 4096

abbrev pub frame_compression_high_diversity_bytes : ℕ
frame_compression_high_diversity_bytes = 240

-- The mutable locals `histogram` and `sampled` of the loop.
pub record Sample : Type 0 where
  pub histogram : List ℕ
  pub sampled : ℕ

-- The inner loop's body; a byte indexes the 256 buckets.
pub count_byte : Sample → ℕ → Sample
count_byte s byte = record {
  histogram = set s.histogram byte (saturating_add (get_or s.histogram byte 0) 1);
  sampled = saturating_add s.sampled 1;
}

-- for &byte in &payload[start..end]
pub count_bytes : Sample → List ℕ → Sample
count_bytes s [] = s
count_bytes s (byte ∷ rest) = count_bytes (count_byte s byte) rest

-- for start in starts
pub count_windows : List ℕ → ℕ → Sample → List ℕ → Sample
count_windows payload window s [] = s
count_windows payload window s (start ∷ starts) =
    let last = min (saturating_add start window) (length payload) in
    count_windows payload window (count_bytes s (slice payload start last)) starts

-- histogram.iter().filter(|&&count| count != 0).count()
pub distinct : List ℕ → ℕ
distinct [] = 0
distinct (count ∷ counts) = (if count == 0 then 0 else 1) + distinct counts

-- histogram.iter().copied().max().unwrap_or(0)
pub largest_bucket : List ℕ → ℕ
largest_bucket [] = 0
largest_bucket (count ∷ counts) = max count (largest_bucket counts)

abbrev empty_sample : Sample
empty_sample = record { histogram = replicate 256 0; sampled = 0 }

pub sample_windows : List ℕ → Sample
sample_windows payload =
    let window = min frame_compression_sample_bytes (length payload) in
    count_windows payload window empty_sample (
      0
      ∷ (saturating_sub (length payload) window / 2)
      ∷ saturating_sub (length payload) window
      ∷ [])

unfoldable pub should_attempt_frame_compression : List ℕ → Bool
unfolding sample_windows count_windows count_bytes count_byte distinct largest_bucket
should_attempt_frame_compression payload =
    if ltb (length payload) frame_compression_min_bytes
    then false
    else if ltb (length payload) frame_compression_heuristic_min_bytes
    then true
    else let s = sample_windows payload in
      not (
        leb frame_compression_high_diversity_bytes (distinct s.histogram)
        && leb (largest_bucket s.histogram) (s.sampled / 32))

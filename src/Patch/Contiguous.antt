-- ===== src/Patch/Contiguous.antt =====
-- The prefix/suffix patch: the `FilePatch` arm of `handle_stream` in crates/asp-server/src/main.rs
-- from the check of the lengths on, and the client's `common_prefix`, `common_suffix` and
-- `should_use_file_patch` of crates/asp-client/src/main.rs.
use asp.Base.{
  ℕ, ◌+◌, ◌-◌, ◌≤◌, ◌≡◌, refl, ap, ◌∙◌, sym, inl, inr, List, [], ◌∷◌, ◌++◌, length, take, drop,
  slice, ltb, ◌==◌, ==_iff, if◌then◌else◌, arith, checked_add, Result, ok, ◌>>=◌, ◌>>◌, bail_if,
  ok_or, Bool-cases, length-take, length-drop, drop-drop, length-reverse, take-reverse,
  split_at_two, ap₂,
}
use mathlib.Core.List.{reverse, reverse-reverse}
use native.Mathlib.Numerals.{add-one}
use asp.Patch.{file_max_bytes}

pub data ContiguousError : Type 0 where
  invalid_patch file_too_large : ContiguousError

-- The bytes that the handler stores: `old[..prefix]`, the replacement, `old[old.len() - suffix..]`.
unfoldable pub apply_file_patch : List ℕ → ℕ → ℕ → List ℕ → Result ContiguousError (List ℕ)
apply_file_patch old prefix suffix replacement = do
  preserved ← ok_or (checked_add prefix suffix) invalid_patch
  bail_if (ltb (length old) preserved) invalid_patch
  new_len ← ok_or (checked_add preserved (length replacement)) invalid_patch
  bail_if (ltb file_max_bytes new_len) file_too_large
  ok ((take prefix old ++ replacement) ++ drop (length old - suffix) old)

-- a.iter().zip(b).take_while(|(left, right)| left == right).count()
unfoldable pub common_prefix : List ℕ → List ℕ → ℕ
common_prefix [] b = 0
common_prefix (x ∷ a) [] = 0
common_prefix (x ∷ a) (y ∷ b) = let rest = common_prefix a b in if x == y then rest + 1 else 0

-- The same from the ends: a.iter().rev().zip(b.iter().rev()).
unfoldable pub common_suffix : List ℕ → List ℕ → ℕ
unfolding common_prefix
common_suffix a b = common_prefix (reverse a) (reverse b)

common_prefix_bounds :
    (a b : List ℕ) → (common_prefix a b ≤ length a) × (common_prefix a b ≤ length b)
unfolding common_prefix
common_prefix_bounds [] b = omega arith
common_prefix_bounds (x ∷ a) [] = omega arith
common_prefix_bounds (x ∷ a) (y ∷ b) = ground (arith, common_prefix_bounds a b)

take-common_prefix : (a b : List ℕ) → take (common_prefix a b) a ≡ take (common_prefix a b) b
unfolding common_prefix
take-common_prefix [] b = refl
take-common_prefix (x ∷ a) [] = refl
take-common_prefix (x ∷ a) (y ∷ b) = elim (Bool-cases (x == y)) [
  | inl same ↦ rw (same, add-one) (ap₂ ◌∷◌ ((==_iff x y).0 same) (take-common_prefix a b))
  | inr differ ↦ rw differ
]

pub common_suffix_bounds :
    (a b : List ℕ) → (common_suffix a b ≤ length a) × (common_suffix a b ≤ length b)
unfolding common_suffix
common_suffix_bounds a b =
    omega (arith, common_prefix_bounds (reverse a) (reverse b), length-reverse a, length-reverse b)

pub drop-common_suffix :
    (a b : List ℕ) → drop (length a - common_suffix a b) a ≡ drop (length b - common_suffix a b) b
unfolding common_suffix
drop-common_suffix a b =
    sym (reverse-reverse _)
    ∙ ap reverse (
        sym (take-reverse a s (common_suffix_bounds a b).0)
        ∙ take-common_prefix (reverse a) (reverse b)
        ∙ take-reverse b s (common_suffix_bounds a b).1)
    ∙ reverse-reverse _
  where
    s : ℕ
    s = common_suffix a b

-- The client's cut of an edit into what both files begin with, what both end with, and the middle.
pub record Cut : Type 0 where
  pub prefix : ℕ
  pub suffix : ℕ

unfoldable pub cut : List ℕ → List ℕ → Cut
cut old new =
    let prefix = common_prefix old new in
    record { prefix = prefix; suffix = common_suffix (drop prefix old) (drop prefix new) }

-- `replacement_file[prefix..replacement_file.len() - suffix]`
unfoldable pub replacement_of : List ℕ → List ℕ → List ℕ
unfolding cut
replacement_of old new = slice new (cut old new).prefix (length new - (cut old new).suffix)

pub record IsCut (old new : List ℕ) (c : Cut) : Type 0 where
  pub in_old : c.prefix + c.suffix ≤ length old
  pub in_new : c.prefix + c.suffix ≤ length new
  pub same_prefix : take c.prefix old ≡ take c.prefix new
  pub same_suffix : drop (length old - c.suffix) old ≡ drop (length new - c.suffix) new

tail_of_drop :
    (xs : List ℕ) (p s : ℕ)
    → p + s ≤ length xs
    → drop (length (drop p xs) - s) (drop p xs) ≡ drop (length xs - s) xs
tail_of_drop xs p s h =
    drop-drop (length (drop p xs) - s) p xs
    ∙ ap (λ (k : ℕ). drop k xs) (omega (arith, length-drop p xs))

pub cut-IsCut : (old new : List ℕ) → IsCut old new (cut old new)
unfolding cut
cut-IsCut old new = record {
  in_old = inside.0;
  in_new = inside.1;
  same_prefix = take-common_prefix old new;
  same_suffix =
      sym (tail_of_drop old p s inside.0)
      ∙ drop-common_suffix (drop p old) (drop p new)
      ∙ tail_of_drop new p s inside.1;
}
  where
    p : ℕ
    p = common_prefix old new

    s : ℕ
    s = common_suffix (drop p old) (drop p new)

    inside : (p + s ≤ length old) × (p + s ≤ length new)
    inside = omega (
      arith,
      common_prefix_bounds old new,
      common_suffix_bounds (drop p old) (drop p new),
      length-drop p old,
      length-drop p new,
    )

-- Putting the new file's middle between the old file's ends gives the new file.
pub IsCut-rebuild :
    (old new : List ℕ) (c : Cut)
    → IsCut old new c
    → (take c.prefix old ++ slice new c.prefix (length new - c.suffix))
        ++ drop (length old - c.suffix) old
      ≡ new
IsCut-rebuild old new c h =
    rw (h.same_prefix, h.same_suffix)
      (split_at_two new c.prefix (length new - c.suffix) (omega (arith, h.in_new)))

apply_file_patch-IsCut :
    (old new : List ℕ) (c : Cut)
    → IsCut old new c
    → length old ≤ file_max_bytes
    → length new ≤ file_max_bytes
    → apply_file_patch old c.prefix c.suffix (slice new c.prefix (length new - c.suffix)) ≡ ok new
unfolding apply_file_patch
apply_file_patch-IsCut old new c h small fits = ground (
  arith,
  h.in_old,
  h.in_new,
  IsCut-rebuild old new c h,
  length-take (length new - c.suffix - c.prefix) (drop c.prefix new),
  length-drop c.prefix new,
)

-- The server, given the client's prefix, suffix and middle, stores exactly the new file, if both
-- files are within the 16 MiB limit.
pub apply_file_patch-cut :
    (old new : List ℕ)
    → length old ≤ file_max_bytes
    → length new ≤ file_max_bytes
    → apply_file_patch old (cut old new).prefix (cut old new).suffix (replacement_of old new)
      ≡ ok new
unfolding replacement_of
apply_file_patch-cut old new = apply_file_patch-IsCut old new (cut old new) (cut-IsCut old new)

-- ===== src/Base/Lists.antt =====
-- Lists measured and indexed by native numbers, as Rust slices and vectors are.
use Prim.Native.Nat.{ℕ, zero, suc, ◌+◌, ◌-◌, ◌≤◌, min}
use mathlib.Core.Path.{◌≡◌, refl, sym, ap, ap₂, subst, ◌∙◌}
use mathlib.Core.Logic.{◌↔◌, ◌⊎◌, inl, inr}
use mathlib.Core.Bool.{Bool, true, false, ◌&&◌}
use mathlib.Core.List.{List, [], ◌∷◌, ◌++◌, map, reverse, reverse-append, append_assoc}
use mathlib.Core.Option.{Option, none, some}
use native.Mathlib.Omega.{arith}
use asp.Base.Tests.{◌==◌, ==_refl}

module _ {ℓ} {A : Type ℓ} where
  abbrev pub length : List A → ℕ
  length [] = 0
  length (x ∷ xs) = suc (length xs)

  abbrev pub get_elem? : List A → ℕ → Option A
  get_elem? [] i = none
  get_elem? (x ∷ xs) zero = some x
  get_elem? (x ∷ xs) (suc i) = get_elem? xs i

  abbrev pub get_or : List A → ℕ → A → A
  get_or [] i d = d
  get_or (x ∷ xs) zero d = x
  get_or (x ∷ xs) (suc i) d = get_or xs i d

  abbrev pub set : List A → ℕ → A → List A
  set [] i v = []
  set (x ∷ xs) zero v = v ∷ xs
  set (x ∷ xs) (suc i) v = x ∷ set xs i v

  abbrev pub take : ℕ → List A → List A
  take zero xs = []
  take (suc n) [] = []
  take (suc n) (x ∷ xs) = x ∷ take n xs

  abbrev pub drop : ℕ → List A → List A
  drop zero xs = xs
  drop (suc n) [] = []
  drop (suc n) (x ∷ xs) = drop n xs

  abbrev pub replicate : ℕ → A → List A
  replicate zero a = []
  replicate (suc n) a = a ∷ replicate n a

module _ {ℓ} {A : Type ℓ} where
  -- xs[first..last]
  abbrev pub slice : List A → ℕ → ℕ → List A
  slice xs first last = take (last - first) (drop first xs)

  pub length-append : (xs ys : List A) → length (xs ++ ys) ≡ length xs + length ys
  length-append [] ys = omega arith
  length-append (x ∷ xs) ys = omega (arith, length-append xs ys)

  pub length-take : (n : ℕ) (xs : List A) → length (take n xs) ≡ min n (length xs)
  length-take zero xs = omega arith
  length-take (suc n) [] = omega arith
  length-take (suc n) (x ∷ xs) = omega (arith, length-take n xs)

  pub length-drop : (n : ℕ) (xs : List A) → length (drop n xs) ≡ length xs - n
  length-drop zero xs = omega arith
  length-drop (suc n) [] = omega arith
  length-drop (suc n) (x ∷ xs) = omega (arith, length-drop n xs)

  pub take-append-drop : (n : ℕ) (xs : List A) → take n xs ++ drop n xs ≡ xs
  take-append-drop zero xs = refl
  take-append-drop (suc n) [] = refl
  take-append-drop (suc n) (x ∷ xs) = ap (λ t. x ∷ t) (take-append-drop n xs)

  pub take_all : (n : ℕ) (xs : List A) → length xs ≤ n → take n xs ≡ xs
  take_all zero [] h = refl
  take_all zero (x ∷ xs) h = absurd (omega arith)
  take_all (suc n) [] h = refl
  take_all (suc n) (x ∷ xs) h = ap (λ t. x ∷ t) (take_all n xs (omega arith))

  pub drop_all : (n : ℕ) (xs : List A) → length xs ≤ n → drop n xs ≡ []
  drop_all zero [] h = refl
  drop_all zero (x ∷ xs) h = absurd (omega arith)
  drop_all (suc n) [] h = refl
  drop_all (suc n) (x ∷ xs) h = drop_all n xs (omega arith)

  pub drop-append_left : (xs ys : List A) → drop (length xs) (xs ++ ys) ≡ ys
  drop-append_left [] ys = refl
  drop-append_left (x ∷ xs) ys = drop-append_left xs ys

  pub take-append_left : (xs ys : List A) → take (length xs) (xs ++ ys) ≡ xs
  take-append_left [] ys = refl
  take-append_left (x ∷ xs) ys = ap (λ t. x ∷ t) (take-append_left xs ys)

  pub drop-drop : (m n : ℕ) (xs : List A) → drop m (drop n xs) ≡ drop (n + m) xs
  drop-drop m zero xs = ap (λ (k : ℕ). drop k xs) (omega arith)
  drop-drop zero (suc n) [] = ap (λ (k : ℕ). drop k []) e
    where
      e : suc n ≡ suc n + zero
      e = omega arith
  drop-drop (suc m) (suc n) [] = ap (λ (k : ℕ). drop k []) e
    where
      e : suc (n + m + 1) ≡ suc n + suc m
      e = omega arith
  drop-drop m (suc n) (x ∷ xs) = drop-drop m n xs ∙ ap (λ (k : ℕ). drop k (x ∷ xs)) e
    where
      e : suc (n + m) ≡ suc n + m
      e = omega arith

-- Equality of byte strings.
abbrev pub bytes_eq : List ℕ → List ℕ → Bool
bytes_eq [] [] = true
bytes_eq (x ∷ xs) (y ∷ ys) = x == y && bytes_eq xs ys
bytes_eq _ _ = false

module _ {ℓ} {A : Type ℓ} where
  pub length-reverse : (xs : List A) → length (reverse xs) ≡ length xs
  length-reverse [] = refl
  length-reverse (x ∷ xs) =
      ap length (reverse-append (x ∷ []) xs)
      ∙ omega (arith, length-append (reverse xs) (x ∷ []), length-reverse xs)

  -- The first `s` elements from the end are the last `s` elements.
  pub take-reverse :
      (xs : List A) (s : ℕ)
      → s ≤ length xs
      → take s (reverse xs) ≡ reverse (drop (length xs - s) xs)
  take-reverse xs s h =
      ap (λ ys. take s (reverse ys)) (sym (take-append-drop (length xs - s) xs))
      ∙ ap (take s) (reverse-append (take (length xs - s) xs) (drop (length xs - s) xs))
      ∙ ap
          (λ (k : ℕ).
            take k (reverse (drop (length xs - s) xs) ++ reverse (take (length xs - s) xs)))
          size
      ∙ take-append_left (reverse (drop (length xs - s) xs)) (reverse (take (length xs - s) xs))
    where
      size : s ≡ length (reverse (drop (length xs - s) xs))
      size = omega (arith, length-reverse (drop (length xs - s) xs), length-drop (length xs - s) xs)

  -- A list is the concatenation of its parts at two positions.
  pub split_at_two : (xs : List A) (i j : ℕ) → i ≤ j → (take i xs ++ slice xs i j) ++ drop j xs ≡ xs
  split_at_two xs i j h =
      append_assoc (take i xs) (slice xs i j) (drop j xs)
      ∙ ap (λ ys. take i xs ++ (slice xs i j ++ ys)) tail
      ∙ ap (λ ys. take i xs ++ ys) (take-append-drop (j - i) (drop i xs))
      ∙ take-append-drop i xs
    where
      tail : drop j xs ≡ drop (j - i) (drop i xs)
      tail = ap (λ (k : ℕ). drop k xs) (omega arith) ∙ sym (drop-drop (j - i) i xs)

module _ {ℓ} {A : Type ℓ} where
  pub slice_empty : (xs : List A) (i : ℕ) → slice xs i i ≡ []
  slice_empty xs i = ap (λ (k : ℕ). take k (drop i xs)) {y = 0} (omega arith)

  -- From `i` on: the part up to `j`, then the rest.
  pub slice-append-drop : (xs : List A) (i j : ℕ) → i ≤ j → slice xs i j ++ drop j xs ≡ drop i xs
  slice-append-drop xs i j h =
      ap (λ ys. slice xs i j ++ ys) tail ∙ take-append-drop (j - i) (drop i xs)
    where
      tail : drop j xs ≡ drop (j - i) (drop i xs)
      tail = ap (λ (k : ℕ). drop k xs) (omega arith) ∙ sym (drop-drop (j - i) i xs)

  pub drop-append_le :
      (n : ℕ) (xs ys : List A) → n ≤ length xs → drop n (xs ++ ys) ≡ drop n xs ++ ys
  drop-append_le zero xs ys h = refl
  drop-append_le (suc n) [] ys h = absurd (omega arith)
  drop-append_le (suc n) (x ∷ xs) ys h = drop-append_le n xs ys (omega arith)

  take_snoc :
      (n : ℕ) (xs : List A) (x : A) (ys : List A)
      → drop n xs ≡ x ∷ ys
      → take (suc n) xs ≡ take n xs ++ (x ∷ [])
  take_snoc zero [] x ys e = absurd (cc)
  take_snoc zero (z ∷ xs) x ys e = ground arith
  take_snoc (suc n) [] x ys e = absurd (cc)
  take_snoc (suc n) (z ∷ xs) x ys e = ap (λ t. z ∷ t) (take_snoc n xs x ys e)

  -- One more element at the end of a slice.
  pub slice_snoc :
      (xs : List A) (i j : ℕ) (x : A) (ys : List A)
      → i ≤ j
      → drop j xs ≡ x ∷ ys
      → slice xs i (j + 1) ≡ slice xs i j ++ (x ∷ [])
  slice_snoc xs i j x ys h e =
      ap (λ (k : ℕ). take k (drop i xs)) {y = suc (j - i)} (omega arith)
      ∙ take_snoc (j - i) (drop i xs) x ys
          (drop-drop (j - i) i xs ∙ ap (λ (k : ℕ). drop k xs) (omega arith) ∙ e)

module _ {ℓ} {A : Type ℓ} where
  pub drop-take : (n m : ℕ) (xs : List A) → drop n (take m xs) ≡ take (m - n) (drop n xs)
  drop-take zero m xs = ap (λ (k : ℕ). take k xs) {y = m - zero} (omega arith)
  drop-take (suc n) zero xs =
      ap (λ (k : ℕ). take k (drop (suc n) xs)) {x = 0} {y = zero - suc n} (omega arith)
  drop-take (suc n) (suc m) [] = sym (take_nil (suc m - suc n))
    where
      take_nil : (k : ℕ) → take {A = A} k [] ≡ []
      take_nil zero = refl
      take_nil (suc k) = refl
  drop-take (suc n) (suc m) (x ∷ xs) =
      drop-take n m xs
      ∙ ap (λ (k : ℕ). take k (drop n xs)) {x = m - n} {y = suc m - suc n} (omega arith)

  pub take-take_le : (n m : ℕ) (xs : List A) → n ≤ m → take n (take m xs) ≡ take n xs
  take-take_le zero m xs h = refl
  take-take_le (suc n) zero xs h = absurd (omega arith)
  take-take_le (suc n) (suc m) [] h = refl
  take-take_le (suc n) (suc m) (x ∷ xs) h = ap (λ t. x ∷ t) (take-take_le n m xs (omega arith))

  -- A slice of a slice, addressed in the whole.
  pub slice-slice :
      (xs : List A) (a b i j : ℕ) → j ≤ b - a → slice (slice xs a b) i j ≡ slice xs (a + i) (a + j)
  slice-slice xs a b i j h =
      ap (take (j - i)) (drop-take i (b - a) (drop a xs))
      ∙ take-take_le (j - i) (b - a - i) (drop i (drop a xs)) (omega arith)
      ∙ ap (take (j - i)) (drop-drop i a xs)
      ∙ ap (λ (k : ℕ). take k (drop (a + i) xs)) {y = a + j - (a + i)} (omega arith)

  -- Neighbouring slices join.
  pub slice-append-slice :
      (xs : List A) (i j k : ℕ) → i ≤ j → j ≤ k → slice xs i j ++ slice xs j k ≡ slice xs i k
  slice-append-slice xs i j k h h' = ap₂ ◌++◌ first second ∙ take-append-drop (j - i) (slice xs i k)
    where
      first : slice xs i j ≡ take (j - i) (slice xs i k)
      first = sym (take-take_le (j - i) (k - i) (drop i xs) (omega arith))

      second : slice xs j k ≡ drop (j - i) (slice xs i k)
      second =
          ap₂ (λ (n : ℕ) ys. take n ys) {x = k - j} {y = k - i - (j - i)} (omega arith)
            (ap (λ (n : ℕ). drop n xs) {y = i + (j - i)} (omega arith)
              ∙ sym (drop-drop (j - i) i xs))
          ∙ sym (drop-take (j - i) (k - i) (drop i xs))

pub bytes_eq_refl : (xs : List ℕ) → bytes_eq xs xs ≡ true
bytes_eq_refl [] = refl
bytes_eq_refl (x ∷ xs) = ground (arith, bytes_eq_refl xs, ==_refl x)

pub bytes_eq→eq : (xs ys : List ℕ) → bytes_eq xs ys ≡ true → xs ≡ ys
bytes_eq→eq [] [] h = refl
bytes_eq→eq [] (y ∷ ys) h = absurd (cc)
bytes_eq→eq (x ∷ xs) [] h = absurd (cc)
bytes_eq→eq (x ∷ xs) (y ∷ ys) h = ground (arith, bytes_eq→eq xs ys)

pub bytes_eq_iff : (xs ys : List ℕ) → (bytes_eq xs ys ≡ true) ↔ (xs ≡ ys)
bytes_eq_iff xs ys =
    (bytes_eq→eq xs ys, λ e. subst (λ zs. bytes_eq xs zs ≡ true) e (bytes_eq_refl xs))

-- Membership, for lists of anything.
abbrev pub In : {A : Type 0} → A → List A → Type 0
In x [] = ⊥
In x (y ∷ ys) = (x ≡ y) ⊎ In x ys

pub In-map :
    {A B : Type 0} (f : A → B) (xs : List A) (y : B) → In y (map f xs) → (x : A) × (y ≡ f x)
In-map f [] y h = absurd h
In-map f (x ∷ xs) y (inl e) = (x, e)
In-map f (x ∷ xs) y (inr h) = In-map f xs y h

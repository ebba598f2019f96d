-- ===== src/Base/Keys.antt =====
-- Hash maps as association lists. The code reads them by key and never relies on their order.
use Prim.Native.Nat.{ℕ}
use mathlib.Core.Path.{◌≡◌, refl, ap, subst}
use mathlib.Core.Logic.{◌↔◌, inl, inr}
use mathlib.Core.Bool.{Bool, true}
use mathlib.Core.List.{List, [], ◌∷◌}
use mathlib.Core.Option.{Option, none, some}
use native.Mathlib.Omega.{arith}
use asp.Base.Tests.{◌==◌, ==_iff, Bool-cases, if◌then◌else◌}
use asp.Base.Lists.{bytes_eq, bytes_eq_iff}

-- The keys of a map, with their equality test.
pub record Key (K : Type 0) : Type 0 where
  pub key_eq : K → K → Bool
  pub key_eq_iff : (a b : K) → (key_eq a b ≡ true) ↔ (a ≡ b)

-- Uuids
instance abbrev pub uuid_key : Key ℕ
uuid_key = record { key_eq = ◌==◌; key_eq_iff = ==_iff }

-- strings, by their bytes
instance abbrev pub string_key : Key (List ℕ)
string_key = record { key_eq = bytes_eq; key_eq_iff = bytes_eq_iff }

abbrev pub Map : Type 0 → Type 0 → Type 0
Map K V = List (K × V)

module _ {K V : Type 0} ⦃k : Key K⦄ where
  unfoldable pub lookup : Map K V → K → Option V
  lookup [] a = none
  lookup ((b, v) ∷ m) a = if k.key_eq b a then some v else lookup m a

  unfoldable pub remove : Map K V → K → Map K V
  remove [] a = []
  remove ((b, v) ∷ m) a = let rest = remove m a in if k.key_eq b a then rest else (b, v) ∷ rest

  unfoldable pub insert : Map K V → K → V → Map K V
  insert m a v = (a, v) ∷ remove m a

  -- HashMap::retain
  unfoldable pub retain : (K → V → Bool) → Map K V → Map K V
  retain keep [] = []
  retain keep ((b, v) ∷ m) = let rest = retain keep m in if keep b v then (b, v) ∷ rest else rest

  -- Every key stands once.
  abbrev pub IsMap : Map K V → Type 0
  IsMap [] = Unit {0}
  IsMap ((b, v) ∷ m) = (lookup m b ≡ none) × IsMap m

  pub lookup-remove :
      (m : Map K V) (a b : K) → lookup (remove m a) b ≡ (if k.key_eq a b then none else lookup m b)
  unfolding lookup remove
  lookup-remove [] a b = ground arith
  lookup-remove ((c, v) ∷ m) a b =
      ground (arith, lookup-remove m a b, k.key_eq_iff c a, k.key_eq_iff c b, k.key_eq_iff a b)

  pub lookup-insert :
      (m : Map K V) (a b : K) (v : V)
      → lookup (insert m a v) b ≡ (if k.key_eq a b then some v else lookup m b)
  unfolding lookup insert
  lookup-insert m a b v = ground (arith, lookup-remove m a b)

  pub lookup-insert_self : (m : Map K V) (a : K) (v : V) → lookup (insert m a v) a ≡ some v
  lookup-insert_self m a v = ground (arith, lookup-insert m a a v, (k.key_eq_iff a a).1 refl)

  pub IsMap-remove : (m : Map K V) (a : K) → IsMap m → IsMap (remove m a)
  unfolding lookup remove
  IsMap-remove [] a h = h
  IsMap-remove ((b, v) ∷ m) a h = ground (arith, IsMap-remove m a h.1, lookup-remove m a b, h.0)

  pub IsMap-insert : (m : Map K V) (a : K) (v : V) → IsMap m → IsMap (insert m a v)
  unfolding insert
  IsMap-insert m a v h =
      ground (arith, lookup-remove m a a, (k.key_eq_iff a a).1 refl, IsMap-remove m a h)

  pub lookup-retain :
      (keep : K → V → Bool) (m : Map K V) (a : K)
      → IsMap m
      → lookup (retain keep m) a
        ≡ elim (lookup m a) [ none ↦ none | some v ↦ if keep a v then some v else none ]
  unfolding lookup retain
  lookup-retain keep [] a h = refl
  lookup-retain keep ((b, v) ∷ m) a h = elim (Bool-cases (k.key_eq b a)) [
    | inr other ↦ ground (arith, other, lookup-retain keep m a h.1)
    | inl found ↦
        let e = (k.key_eq_iff b a).0 found in
        let gone : lookup m a ≡ none = subst (λ x. lookup m x ≡ none) e h.0 in
        let same = ap (λ x. keep x v) e in
        ground (arith, found, gone, same, lookup-retain keep m a h.1)
  ]

  pub IsMap-retain : (keep : K → V → Bool) (m : Map K V) → IsMap m → IsMap (retain keep m)
  unfolding lookup retain
  IsMap-retain keep [] h = h
  IsMap-retain keep ((b, v) ∷ m) h =
      ground (arith, IsMap-retain keep m h.1, lookup-retain keep m b h.1, h.0)

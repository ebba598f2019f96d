-- ===== src/Quota/Window/Ledger.antt =====
-- The requests that the byte budgets admitted, and how much of them falls into an interval.
use asp.Base.{
  ℕ, ◌+◌, ◌≤◌, ◌≡◌, refl, ◌&&◌, List, [], ◌∷◌, ltb, leb, if◌then◌else◌, Result, ok, err, arith,
}
use asp.Base.Keys.{Key, Map}
use asp.Quota.Window.{ByteBudgetWindow, QuotaError, admit_bytes}

-- `size` bytes for `key` at the instant `at`
pub record Request (K : Type 0) : Type 0 where
  pub at : ℕ
  pub key : K
  pub size : ℕ

-- The clock does not go back, from `clock` on.
abbrev pub Ordered : {K : Type 0} → ℕ → List (Request K) → Type 0
Ordered clock [] = Unit {0}
Ordered clock (r ∷ requests) = (clock ≤ r.at) × Ordered r.at requests

-- The table, and the admitted requests, the newest first.
pub record Ledger (K : Type 0) : Type 0 where
  pub windows : Map K ByteBudgetWindow
  pub admitted : List (Request K)

module _ {K : Type 0} ⦃k : Key K⦄ where
  abbrev pub entered :
      List (Request K) → Request K → Result QuotaError (Unit {0}) → List (Request K)
  entered admitted r (ok _) = r ∷ admitted
  entered admitted r (err failure) = admitted

  unfoldable pub admit_one : ℕ → Ledger K → Request K → Ledger K
  unfolding admit_bytes
  admit_one limit l r =
      let result = admit_bytes limit r.at l.windows r.key r.size in
      record { windows = result.0; admitted = entered l.admitted r result.1 }

  unfoldable pub admit_all : ℕ → Ledger K → List (Request K) → Ledger K
  unfolding admit_one
  admit_all limit l [] = l
  admit_all limit l (r ∷ requests) = admit_all limit (admit_one limit l r) requests

  -- The admitted bytes of a key, from the instant `from` on and before the instant `to`.
  unfoldable pub spent : K → ℕ → ℕ → List (Request K) → ℕ
  spent key from to [] = 0
  spent key from to (r ∷ admitted) =
      let rest = spent key from to admitted in
      if k.key_eq r.key key && leb from r.at && ltb r.at to then r.size + rest else rest

  pub spent-split :
      (key : K) (from middle to : ℕ) (admitted : List (Request K))
      → from ≤ middle
      → middle ≤ to
      → spent key from to admitted ≡ spent key from middle admitted + spent key middle to admitted
  unfolding spent
  spent-split key from middle to [] h g = refl
  spent-split key from middle to (r ∷ admitted) h g =
      ground (arith, spent-split key from middle to admitted h g)

  pub spent_mono :
      (key : K) (a b c d : ℕ) (admitted : List (Request K))
      → a ≤ b
      → c ≤ d
      → spent key b c admitted ≤ spent key a d admitted
  unfolding spent
  spent_mono key a b c d [] h g = omega arith
  spent_mono key a b c d (r ∷ admitted) h g = ground (arith, spent_mono key a b c d admitted h g)

  -- The admitted bytes of a key from the instant `from` on.
  unfoldable pub spent_since : K → ℕ → List (Request K) → ℕ
  spent_since key from [] = 0
  spent_since key from (r ∷ admitted) =
      let rest = spent_since key from admitted in
      if k.key_eq r.key key && leb from r.at then r.size + rest else rest

  pub spent_since-split :
      (key : K) (from middle : ℕ) (admitted : List (Request K))
      → from ≤ middle
      → spent_since key from admitted
        ≡ spent key from middle admitted + spent_since key middle admitted
  unfolding spent spent_since
  spent_since-split key from middle [] h = refl
  spent_since-split key from middle (r ∷ admitted) h =
      ground (arith, spent_since-split key from middle admitted h)

  pub spent_since_mono :
      (key : K) (a b : ℕ) (admitted : List (Request K))
      → a ≤ b
      → spent_since key b admitted ≤ spent_since key a admitted
  unfolding spent_since
  spent_since_mono key a b [] h = omega arith
  spent_since_mono key a b (r ∷ admitted) h = ground (arith, spent_since_mono key a b admitted h)

  pub spent-le :
      (key : K) (a b : ℕ) (admitted : List (Request K))
      → spent key a b admitted ≤ spent_since key a admitted
  unfolding spent spent_since
  spent-le key a b [] = omega arith
  spent-le key a b (r ∷ admitted) = ground (arith, spent-le key a b admitted)

-- ===== src/Quota/Lease/Table.antt =====
-- The table of active connections: what a guard, its end and one connection's lease change in it.
use asp.Base.{
  ℕ, ◌+◌, ◌-◌, ◌≤◌, ◌≡◌, refl, sym, ap, subst, ◌∙◌, Bool, true, false, Bool-cases, inl, inr, Option,
  none, some, [], ◌∷◌, leb, ◌==◌, bytes_eq, bytes_eq→eq, bytes_eq_refl, if◌then◌else◌, arith,
}
use asp.Base.Keys.{
  Map, IsMap, lookup, insert, remove, string_key, uuid_key, lookup-insert, lookup-remove,
}
use asp.Event.{Bytes}
use asp.Quota.Lease.{or_default, guard, drop_guard, Connection, or_new}

-- What a principal has in the table for `n` connections.
abbrev pub counted : ℕ → Option ℕ
counted n = if n == 0 then none else some n

-- One more, for the principal that holds the lease.
abbrev pub with_lease : Option Bytes → Bytes → ℕ → ℕ
with_lease none principal n = n
with_lease (some holder) principal n = if bytes_eq holder principal then n + 1 else n

-- How many connections the principal holds.
unfoldable pub leases : Bytes → Map ℕ Connection → ℕ
leases principal [] = 0
leases principal ((id, c) ∷ connections) =
    with_lease c.lease principal (leases principal connections)

abbrev pub Counts : Map Bytes ℕ → (Bytes → ℕ) → Type 0
Counts active f = (p : Bytes) → lookup active p ≡ counted (f p)

abbrev pub plus : (Bytes → ℕ) → Option Bytes → Bytes → ℕ
plus f lease p = with_lease lease p (f p)

pub or_default-counted : (n : ℕ) → or_default (counted n) ≡ n
or_default-counted n = ground arith

pub insert-Counts :
    (active : Map Bytes ℕ) (f g : Bytes → ℕ) (q : Bytes) (n : ℕ)
    → Counts active f
    → 1 ≤ n
    → g q ≡ n
    → ((p : Bytes) → bytes_eq q p ≡ false → g p ≡ f p)
    → Counts (insert active q n) g
insert-Counts active f g q n c positive new old p = elim (Bool-cases (bytes_eq q p)) [
  | inl same ↦
      let at : g p ≡ n = subst (λ x. g x ≡ n) (bytes_eq→eq q p same) new in
      ground (arith, lookup-insert active q p n, same, at)
  | inr other ↦ ground (arith, lookup-insert active q p n, other, old p other, c p)
]

pub remove-Counts :
    (active : Map Bytes ℕ) (f g : Bytes → ℕ) (q : Bytes)
    → Counts active f
    → g q ≡ 0
    → ((p : Bytes) → bytes_eq q p ≡ false → g p ≡ f p)
    → Counts (remove active q) g
remove-Counts active f g q c new old p = elim (Bool-cases (bytes_eq q p)) [
  | inl same ↦
      let at : g p ≡ 0 = subst (λ x. g x ≡ 0) (bytes_eq→eq q p same) new in
      ground (arith, lookup-remove active q p, same, at)
  | inr other ↦ ground (arith, lookup-remove active q p, other, old p other, c p)
]

pub plus_self : (f : Bytes → ℕ) (q : Bytes) → plus f (some q) q ≡ f q + 1
plus_self f q = ground (arith, bytes_eq_refl q)

pub plus_other : (f : Bytes → ℕ) (q p : Bytes) → bytes_eq q p ≡ false → plus f (some q) p ≡ f p
plus_other f q p other = ground (arith, other)

-- What a granted or refused guard leaves.
abbrev pub Guarded : ℕ → (Bytes → ℕ) → Bytes → Map Bytes ℕ × Bool → Type 0
Guarded limit f q (active, true) = Counts active (plus f (some q)) × (f q + 1 ≤ limit)
Guarded limit f q (active, false) = Counts active f

pub guard-Guarded :
    (limit : ℕ) (active : Map Bytes ℕ) (f : Bytes → ℕ) (q : Bytes)
    → 1 ≤ limit
    → Counts active f
    → Guarded limit f q (guard limit active q)
unfolding guard Guarded
guard-Guarded limit active f q some_limit c =
    let count : or_default (lookup active q) ≡ f q =
      ap or_default (c q) ∙ or_default-counted (f q) in
    elim (Bool-cases (leb limit (or_default (lookup active q)))) [
      | inl full ↦ rw full (
          insert-Counts active f f q (or_default (lookup active q)) c (ground (arith, full))
            (sym count) (λ p other. refl))
      | inr room ↦ rw room (
        insert-Counts active f (plus f (some q)) q (or_default (lookup active q) + 1) c
            (omega arith) (plus_self f q ∙ ap (λ n. n + 1) (sym count)) (plus_other f q),
        ground (arith, room, count),
      )
    ]

pub drop_guard-Counts :
    (active : Map Bytes ℕ) (f : Bytes → ℕ) (q : Bytes)
    → Counts active (plus f (some q))
    → Counts (drop_guard active q) f
unfolding drop_guard
drop_guard-Counts active f q c =
    let found : lookup active q ≡ some (f q + 1) = ground (arith, c q, plus_self f q) in
    rw (drop_guard, found)
      (elim (Bool-cases (f q + 1 - 1 == 0)) [
        | inl last ↦ rw last (
            remove-Counts active (plus f (some q)) f q c (ground (arith, last))
              (λ p other. sym (plus_other f q p other)))
        | inr more ↦ rw more (
            insert-Counts active (plus f (some q)) f q (f q + 1 - 1) c (ground (arith, more))
              (omega arith) (λ p other. sym (plus_other f q p other)))
      ])

pub with_lease_swap :
    (a b : Option Bytes) (p : Bytes) (n : ℕ)
    → with_lease a p (with_lease b p n) ≡ with_lease b p (with_lease a p n)
with_lease_swap none b p n = refl
with_lease_swap (some q) none p n = refl
with_lease_swap (some q) (some r) p n = ground arith

pub leases-remove :
    (connections : Map ℕ Connection) (id : ℕ) (p : Bytes)
    → IsMap connections
    → leases p connections
      ≡ with_lease (or_new (lookup connections id)).lease p (leases p (remove connections id))
unfolding leases lookup remove
leases-remove [] id p h = refl
leases-remove ((i, c) ∷ connections) id p h = elim (Bool-cases (i == id)) [
  | inr other ↦ rw other (
      ap (with_lease c.lease p) (leases-remove connections id p h.1)
      ∙ with_lease_swap c.lease (or_new (lookup connections id)).lease p
          (leases p (remove connections id)))
  | inl same ↦
      let e : i ≡ id = ground (arith, same) in
      let gone : lookup connections id ≡ none = subst (λ x. lookup connections x ≡ none) e h.0 in
      rw same (
        ap (with_lease c.lease p) (
          leases-remove connections id p h.1
          ∙ ap (λ o. with_lease (or_new o).lease p (leases p (remove connections id))) gone))
]

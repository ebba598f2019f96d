-- ===== src/Recovery/Maps.antt =====
-- How updates of the maps change what is counted and what is found.
use asp.Base.{
  ℕ, ◌+◌, ◌≡◌, refl, Option, none, some, [], ◌∷◌, arith, Bool-cases, inl, inr, if◌then◌else◌, ◌==◌,
}
use asp.Base.Keys.{Map, lookup, insert, remove, IsMap, uuid_key, string_key}
use asp.Event.{Uuid}
use asp.Recovery.{ProcessRecord, count_running}

-- what one record adds to the count
abbrev pub live : Option ProcessRecord → ℕ
live none = 0
live (some p) = if p.running then 1 else 0

remove_absent : (m : Map Uuid ProcessRecord) (a : Uuid) → lookup m a ≡ none → remove m a ≡ m
unfolding lookup remove
remove_absent [] a h = refl
remove_absent ((b, v) ∷ m) a h = ground (arith, remove_absent m a)

pub count_running-remove :
    (m : Map Uuid ProcessRecord) (a : Uuid)
    → IsMap m
    → count_running (remove m a) + live (lookup m a) ≡ count_running m
unfolding lookup remove
count_running-remove [] a h = refl
count_running-remove ((b, v) ∷ m) a h = elim (Bool-cases (b == a)) [
  | inl eq ↦ ground (arith, remove_absent m a, h.0)
  | inr ne ↦ ground (arith, count_running-remove m a h.1)
]

pub count_running-insert :
    (m : Map Uuid ProcessRecord) (a : Uuid) (p : ProcessRecord)
    → IsMap m
    → count_running (insert m a p) + live (lookup m a) ≡ count_running m + live (some p)
unfolding insert
count_running-insert m a p h = ground (arith, count_running-remove m a h)

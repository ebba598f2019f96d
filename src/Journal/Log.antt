-- ===== src/Journal/Log.antt =====
-- The unbounded log that a journal stands for.
use asp.Base.{ℕ, ◌+◌, ◌≡◌, subst, List, [], ◌∷◌, ◌++◌, length, arith}
use asp.Event.{Event}
use asp.Journal.{Journal, total_bytes}

-- The events carry the ids from `from` to `last` in order, without a gap.
abbrev pub Numbered : ℕ → ℕ → List Event → Type 0
Numbered from last [] = from ≡ last + 1
Numbered from last (e ∷ events) = (e.id ≡ from) × Numbered (from + 1) last events

-- The journal is the window on `log` that is left after `evicted`, and accounts for its bytes.
pub record Represents (log : List Event) (j : Journal) : Type 0 where
  pub evicted : List Event
  pub split : log ≡ evicted ++ j.events
  pub numbered : Numbered 1 j.next_id log
  pub charged : j.approx_bytes ≡ total_bytes j.events

pub total_bytes-append :
    (xs ys : List Event) → total_bytes (xs ++ ys) ≡ total_bytes xs + total_bytes ys
total_bytes-append [] ys = omega arith
total_bytes-append (x ∷ xs) ys = omega (arith, total_bytes-append xs ys)

pub Numbered-length :
    (from last : ℕ) (events : List Event)
    → Numbered from last events
    → from + length events ≡ last + 1
Numbered-length from last [] h = omega arith
Numbered-length from last (e ∷ events) h = omega (arith, Numbered-length (from + 1) last events h.1)

pub Numbered-snoc :
    (from last : ℕ) (events : List Event) (e : Event)
    → Numbered from last events
    → e.id ≡ last + 1
    → Numbered from (last + 1) (events ++ (e ∷ []))
Numbered-snoc from last [] e h eq = omega arith
Numbered-snoc from last (d ∷ events) e h eq = (h.0, Numbered-snoc (from + 1) last events e h.1 eq)

-- The rest of a numbered log is numbered from where it begins.
pub Numbered-append :
    (from last : ℕ) (xs ys : List Event)
    → Numbered from last (xs ++ ys)
    → Numbered (from + length xs) last ys
Numbered-append from last [] ys h = subst (λ k. Numbered k last ys) {x = from} (omega arith) h
Numbered-append from last (x ∷ xs) ys h =
    subst (λ k. Numbered k last ys) {x = from + 1 + length xs} (omega arith)
      (Numbered-append (from + 1) last xs ys h.1)

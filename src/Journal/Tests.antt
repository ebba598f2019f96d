-- ===== src/Journal/Tests.antt =====
-- The journal's theorems at concrete journals.
use asp.Base.{
  ℕ, ◌*◌, ◌+◌, ◌≤◌, ◌≡◌, refl, true, false, some, List, [], ◌∷◌, ◌++◌, length, ltb, if◌then◌else◌,
  arith,
}
use asp.Event.{Event, session_created, pty_started, event_approx_bytes}
use asp.Journal.{
  Journal, append, enforce_bounds, rollback, since, after_id, front_unix_ms, journal_max_events,
  journal_max_bytes,
}
use asp.Journal.Log.{Numbered, Represents}
use asp.Journal.Ops.{append-Represents, enforce_bounds-Represents, rollback-append}
use asp.Journal.Since.{since_exact}

abbrev event : ℕ → Event
event n = record { id = n; unix_ms = 10 * n; kind = session_created }

-- Four events were logged, and the first two were evicted.
abbrev log : List Event
log = event 1 ∷ event 2 ∷ event 3 ∷ event 4 ∷ []

abbrev journal : Journal
journal = record {
  events = event 3 ∷ event 4 ∷ [];
  next_id = 4;
  approx_bytes = 256;
  oldest_event_unix_ms = some 30;
}

journal-Represents : Represents log journal
unfolding event_approx_bytes
journal-Represents = record {
  evicted = event 1 ∷ event 2 ∷ [];
  split = refl;
  numbered = (refl, (refl, (refl, (refl, refl))));
  charged = refl;
}

append-Represents_example :
    Represents (log ++ ((append 50 journal pty_started).0 ∷ [])) (append 50 journal pty_started).1
    × ((append 50 journal pty_started).0.id ≡ 5)
append-Represents_example =
    append-Represents 50 journal pty_started log journal-Represents (omega arith)
      (unfold event_approx_bytes append in omega arith)

enforce_bounds-Represents_example :
    (j' : Journal) × (enforce_bounds journal ≡ some j')
    × Represents log j'
    × (length j'.events ≤ journal_max_events)
    × (j'.approx_bytes ≤ journal_max_bytes)
    × (j'.next_id ≡ 4)
    × (j'.oldest_event_unix_ms ≡ front_unix_ms j'.events)
enforce_bounds-Represents_example = enforce_bounds-Represents journal log journal-Represents

rollback-append_example :
    rollback (append 50 journal pty_started).1 (append 50 journal pty_started).0 ≡ journal
rollback-append_example =
    rollback-append 50 journal pty_started (omega arith)
      (unfold event_approx_bytes append in omega arith) refl

since_exact_example :
    (since journal 1
      ≡ (if ltb 1 (length journal-Represents.evicted) then ([], true) else (after_id 1 log, false)))
    × Numbered (1 + 1) 4 (after_id 1 log)
since_exact_example = since_exact journal log journal-Represents 1 (omega arith) (omega arith)

-- The cursor 2 is the last one that the window serves.
since_runs : (since journal 2 ≡ (event 3 ∷ event 4 ∷ [], false)) × (since journal 1 ≡ ([], true))
unfolding since
since_runs = (refl, refl)

-- ===== src/Recovery/Tests.antt =====
-- The theorems on recovered sessions at concrete events.
use asp.Base.{ℕ, ◌*◌, ◌≤◌, ◌≡◌, refl, false, none, some, [], ◌∷◌, ◌++◌, length, arith}
use asp.Base.Keys.{lookup, uuid_key, string_key}
use asp.Event.{Bytes, Event, process_exited, artifact_deleted, session_created, event_approx_bytes}
use asp.Journal.{journal_max_events, journal_max_bytes, total_bytes}
use asp.Journal.Log.{Represents}
use asp.Recovery.{LoadedSession, SessionSnapshotData, from_snapshot, apply, apply_kind, started}
use asp.Recovery.Running.{Counted, apply-Counted}
use asp.Recovery.Artifacts.{Served, apply-Served}
use asp.Recovery.Restart.{push_all, journal_of, restart-Represents}

-- A stand-in for SHA-256.
abbrev hash : Bytes → Bytes
hash bytes = length bytes ∷ []

-- Three events lie before the snapshot; process 7 runs, and artifact 5 was created by request 1.
abbrev snapshot : SessionSnapshotData
snapshot = record {
  session_id = 1;
  through_event_id = 2;
  oldest_event_unix_ms = some 10;
  processes = (7, started (108 ∷ []) (some 400)) ∷ [];
  process_requests = [];
  file_versions = [];
  file_requests = [];
  signal_requests = [];
  artifact_requests =
      (
        1,
        record {
          request_hash = [];
          artifact_id = 5 ∷ [];
          total_size = 3;
          name = none;
          event_id = 2;
        },
      )
      ∷ [];
  artifacts =
      (
        5 ∷ [],
        record {
          artifact_id = 5 ∷ [];
          total_size = 3;
          name = none;
          created_event_id = 2;
          created_unix_ms = 20;
        },
      )
      ∷ [];
  pty_started = false;
  pty_generation = 0;
}

abbrev loaded : LoadedSession
loaded = from_snapshot hash snapshot

abbrev event : ℕ → Event
event n = record { id = n; unix_ms = 10 * n; kind = session_created }

abbrev exit : Event
exit = record { id = 3; unix_ms = 30; kind = process_exited 7 (some 0) }

abbrev deletion : Event
deletion = record { id = 3; unix_ms = 30; kind = artifact_deleted (5 ∷ []) 3 }

apply-Counted_example : Counted (apply hash loaded exit)
unfolding from_snapshot lookup
apply-Counted_example = apply-Counted hash loaded exit (refl, (refl, tt)) tt (omega arith)

-- The exit is counted.
exit_runs : (apply hash loaded exit).running_processes ≡ 0
unfolding apply from_snapshot apply_kind lookup
exit_runs = refl

apply-Served_example :
    Served (apply hash loaded deletion).artifact_requests (apply hash loaded deletion).artifacts
unfolding from_snapshot lookup
apply-Served_example = apply-Served hash loaded deletion (refl, tt)

restart-Represents_example :
    (t : LoadedSession) × (push_all hash (from_snapshot hash snapshot) (exit ∷ event 4 ∷ [])
      ≡ some t)
    × Represents ((event 1 ∷ event 2 ∷ []) ++ (exit ∷ event 4 ∷ [])) (journal_of t)
    × (t.next_id ≡ 4)
    × (length t.events ≤ journal_max_events)
    × (total_bytes t.events ≤ journal_max_bytes)
restart-Represents_example =
    restart-Represents hash snapshot (event 1 ∷ event 2 ∷ []) (exit ∷ event 4 ∷ []) 4
      (refl, (refl, refl)) (refl, (refl, refl))
      (unfold event_approx_bytes in (omega arith, (omega arith, tt)))

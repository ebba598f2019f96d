-- ===== src/Replay/Tests.antt =====
-- The bounded replay at concrete events.
use asp.Base.{ℕ, ◌*◌, ◌≡◌, ◌⊎◌, refl, [], ◌∷◌}
use asp.Event.{Event, session_created, event_approx_bytes}
use asp.Replay.{new, push, push_all}
use asp.Replay.Exact.{Holds, Refused, replay_exact}

abbrev event : ℕ → Event
event n = record { id = n; unix_ms = 10 * n; kind = session_created }

replay_exact_example :
    Holds (event 1 ∷ event 2 ∷ []) (push_all (new 1) (event 1 ∷ event 2 ∷ []))
    ⊎ Refused 1 (event 1 ∷ event 2 ∷ []) (push_all (new 1) (event 1 ∷ event 2 ∷ []))
replay_exact_example = replay_exact 1 (event 1 ∷ event 2 ∷ [])

replay_runs : (push_all (new 1) (event 1 ∷ event 2 ∷ event 3 ∷ [])).events ≡ event 2 ∷ event 3 ∷ []
unfolding new push event_approx_bytes
replay_runs = refl

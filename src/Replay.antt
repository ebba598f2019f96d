-- ===== src/Replay.antt =====
-- The bounded destination of a durable replay: `EventReplayBuffer` of
-- crates/asp-server/src/main.rs.
pub mod Exact
mod Tests
use asp.Base.{
  ℕ, ◌+◌, ◌≤◌, ◌<◌, ◌≡◌, refl, ap, sym, ◌∙◌, Bool, true, false, ◌||◌, List, [], ◌∷◌, ◌++◌,
  append_assoc, append-nil, length, length-append, arith, ltb, leb, if◌then◌else◌, saturating_add,
  Bool-cases, inl, inr,
}
use asp.Event.{Event, event_approx_bytes}
use asp.Journal.{after_id, total_bytes}
use asp.Journal.Log.{total_bytes-append}

abbrev pub max_durable_replay_events : ℕ
max_durable_replay_events = 100000

abbrev pub max_durable_replay_bytes : ℕ
max_durable_replay_bytes = 67108864

pub record EventReplayBuffer : Type 0 where
  pub after_event_id : ℕ
  pub events : List Event
  pub bytes : ℕ
  pub limit_reached : Bool

unfoldable pub new : ℕ → EventReplayBuffer
new after_event_id = record {
  after_event_id = after_event_id;
  events = [];
  bytes = 0;
  limit_reached = false;
}

unfoldable pub push : EventReplayBuffer → Event → EventReplayBuffer × Bool
push b event =
    let event_bytes = event_approx_bytes event in
    if leb event.id b.after_event_id
    then (b, true)
    else if leb max_durable_replay_events (length b.events)
        || ltb max_durable_replay_bytes (saturating_add b.bytes event_bytes)
    then (record b { limit_reached = true }, false)
    else (
      record b { bytes = saturating_add b.bytes event_bytes; events = b.events ++ (event ∷ []) },
      true,
    )

-- The scan stops at the event that is refused.
abbrev pub push_all : EventReplayBuffer → List Event → EventReplayBuffer
push_all b [] = b
push_all b (e ∷ events) =
    let rest = push_all (push b e).0 events in if (push b e).1 then rest else (push b e).0

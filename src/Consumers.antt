-- ===== src/Consumers.antt =====
-- The cursors of a session's event consumers: `ack_event_consumer`,
-- `prune_expired_event_consumers_locked` and `validate_event_consumer_id` of
-- crates/asp-server/src/main.rs. Whether the sidecar file is written is an argument, as is the clock.
pub mod Cursors
mod Tests
use asp.Base.{
  ℕ, Bool, true, false, not, ◌&&◌, ◌||◌, Option, none, some, List, [], ◌∷◌, length, max, ltb, leb,
  ◌==◌, if◌then◌else◌, saturating_add, Result, ok, err,
}
use asp.Base.Keys.{Map, lookup, insert, retain, string_key}
use asp.Event.{Bytes}

abbrev pub max_event_consumers_per_session : ℕ
max_event_consumers_per_session = 1024

abbrev pub max_event_consumer_id_bytes : ℕ
max_event_consumer_id_bytes = 128

-- seven days, in milliseconds
abbrev pub event_consumer_lease : ℕ
event_consumer_lease = 604800000

pub record EventConsumer : Type 0 where
  pub acknowledged_event_id : ℕ
  pub last_seen_unix_ms : ℕ

pub data ConsumerError : Type 0 where
  invalid_id ahead_of_head capacity_reached not_persisted : ConsumerError

-- `refused` is Rust's test of the id's characters: one of them is whitespace or a control character.
unfoldable pub validate_event_consumer_id : (Bytes → Bool) → Bytes → Bool
validate_event_consumer_id refused id =
    not (length id == 0 || ltb max_event_consumer_id_bytes (length id) || refused id)

-- consumers.get(id).map_or(through, |existing| existing.acknowledged_event_id.max(through))
abbrev pub acknowledged_or : Option EventConsumer → ℕ → ℕ
acknowledged_or none through = through
acknowledged_or (some c) through = max c.acknowledged_event_id through

abbrev pub is_new : Option EventConsumer → Bool
is_new none = true
is_new (some c) = false

abbrev pub acknowledged : Map Bytes EventConsumer → Bytes → ℕ → ℕ → Map Bytes EventConsumer
acknowledged consumers id through now = insert consumers id (record {
  acknowledged_event_id = acknowledged_or (lookup consumers id) through;
  last_seen_unix_ms = now;
})

-- `persists` says whether the sidecar is written, `head` is the journal's `next_id`.
unfoldable pub ack_event_consumer :
    (Bytes → Bool)
    → Bool
    → ℕ
    → ℕ
    → Map Bytes EventConsumer
    → Bytes
    → ℕ
    → Result ConsumerError ℕ × Map Bytes EventConsumer
unfolding validate_event_consumer_id
ack_event_consumer refused persists head now consumers id through =
    if not (validate_event_consumer_id refused id)
    then (err invalid_id, consumers)
    else if ltb head through
    then (err ahead_of_head, consumers)
    else if is_new (lookup consumers id) && leb max_event_consumers_per_session (length consumers)
    then (err capacity_reached, consumers)
    else if persists
    then (ok (acknowledged_or (lookup consumers id) through), acknowledged consumers id through now)
    else (err not_persisted, consumers)

unfoldable pub live_lease : ℕ → EventConsumer → Bool
live_lease now c = ltb now (saturating_add c.last_seen_unix_ms event_consumer_lease)

-- The result says whether a lease was removed.
unfoldable pub prune_expired_event_consumers :
    Bool → ℕ → Map Bytes EventConsumer → Result ConsumerError Bool × Map Bytes EventConsumer
unfolding live_lease
prune_expired_event_consumers persists now consumers =
    let left = retain (λ id c. live_lease now c) consumers in
    if length left == length consumers
    then (ok false, consumers)
    else if persists
    then (ok true, left)
    else (err not_persisted, consumers)

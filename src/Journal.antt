-- ===== src/Journal.antt =====
-- The bounded in-memory journal of crates/asp-server/src/main.rs, against the unbounded log that it
-- is a window of.
pub mod Log
pub mod Ops
pub mod Since
mod Tests
use asp.Base.{
  ℕ, zero, suc, ◌+◌, ◌-◌, ◌%◌, min, Bool, true, false, ◌||◌, Option, none, some, List, [], ◌∷◌,
  ◌++◌, length, ltb, leb, ◌==◌, if◌then◌else◌, saturating_add, saturating_sub,
}
use asp.Event.{Event, EventKind, event_approx_bytes}

abbrev pub journal_max_events : ℕ
journal_max_events = 20000

abbrev pub journal_max_bytes : ℕ
journal_max_bytes = 67108864

pub record Journal : Type 0 where
  pub events : List Event
  pub next_id : ℕ
  pub approx_bytes : ℕ
  pub oldest_event_unix_ms : Option ℕ

-- events.front().map(|event| event.unix_ms)
abbrev pub front_unix_ms : List Event → Option ℕ
front_unix_ms [] = none
front_unix_ms (e ∷ events) = some e.unix_ms

-- `u64` addition of one, which wraps in a release build
abbrev pub wrapping_succ : ℕ → ℕ
wrapping_succ n = (n + 1) % 18446744073709551616

-- oldest.map_or(now, |oldest| oldest.min(now))
abbrev pub min_or : Option ℕ → ℕ → ℕ
min_or none now = now
min_or (some oldest) now = min oldest now

-- events.iter().map(event_approx_bytes).sum()
abbrev pub total_bytes : List Event → ℕ
total_bytes [] = 0
total_bytes (e ∷ events) = event_approx_bytes e + total_bytes events

-- retained_oldest.or(oldest_event_unix_ms)
abbrev or_else : Option ℕ → Option ℕ → Option ℕ
or_else none b = b
or_else (some a) b = some a

unfoldable pub from_loaded : List Event → ℕ → Option ℕ → Journal
from_loaded events next_id oldest_event_unix_ms = record {
  events = events;
  next_id = next_id;
  approx_bytes = total_bytes events;
  oldest_event_unix_ms = or_else (front_unix_ms events) oldest_event_unix_ms;
}

-- `now` is what `unix_ms()` returns.
unfoldable pub append : ℕ → Journal → EventKind → Event × Journal
append now j kind =
    let next_id = wrapping_succ j.next_id in
    let event : Event = record { id = next_id; unix_ms = now; kind = kind } in
    (
      event,
      record {
        events = j.events ++ (event ∷ []);
        next_id = next_id;
        approx_bytes = saturating_add j.approx_bytes (event_approx_bytes event);
        oldest_event_unix_ms = some (min_or j.oldest_event_unix_ms now);
      },
    )

-- The loop of `enforce_bounds`. It does not end where no event is left and the charge is still over
-- the limit; `none` says that the fuel ran out.
unfoldable pub evict : ℕ → List Event → ℕ → Option (List Event × ℕ)
evict zero events approx_bytes = none
evict (suc fuel) [] approx_bytes =
    let again = evict fuel [] approx_bytes in
    if ltb journal_max_events 0 || ltb journal_max_bytes approx_bytes
    then again
    else some ([], approx_bytes)
evict (suc fuel) (old ∷ events) approx_bytes =
    let again = evict fuel events (saturating_sub approx_bytes (event_approx_bytes old)) in
    if ltb journal_max_events (length (old ∷ events)) || ltb journal_max_bytes approx_bytes
    then again
    else some (old ∷ events, approx_bytes)

unfoldable pub enforce_bounds : Journal → Option Journal
enforce_bounds j = elim (evict (length j.events + 1) j.events j.approx_bytes) [
  | none ↦ none
  | some (events, approx_bytes) ↦ some (record j {
    events = events;
    approx_bytes = approx_bytes;
    oldest_event_unix_ms = front_unix_ms events;
  })
]

-- events.back()
abbrev pub back : List Event → Option Event
back [] = none
back (e ∷ []) = some e
back (e ∷ d ∷ events) = back (d ∷ events)

-- what `pop_back` leaves
abbrev pub pop_back : List Event → List Event
pop_back [] = []
pop_back (e ∷ []) = []
pop_back (e ∷ d ∷ events) = e ∷ pop_back (d ∷ events)

abbrev pop_if : Journal → Event → Option Event → Journal
pop_if j event none = j
pop_if j event (some current) =
    if current.id == event.id
    then record {
      events = pop_back j.events;
      next_id = saturating_sub event.id 1;
      approx_bytes = saturating_sub j.approx_bytes (event_approx_bytes current);
      oldest_event_unix_ms = front_unix_ms (pop_back j.events);
    }
    else j

unfoldable pub rollback : Journal → Event → Journal
rollback j event = pop_if j event (back j.events)

unfoldable pub retained_from_event_id : Journal → ℕ
retained_from_event_id j = elim j.events [ [] ↦ saturating_add j.next_id 1 | e ∷ events ↦ e.id ]

-- .filter(|event| event.id > after)
abbrev pub after_id : ℕ → List Event → List Event
after_id after [] = []
after_id after (e ∷ events) =
    let rest = after_id after events in if ltb after e.id then e ∷ rest else rest

unfoldable pub since : Journal → ℕ → List Event × Bool
unfolding retained_from_event_id
since j after =
    let compacted = ltb (saturating_add after 1) (retained_from_event_id j) in
    (if compacted then [] else after_id after j.events, compacted)

-- ===== src/Consumers/Tests.antt =====
-- The consumers' cursors at a concrete map.
use asp.Base.{
  ℕ, Bool, false, ◌≤◌, ◌≡◌, ◌⊎◌, refl, true, [], ◌∷◌, ok, err, arith, Bool-cases, inl, inr,
  bytes_eq, ltb,
}
use asp.Base.Keys.{Map, lookup, string_key}
use asp.Event.{Bytes}
use asp.Consumers.{EventConsumer, ConsumerError, ack_event_consumer}
use asp.Consumers.Cursors.{Bounded, cursor, ack_event_consumer-Bounded}

-- Whether an id of one-byte characters begins with a blank or a control character.
abbrev blank_start : Bytes → Bool
blank_start [] = false
blank_start (c ∷ id) = ltb c 33

-- One consumer has acknowledged event 4.
abbrev consumers : Map Bytes EventConsumer
consumers = (97 ∷ [], record { acknowledged_event_id = 4; last_seen_unix_ms = 100 }) ∷ []

consumers-Bounded : Bounded 9 consumers
unfolding lookup
consumers-Bounded = record {
  within = λ id. elim (Bool-cases (bytes_eq (97 ∷ []) id)) [
    | inl same ↦ ground (arith, same)
    | inr different ↦ ground (arith, different)
  ];
  few = omega arith;
  once = (refl, tt);
}

-- It acknowledges event 7.
ack_event_consumer-Bounded_example :
    Bounded 9 (ack_event_consumer blank_start true 9 200 consumers (97 ∷ []) 7).1
    × ((other : Bytes)
        → cursor consumers other
          ≤ cursor (ack_event_consumer blank_start true 9 200 consumers (97 ∷ []) 7).1 other)
    × (((n : ℕ) × ((ack_event_consumer blank_start true 9 200 consumers (97 ∷ []) 7).0 ≡ ok n)
          × (cursor (ack_event_consumer blank_start true 9 200 consumers (97 ∷ []) 7).1 (97 ∷ [])
              ≡ n)
          × (7 ≤ n))
        ⊎ ((failure : ConsumerError) × (ack_event_consumer blank_start true 9 200 consumers
                (97 ∷ [])
                7
              ≡ (err failure, consumers))))
ack_event_consumer-Bounded_example =
    ack_event_consumer-Bounded blank_start true 9 200 consumers (97 ∷ []) 7 consumers-Bounded

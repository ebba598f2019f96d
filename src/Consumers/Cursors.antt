-- ===== src/Consumers/Cursors.antt =====
-- Acknowledged cursors never go back.
use asp.Base.{
  ℕ, ◌≤◌, ◌≡◌, refl, Bool, false, ◌&&◌, none, some, [], ◌∷◌, length, max, ltb, leb, if◌then◌else◌,
  ok, err, arith, Bool-cases, Option-cases, ◌⊎◌, inl, inr, bytes_eq, bytes_eq_refl, bytes_eq_iff,
  subst, ◌∙◌, ◌+◌,
}
use asp.Base.Keys.{Map, lookup, insert, remove, IsMap, IsMap-insert, lookup-insert, string_key}
use asp.Event.{Bytes}
use asp.Consumers.{
  EventConsumer, ConsumerError, ack_event_consumer, acknowledged, acknowledged_or,
  validate_event_consumer_id, is_new, max_event_consumers_per_session, ahead_of_head, invalid_id,
  capacity_reached, not_persisted,
}

-- the cursor of a consumer, 0 for one that never acknowledged
abbrev pub cursor : Map Bytes EventConsumer → Bytes → ℕ
cursor consumers id = elim (lookup consumers id) [ none ↦ 0 | some c ↦ c.acknowledged_event_id ]

-- Every cursor stands within the journal, and the number of consumers is bounded.
pub record Bounded (head : ℕ) (consumers : Map Bytes EventConsumer) : Type 0 where
  pub within : (id : Bytes) → cursor consumers id ≤ head
  pub few : length consumers ≤ max_event_consumers_per_session
  pub once : IsMap consumers

remove-length : (m : Map Bytes EventConsumer) (id : Bytes) → length (remove m id) ≤ length m
unfolding remove
remove-length [] id = omega arith
remove-length ((b, v) ∷ m) id = ground (arith, remove-length m id)

remove-length_present :
    (m : Map Bytes EventConsumer) (id : Bytes)
    → is_new (lookup m id) ≡ false
    → length (remove m id) + 1 ≤ length m
unfolding remove lookup
remove-length_present [] id h = absurd (cc)
remove-length_present ((b, v) ∷ m) id h = elim (Bool-cases (bytes_eq b id)) [
  | inl eq ↦ ground (arith, eq, remove-length m id)
  | inr ne ↦ ground (arith, ne, remove-length_present m id)
]

module _ (refused : Bytes → Bool) (persists : Bool) (head now : ℕ) where
  acknowledged_or_lem :
      (consumers : Map Bytes EventConsumer) (id : Bytes) (through : ℕ)
      → acknowledged_or (lookup consumers id) through ≡ max (cursor consumers id) through
  acknowledged_or_lem consumers id through = elim (Option-cases (lookup consumers id)) [
    | inl e ↦ ground (arith, e)
    | inr (c, e) ↦ ground (arith, e)
  ]

  cursor-acknowledged :
      (consumers : Map Bytes EventConsumer) (id : Bytes) (through : ℕ) (other : Bytes)
      → cursor (acknowledged consumers id through now) other ≡ (
          if bytes_eq id other
          then acknowledged_or (lookup consumers id) through
          else cursor consumers other)
  cursor-acknowledged consumers id through other = elim (Bool-cases (bytes_eq id other)) [
    | inl same ↦ ground (
      arith,
      same,
      lookup-insert consumers id other (record {
        acknowledged_event_id = acknowledged_or (lookup consumers id) through;
        last_seen_unix_ms = now;
      }),
    )
    | inr different ↦ ground (
      arith,
      different,
      lookup-insert consumers id other (record {
        acknowledged_event_id = acknowledged_or (lookup consumers id) through;
        last_seen_unix_ms = now;
      }),
    )
  ]

  cursor-acknowledged_self :
      (consumers : Map Bytes EventConsumer) (id : Bytes) (through : ℕ)
      → cursor (acknowledged consumers id through now) id
        ≡ acknowledged_or (lookup consumers id) through
  cursor-acknowledged_self consumers id through =
      ground (arith, cursor-acknowledged consumers id through id, bytes_eq_refl id)

  acknowledged-grows :
      (consumers : Map Bytes EventConsumer) (id : Bytes) (through : ℕ) (other : Bytes)
      → cursor consumers other ≤ cursor (acknowledged consumers id through now) other
  acknowledged-grows consumers id through other = elim (Bool-cases (bytes_eq id other)) [
    | inl same ↦
        let eq : id ≡ other = (bytes_eq_iff id other).0 same in
        subst (λ o. cursor consumers o ≤ cursor (acknowledged consumers id through now) o) eq
          (omega (
            arith,
            cursor-acknowledged_self consumers id through,
            acknowledged_or_lem consumers id through,
          ))
    | inr different ↦
        let e : cursor (acknowledged consumers id through now) other ≡ cursor consumers other =
          cursor-acknowledged consumers id through other ∙ rw different refl in
        omega (arith, e)
  ]

  acknowledged-within :
      (consumers : Map Bytes EventConsumer) (id : Bytes) (through : ℕ)
      → Bounded head consumers
      → through ≤ head
      → (other : Bytes) → cursor (acknowledged consumers id through now) other ≤ head
  acknowledged-within consumers id through b le other = elim (Bool-cases (bytes_eq id other)) [
    | inl same ↦
        let e : cursor (acknowledged consumers id through now) other
            ≡ acknowledged_or (lookup consumers id) through =
          cursor-acknowledged consumers id through other ∙ rw same refl in
        omega (arith, e, acknowledged_or_lem consumers id through, b.within id)
    | inr different ↦
        let e : cursor (acknowledged consumers id through now) other ≡ cursor consumers other =
          cursor-acknowledged consumers id through other ∙ rw different refl in
        omega (arith, e, b.within other)
  ]

  acknowledged-Bounded :
      (consumers : Map Bytes EventConsumer) (id : Bytes) (through : ℕ)
      → Bounded head consumers
      → through ≤ head
      → (is_new (lookup consumers id) && leb max_event_consumers_per_session (length consumers))
        ≡ false
      → Bounded head (acknowledged consumers id through now)
  unfolding insert
  acknowledged-Bounded consumers id through b le room = record {
    within = acknowledged-within consumers id through b le;
    few = elim (Bool-cases (is_new (lookup consumers id))) [
      | inl new ↦ ground (arith, new, room, remove-length consumers id)
      | inr old ↦ omega (arith, remove-length_present consumers id old, b.few)
    ];
    once =
        IsMap-insert consumers id
          (record {
            acknowledged_event_id = acknowledged_or (lookup consumers id) through;
            last_seen_unix_ms = now;
          })
          b.once;
  }

  -- Whatever a consumer acknowledges, no consumer's cursor goes back, every cursor stays within the
  -- journal, and there are never more than the permitted number of consumers. On success the
  -- consumer's cursor is what is returned, and covers what it acknowledged; on failure nothing changes.
  pub ack_event_consumer-Bounded :
      (consumers : Map Bytes EventConsumer) (id : Bytes) (through : ℕ)
      → Bounded head consumers
      → Bounded head (ack_event_consumer refused persists head now consumers id through).1
        × ((other : Bytes)
            → cursor consumers other
              ≤ cursor (ack_event_consumer refused persists head now consumers id through).1 other)
        × (((n : ℕ) × ((ack_event_consumer refused persists head now consumers id through).0 ≡ ok n)
              × (cursor (ack_event_consumer refused persists head now consumers id through).1 id
                  ≡ n)
              × (through ≤ n))
            ⊎ ((failure : ConsumerError) × (ack_event_consumer refused persists head now consumers
                    id through
                  ≡ (err failure, consumers))))
  unfolding ack_event_consumer
  ack_event_consumer-Bounded consumers id through b =
      elim (Bool-cases (validate_event_consumer_id refused id)) [
        | inr bad ↦ rw (bad, ack_event_consumer) (b, (λ other. omega arith), inr (invalid_id, refl))
        | inl good ↦ elim (Bool-cases (ltb head through)) [
          | inl ahead ↦
              rw (good, ahead, ack_event_consumer)
                (b, (λ other. omega arith), inr (ahead_of_head, refl))
          | inr behind ↦
              elim (Bool-cases (
                is_new (lookup consumers id)
                && leb max_event_consumers_per_session (length consumers))) [
                  | inl full ↦
                      rw (good, behind, full, ack_event_consumer)
                        (b, (λ other. omega arith), inr (capacity_reached, refl))
                  | inr room ↦ elim (Bool-cases persists) [
                    | inr lost ↦
                        rw (good, behind, room, lost, ack_event_consumer)
                          (b, (λ other. omega arith), inr (not_persisted, refl))
                    | inl kept ↦
                        rw (good, behind, room, kept, ack_event_consumer)
                          (
                            acknowledged-Bounded consumers id through b (ground arith)
                                (ground (arith, room)),
                            (λ other. acknowledged-grows consumers id through other),
                            inl (
                              acknowledged_or (lookup consumers id) through,
                              refl,
                              cursor-acknowledged_self consumers id through,
                              omega (arith, acknowledged_or_lem consumers id through),
                            ),
                          )
                  ]
                ]
        ]
      ]

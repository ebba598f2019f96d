-- ===== src/Quota/Lease/Exact.antt =====
-- The table of active connections counts exactly the connections that hold a lease.
use asp.Base.{
  ℕ, ◌+◌, ◌≤◌, ◌≡◌, refl, ap, subst, ◌∙◌, Bool, true, false, ◌||◌, Bool-cases, inl, inr, Option,
  none, some, List, [], ◌∷◌, ◌==◌, bytes_eq, bytes_eq→eq, if◌then◌else◌, ok, err, arith,
}
use asp.Base.Keys.{
  Map, IsMap, lookup, insert, remove, string_key, uuid_key, lookup-insert, lookup-remove,
  IsMap-insert, IsMap-remove,
}
use asp.Event.{Bytes}
use asp.Quota.Lease.{
  max_active_connections_per_principal, guard, principal_connection_guard, AuthPrincipal,
  Connection, quota, other_lease, other_credential, principal_identity_conflicts, install_lease,
  bind, install_connection_principal, Server, no_connections, Action, hello, revoked, closed,
  or_new, drop_lease, act, act_all,
}
use asp.Quota.Lease.Table.{
  counted, with_lease, leases, Counts, plus, Guarded, guard-Guarded, drop_guard-Counts,
  leases-remove,
}

-- The current principal is the one that holds the lease.
abbrev pub Bound : Connection → Type 0
Bound c = (a : AuthPrincipal) → c.current ≡ some a → c.lease ≡ some a.id

-- A table, and one connection beside others that hold `rest`.
record Beside (rest : Bytes → ℕ) (active : Map Bytes ℕ) (c : Connection) : Type 0 where
  counts : Counts active (plus rest c.lease)
  few : (p : Bytes) → plus rest c.lease p ≤ max_active_connections_per_principal
  bound : Bound c

Bound-new :
    (lease : Bytes) (a : AuthPrincipal)
    → lease ≡ a.id
    → Bound (record { lease = some lease; current = some a })
Bound-new lease a e b h =
    let same : a ≡ b = ground (arith, h) in ap (λ x. some x) (e ∙ ap (λ x. x.id) same)

few_guarded :
    (rest : Bytes → ℕ) (q p : Bytes)
    → rest q + 1 ≤ max_active_connections_per_principal
    → ((x : Bytes) → rest x ≤ max_active_connections_per_principal)
    → plus rest (some q) p ≤ max_active_connections_per_principal
few_guarded rest q p room few = elim (Bool-cases (bytes_eq q p)) [
  | inl same ↦ ground (arith, same, room, ap rest (bytes_eq→eq q p same))
  | inr other ↦ ground (arith, other, few p)
]

granted-Beside :
    (rest : Bytes → ℕ) (granted : Map Bytes ℕ × Bool) (current : Option AuthPrincipal)
    (a : AuthPrincipal)
    → ((x : Bytes) → rest x ≤ max_active_connections_per_principal)
    → Bound (record { lease = none; current = current })
    → Guarded max_active_connections_per_principal rest a.id granted
    → let result =
        bind
          (granted.0, if granted.1 then ok a.id else err quota)
          (record { lease = none; current = current })
          a in
      Beside rest result.0 result.1
unfolding Guarded
granted-Beside rest (active, true) current a few bound (c, room) = record {
  counts = c;
  few = λ p. few_guarded rest a.id p room few;
  bound = Bound-new a.id a refl;
}
granted-Beside rest (active, false) current a few bound c = record {
  counts = λ p. c p;
  few = λ p. few p;
  bound = bound;
}

install-Beside :
    (rest : Bytes → ℕ) (active : Map Bytes ℕ) (lease : Option Bytes)
    (current : Option AuthPrincipal) (a : AuthPrincipal)
    → Beside rest active (record { lease = lease; current = current })
    → let result =
        install_connection_principal active (record { lease = lease; current = current }) a in
      Beside rest result.0 result.1
unfolding install_connection_principal principal_identity_conflicts install_lease
    principal_connection_guard
install-Beside rest active (some holder) current a b =
    elim (Bool-cases (other_lease (some holder) a || other_credential current a)) [
      | inl conflicts ↦ rw conflicts b
      | inr agrees ↦
          let same : bytes_eq holder a.id ≡ true = ground (arith, agrees) in
          rw agrees (record {
            counts = b.counts;
            few = b.few;
            bound = Bound-new holder a (bytes_eq→eq holder a.id same);
          })
    ]
install-Beside rest active none current a b = elim (Bool-cases (other_credential current a)) [
  | inl conflicts ↦ rw conflicts b
  | inr agrees ↦ rw agrees (
      granted-Beside rest (guard max_active_connections_per_principal active a.id) current a
        (λ p. b.few p) b.bound
        (guard-Guarded max_active_connections_per_principal active rest a.id (omega arith)
          (λ p. b.counts p)))
]

record Exact (s : Server) : Type 0 where
  distinct : IsMap s.connections
  counts : Counts s.active (λ p. leases p s.connections)
  few : (p : Bytes) → leases p s.connections ≤ max_active_connections_per_principal
  bound : (id : ℕ) → Bound (or_new (lookup s.connections id))

-- One connection apart from the others.
Exact-Beside :
    (s : Server) (id : ℕ)
    → Exact s
    → Beside (λ p. leases p (remove s.connections id)) s.active (or_new (lookup s.connections id))
Exact-Beside s id e = record {
  counts = λ p. e.counts p ∙ ap counted (leases-remove s.connections id p e.distinct);
  few = λ p.
      subst (λ n. n ≤ max_active_connections_per_principal)
        (leases-remove s.connections id p e.distinct) (e.few p);
  bound = e.bound id;
}

Beside-Exact :
    (connections : Map ℕ Connection) (active : Map Bytes ℕ) (c : Connection) (id : ℕ)
    → IsMap connections
    → ((other : ℕ) → Bound (or_new (lookup connections other)))
    → Beside (λ p. leases p (remove connections id)) active c
    → Exact (record { active = active; connections = insert connections id c })
unfolding leases insert
Beside-Exact connections active c id distinct bound b = record {
  distinct = IsMap-insert connections id c distinct;
  counts = b.counts;
  few = b.few;
  bound = λ other. elim (Bool-cases (id == other)) [
    | inl same ↦
        let e : some c ≡ lookup (insert connections id c) other =
          ground (arith, lookup-insert connections id other c, same) in
        subst (λ o. Bound (or_new o)) e b.bound
    | inr differs ↦
        let e : lookup connections other ≡ lookup (insert connections id c) other =
          ground (arith, lookup-insert connections id other c, differs) in
        subst (λ o. Bound (or_new o)) e (bound other)
  ];
}

drop_lease-Counts :
    (active : Map Bytes ℕ) (f : Bytes → ℕ) (lease : Option Bytes)
    → Counts active (plus f lease)
    → Counts (drop_lease active lease) f
drop_lease-Counts active f none c = c
drop_lease-Counts active f (some q) c = drop_guard-Counts active f q c

with_lease_le : (lease : Option Bytes) (p : Bytes) (n : ℕ) → n ≤ with_lease lease p n
with_lease_le none p n = omega arith
with_lease_le (some q) p n = ground arith

act-Exact : (s : Server) (a : Action) → Exact s → Exact (act s a)
unfolding act
act-Exact s (hello id a) e = Beside-Exact s.connections _ _ id e.distinct e.bound (
    install-Beside (λ p. leases p (remove s.connections id)) s.active
      (or_new (lookup s.connections id)).lease (or_new (lookup s.connections id)).current a
      (Exact-Beside s id e))
act-Exact s (revoked id) e =
    let b = Exact-Beside s id e in
    Beside-Exact s.connections s.active _ id e.distinct e.bound
      (record { counts = b.counts; few = b.few; bound = λ a h. absurd (cc) })
act-Exact s (closed id) e =
    let b = Exact-Beside s id e in
    record {
      distinct = IsMap-remove s.connections id e.distinct;
      counts =
          drop_lease-Counts s.active (λ p. leases p (remove s.connections id))
            (or_new (lookup s.connections id)).lease b.counts;
      few = λ p. omega (
        arith,
        b.few p,
        with_lease_le (or_new (lookup s.connections id)).lease p
            (leases p (remove s.connections id)),
      );
      bound = λ other. elim (Bool-cases (id == other)) [
        | inl same ↦
            let gone : none ≡ lookup (remove s.connections id) other =
              ground (arith, lookup-remove s.connections id other, same) in
            subst (λ o. Bound (or_new o)) gone (λ a h. absurd (cc))
        | inr differs ↦
            let kept : lookup s.connections other ≡ lookup (remove s.connections id) other =
              ground (arith, lookup-remove s.connections id other, differs) in
            subst (λ o. Bound (or_new o)) kept (e.bound other)
      ];
    }

act_all-Exact : (s : Server) (actions : List Action) → Exact s → Exact (act_all s actions)
unfolding act_all
act_all-Exact s [] e = e
act_all-Exact s (a ∷ actions) e = act_all-Exact (act s a) actions (act-Exact s a e)

-- After any handshakes, revocations and ends of connections, the table has for each principal the
-- number of connections whose lease it holds, and no entry for none; that number is at most 32; and a
-- connection's current principal is the one that holds its lease.
pub act_all_exact :
    (actions : List Action)
    → let s = act_all no_connections actions in
      ((p : Bytes)
        → (lookup s.active p ≡ counted (leases p s.connections))
          × (leases p s.connections ≤ max_active_connections_per_principal))
      × ((id : ℕ) → Bound (or_new (lookup s.connections id)))
unfolding lookup leases
act_all_exact actions =
    let e = act_all-Exact no_connections actions (record {
      distinct = tt;
      counts = λ p. refl;
      few = λ p. omega arith;
      bound = λ id a h. absurd (cc);
    }) in
    ((λ p. (e.counts p, e.few p)), e.bound)

-- ===== src/Quota/Lease.antt =====
-- The guards that count a principal's connections and request streams in
-- crates/asp-server/src/main.rs: `principal_connection_guard`, `principal_request_stream_guard`, the
-- `Drop` of both, `principal_identity_conflicts` and `install_connection_principal`, where
-- authentication is required.
pub mod Table
pub mod Exact
use asp.Base.{
  ℕ, ◌+◌, ◌-◌, Bool, true, false, not, ◌||◌, Option, none, some, List, [], ◌∷◌, leb, ◌==◌, bytes_eq,
  if◌then◌else◌, Result, ok, err,
}
use asp.Base.Keys.{Map, lookup, insert, remove, string_key, uuid_key}
use asp.Event.{Bytes, Uuid}

abbrev pub max_active_connections_per_principal : ℕ
max_active_connections_per_principal = 32

abbrev pub max_concurrent_requests_per_principal : ℕ
max_concurrent_requests_per_principal = 512

-- `entry(principal).or_default()`
abbrev pub or_default : Option ℕ → ℕ
or_default none = 0
or_default (some count) = count

-- Both guards, which differ in their table and their limit: the new table, and whether the guard is
-- granted.
unfoldable pub guard : ℕ → Map Bytes ℕ → Bytes → Map Bytes ℕ × Bool
guard limit active principal =
    let count = or_default (lookup active principal) in
    if leb limit count
    then (insert active principal count, false)
    else (insert active principal (count + 1), true)

unfoldable pub principal_connection_guard : Map Bytes ℕ → Bytes → Map Bytes ℕ × Bool
unfolding guard
principal_connection_guard active principal =
    guard max_active_connections_per_principal active principal

unfoldable pub principal_request_stream_guard : Map Bytes ℕ → Bytes → Map Bytes ℕ × Bool
unfolding guard
principal_request_stream_guard active principal =
    guard max_concurrent_requests_per_principal active principal

-- The guard is dropped.
unfoldable pub drop_guard : Map Bytes ℕ → Bytes → Map Bytes ℕ
drop_guard active principal = elim (lookup active principal) [
  | none ↦ active
  | some count ↦
      if count - 1 == 0 then remove active principal else insert active principal (count - 1)
]

-- `certificate_sha256` and `scopes` play no part here.
pub record AuthPrincipal : Type 0 where
  pub id : Bytes
  pub credential : Bytes

-- The principal that holds the connection's lease, and the current credential.
pub record Connection : Type 0 where
  pub lease : Option Bytes
  pub current : Option AuthPrincipal

pub data PrincipalInstallError : Type 0 where
  conflict quota : PrincipalInstallError

abbrev pub other_lease : Option Bytes → AuthPrincipal → Bool
other_lease none candidate = false
other_lease (some principal) candidate = not (bytes_eq principal candidate.id)

abbrev pub other_credential : Option AuthPrincipal → AuthPrincipal → Bool
other_credential none candidate = false
other_credential (some existing) candidate = not (bytes_eq existing.credential candidate.credential)

unfoldable pub principal_identity_conflicts : Connection → AuthPrincipal → Bool
principal_identity_conflicts c candidate =
    other_lease c.lease candidate || other_credential c.current candidate

-- The lease, where there is none yet.
unfoldable pub install_lease :
    Map Bytes ℕ → Option Bytes → AuthPrincipal → Map Bytes ℕ × Result PrincipalInstallError Bytes
unfolding principal_connection_guard
install_lease active (some principal) candidate = (active, ok principal)
install_lease active none candidate =
    let granted = principal_connection_guard active candidate.id in
    (granted.0, if granted.1 then ok candidate.id else err quota)

abbrev pub bind :
    Map Bytes ℕ × Result PrincipalInstallError Bytes
    → Connection
    → AuthPrincipal
    → Map Bytes ℕ × Connection × Result PrincipalInstallError (Unit {0})
bind (active, err e) c candidate = (active, c, err e)
bind (active, ok principal) c candidate =
    (active, record { lease = some principal; current = some candidate }, ok tt)

unfoldable pub install_connection_principal :
    Map Bytes ℕ
    → Connection
    → AuthPrincipal
    → Map Bytes ℕ × Connection × Result PrincipalInstallError (Unit {0})
unfolding principal_identity_conflicts install_lease
install_connection_principal active c candidate =
    if principal_identity_conflicts c candidate
    then (active, c, err conflict)
    else bind (install_lease active c.lease candidate) c candidate

-- The server's table and its connections.
pub record Server : Type 0 where
  pub active : Map Bytes ℕ
  pub connections : Map ℕ Connection

abbrev pub no_connections : Server
no_connections = record { active = []; connections = [] }

-- A HELLO with valid credentials, the clearing of a revoked credential, and the end of a connection.
pub data Action : Type 0 where
  hello : ℕ → AuthPrincipal → Action
  revoked : ℕ → Action
  closed : ℕ → Action

-- A connection starts without a principal.
abbrev pub or_new : Option Connection → Connection
or_new none = record { lease = none; current = none }
or_new (some c) = c

abbrev pub drop_lease : Map Bytes ℕ → Option Bytes → Map Bytes ℕ
drop_lease active none = active
drop_lease active (some principal) = drop_guard active principal

unfoldable pub act : Server → Action → Server
unfolding install_connection_principal drop_guard
act s (hello id candidate) =
    let (active, c, result) =
      install_connection_principal s.active (or_new (lookup s.connections id)) candidate in
    record { active = active; connections = insert s.connections id c }
act s (revoked id) =
    let c = or_new (lookup s.connections id) in
    record s { connections = insert s.connections id (record c { current = none }) }
act s (closed id) =
    let c = or_new (lookup s.connections id) in
    record { active = drop_lease s.active c.lease; connections = remove s.connections id }

unfoldable pub act_all : Server → List Action → Server
unfolding act
act_all s [] = s
act_all s (a ∷ actions) = act_all (act s a) actions

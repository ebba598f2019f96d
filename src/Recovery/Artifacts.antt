-- ===== src/Recovery/Artifacts.antt =====
-- The artifact requests that `LoadedSession` remembers, and the artifacts that they answer with.
use asp.Base.{
  ℕ, ◌≡◌, refl, Bool, true, false, not, none, some, [], ◌∷◌, arith, bytes_eq, bytes_eq_iff,
  Bool-cases, Option-cases, inl, inr,
}
use asp.Base.Keys.{
  Map, lookup, insert, remove, retain, lookup-insert, lookup-remove, uuid_key, string_key,
}
use asp.Event.{
  Uuid, Bytes, Event, EventKind, session_created, process_started, process_output, process_exited,
  pty_started, pty_state_advanced, file_changed, file_mutation, signal_applied, artifact_created,
  artifact_deleted,
}
use asp.Recovery.{LoadedSession, ArtifactRequest, ArtifactRecord, apply, apply_kind}

abbrev pub contains_key : Map Bytes ArtifactRecord → Bytes → Bool
contains_key m id = elim (lookup m id) [ none ↦ false | some a ↦ true ]

-- Every remembered request names an artifact that is there.
abbrev pub Served : Map Uuid ArtifactRequest → Map Bytes ArtifactRecord → Type 0
Served [] artifacts = Unit {0}
Served ((id, r) ∷ requests) artifacts =
    (contains_key artifacts r.artifact_id ≡ true) × Served requests artifacts

Served-remove :
    (m : Map Uuid ArtifactRequest) (artifacts : Map Bytes ArtifactRecord) (id : Uuid)
    → Served m artifacts
    → Served (remove m id) artifacts
unfolding remove
Served-remove [] artifacts id h = h
Served-remove ((b, r) ∷ m) artifacts id h = ground (arith, Served-remove m artifacts id h.1, h.0)

Served-insert_artifact :
    (m : Map Uuid ArtifactRequest) (artifacts : Map Bytes ArtifactRecord) (id : Bytes)
    (a : ArtifactRecord)
    → Served m artifacts
    → Served m (insert artifacts id a)
Served-insert_artifact [] artifacts id a h = tt
Served-insert_artifact ((b, r) ∷ m) artifacts id a h = (
  ground (arith, lookup-insert artifacts id r.artifact_id a, h.0),
  Served-insert_artifact m artifacts id a h.1,
)

contains_key-insert_self :
    (artifacts : Map Bytes ArtifactRecord) (id : Bytes) (a : ArtifactRecord)
    → contains_key (insert artifacts id a) id ≡ true
contains_key-insert_self artifacts id a =
    ground (arith, lookup-insert artifacts id id a, (bytes_eq_iff id id).1 refl)

-- Deleting an artifact forgets the requests that it answered.
Served-delete :
    (m : Map Uuid ArtifactRequest) (artifacts : Map Bytes ArtifactRecord) (id : Bytes)
    → Served m artifacts
    → Served
        (retain (λ request_id request. not (bytes_eq request.artifact_id id)) m)
        (remove artifacts id)
unfolding retain
Served-delete [] artifacts id h = tt
Served-delete ((b, r) ∷ m) artifacts id h = elim (Bool-cases (bytes_eq r.artifact_id id)) [
  | inl eq ↦ rw (eq, retain) (Served-delete m artifacts id h.1)
  | inr ne ↦
      rw (ne, retain)
        (
          ground (
            arith,
            ne,
            h.0,
            lookup-remove artifacts id r.artifact_id,
            bytes_eq_iff id r.artifact_id,
            bytes_eq_iff r.artifact_id id,
          ),
          Served-delete m artifacts id h.1,
        )
]

module _ (sha256 : Bytes → Bytes) where
  apply_kind-Served :
      (s : LoadedSession) (id now : ℕ) (kind : EventKind)
      → Served s.artifact_requests s.artifacts
      → Served
          (apply_kind sha256 s id now kind).artifact_requests
          (apply_kind sha256 s id now kind).artifacts
  unfolding apply_kind insert
  apply_kind-Served s id now session_created h = h
  apply_kind-Served s id now (process_started process_id command pid request_id) h = h
  apply_kind-Served s id now (process_output process_id stream offset bytes) h =
      elim (Option-cases (lookup s.processes process_id)) [
        | inl e ↦ rw (e, apply_kind) h
        | inr (p, e) ↦ rw (e, apply_kind) h
      ]
  apply_kind-Served s id now (process_exited process_id code) h =
      elim (Option-cases (lookup s.processes process_id)) [
        | inl e ↦ rw (e, apply_kind) h
        | inr (p, e) ↦ rw (e, apply_kind) h
      ]
  apply_kind-Served s id now pty_started h = h
  apply_kind-Served s id now (pty_state_advanced generation) h = h
  apply_kind-Served s id now (file_changed path version) h = h
  apply_kind-Served s id now (file_mutation request_id request_hash path version sha) h = h
  apply_kind-Served s id now (signal_applied request_id hash process_id signal success message) h =
      h
  apply_kind-Served s id now (artifact_created request_id hash artifact_id total_size name) h = (
    contains_key-insert_self s.artifacts artifact_id _,
    Served-insert_artifact (remove s.artifact_requests request_id) s.artifacts artifact_id _
        (Served-remove s.artifact_requests s.artifacts request_id h),
  )
  apply_kind-Served s id now (artifact_deleted artifact_id total_size) h =
      Served-delete s.artifact_requests s.artifacts artifact_id h

  -- Whatever event a session takes, every artifact request that it remembers names an artifact that
  -- is there, if that was so before.
  pub apply-Served :
      (s : LoadedSession) (e : Event)
      → Served s.artifact_requests s.artifacts
      → Served (apply sha256 s e).artifact_requests (apply sha256 s e).artifacts
  unfolding apply
  apply-Served s e h = apply_kind-Served s e.id e.unix_ms e.kind h

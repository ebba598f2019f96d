-- ===== src/Recovery/Running.antt =====
-- The number of running processes that `LoadedSession` keeps.
use asp.Base.{ℕ, ◌<◌, ◌≡◌, refl, ap, length, true, some, arith, u64_max, Option-cases, inl, inr}
use asp.Base.Keys.{lookup, insert, IsMap, IsMap-insert, uuid_key}
use asp.Event.{
  Uuid, Bytes, Event, EventKind, OutputStream, stdout, stderr, process_started, process_output,
  process_exited, session_created, pty_started, pty_state_advanced, file_changed, file_mutation,
  signal_applied, artifact_created, artifact_deleted,
}
use asp.Recovery.{
  LoadedSession, ProcessRecord, apply, apply_kind, count_running, started, add_output, exited,
}
use asp.Recovery.Maps.{live, count_running-insert}

-- `running_processes` is the number of the records that run.
abbrev pub Counted : LoadedSession → Type 0
Counted s = (s.running_processes ≡ count_running s.processes) × IsMap s.processes

-- No event starts a process again that has exited.
abbrev pub StartsFresh : LoadedSession → EventKind → Type 0
StartsFresh s (process_started process_id command pid request_id) =
    (p : ProcessRecord) → lookup s.processes process_id ≡ some p → p.running ≡ true
StartsFresh s _ = Unit {0}

add_output-running :
    (stream : OutputStream) (n : ℕ) (p : ProcessRecord)
    → live (some (add_output stream n p)) ≡ live (some p)
add_output-running stdout n p = refl
add_output-running stderr n p = refl

-- A record that is replaced by one that runs as the old one did leaves the count.
adjust-Counted :
    (s : LoadedSession) (id : Uuid) (p q : ProcessRecord)
    → Counted s
    → lookup s.processes id ≡ some p
    → live (some q) ≡ live (some p)
    → Counted (record s { processes = insert s.processes id q })
adjust-Counted s id p q c e same = (
  omega (arith, c.0, count_running-insert s.processes id q c.1, ap live e, same),
  IsMap-insert s.processes id q c.1,
)

module _ (sha256 : Bytes → Bytes) where
  apply_kind-Counted :
      (s : LoadedSession) (id now : ℕ) (kind : EventKind)
      → Counted s
      → StartsFresh s kind
      → s.running_processes < u64_max
      → Counted (apply_kind sha256 s id now kind)
  unfolding apply_kind
  apply_kind-Counted s id now session_created c fresh room = c
  apply_kind-Counted s id now (process_started process_id command pid request_id) c fresh room =
      elim (Option-cases (lookup s.processes process_id)) [
        | inl e ↦ (
          ground (
            arith,
            e,
            c.0,
            count_running-insert s.processes process_id (started command pid) c.1,
          ),
          IsMap-insert s.processes process_id (started command pid) c.1,
        )
        | inr (p, e) ↦ (
          ground (
            arith,
            e,
            c.0,
            fresh p e,
            count_running-insert s.processes process_id (started command pid) c.1,
          ),
          IsMap-insert s.processes process_id (started command pid) c.1,
        )
      ]
  apply_kind-Counted s id now (process_output process_id stream offset bytes) c fresh room =
      elim (Option-cases (lookup s.processes process_id)) [
        | inl e ↦ rw (e, apply_kind) c
        | inr (p, e) ↦
            rw (e, apply_kind)
              (adjust-Counted s process_id p (add_output stream (length bytes) p) c e
                (add_output-running stream (length bytes) p))
      ]
  apply_kind-Counted s id now (process_exited process_id code) c fresh room =
      elim (Option-cases (lookup s.processes process_id)) [
        | inl e ↦ rw (e, apply_kind) c
        | inr (p, e) ↦
            rw (e, apply_kind)
              (
                ground (
                  arith,
                  e,
                  c.0,
                  count_running-insert s.processes process_id (exited code now p) c.1,
                ),
                IsMap-insert s.processes process_id (exited code now p) c.1,
              )
      ]
  apply_kind-Counted s id now pty_started c fresh room = c
  apply_kind-Counted s id now (pty_state_advanced generation) c fresh room = c
  apply_kind-Counted s id now (file_changed path version) c fresh room = c
  apply_kind-Counted s id now (file_mutation request_id request_hash path version sha) c fresh
        room =
      c
  apply_kind-Counted s id now
        (signal_applied request_id request_hash process_id signal success message) c fresh room =
      c
  apply_kind-Counted s id now (artifact_created request_id request_hash artifact_id total_size name)
        c fresh room =
      c
  apply_kind-Counted s id now (artifact_deleted artifact_id total_size) c fresh room = c

  -- Each event that a session takes keeps its count of running processes right, if it starts no
  -- process again that has exited.
  pub apply-Counted :
      (s : LoadedSession) (e : Event)
      → Counted s
      → StartsFresh s e.kind
      → s.running_processes < u64_max
      → Counted (apply sha256 s e)
  unfolding apply
  apply-Counted s e c fresh room = apply_kind-Counted s e.id e.unix_ms e.kind c fresh room

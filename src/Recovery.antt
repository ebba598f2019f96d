-- ===== src/Recovery.antt =====
-- The state that a daemon rebuilds from a session's events: `LoadedSession` of
-- crates/asp-server/src/main.rs, its records, and the snapshot that it starts from. `sha256` is a
-- parameter.
pub mod Maps
pub mod Running
pub mod Artifacts
pub mod Restart
mod Tests
use asp.Base.{
  ℕ, ◌+◌, ◌-◌, ◌%◌, ◌≤◌, Bool, true, false, not, Option, none, some, List, [], ◌∷◌, ◌++◌, length,
  min, max, bytes_eq, leb, if◌then◌else◌, saturating_add, saturating_sub,
}
use asp.Base.Keys.{Map, lookup, insert, remove, retain, uuid_key, string_key}
use asp.Event.{
  Uuid, Bytes, OutputStream, stdout, stderr, EventKind, session_created, process_started,
  process_output, process_exited, pty_started, pty_state_advanced, file_changed, file_mutation,
  signal_applied, artifact_created, artifact_deleted, Event, event_approx_bytes,
}
use asp.Journal.{evict, front_unix_ms, min_or}

abbrev pub process_output_max_bytes : ℕ
process_output_max_bytes = 536870912

pub record ProcessRecord : Type 0 where
  pub command : Bytes
  pub running : Bool
  pub exit_code : Option ℕ
  pub exit_unix_ms : Option ℕ
  pub pid : Option ℕ
  pub pid_start_time : Option ℕ
  pub stdout_bytes : ℕ
  pub stderr_bytes : ℕ

pub record ProcessRequest : Type 0 where
  pub command : Bytes
  pub command_hash : Option Bytes
  pub process_id : Uuid
  pub started_event_id : ℕ

pub record FileRequest : Type 0 where
  pub request_hash : Bytes
  pub path : Bytes
  pub version : ℕ
  pub sha256 : Bytes

pub record SignalRequest : Type 0 where
  pub request_hash : Bytes
  pub process_id : Uuid
  pub signal : ℕ
  pub success : Bool
  pub message : Option Bytes

pub record ArtifactRequest : Type 0 where
  pub request_hash : Bytes
  pub artifact_id : Bytes
  pub total_size : ℕ
  pub name : Option Bytes
  pub event_id : ℕ

pub record ArtifactRecord : Type 0 where
  pub artifact_id : Bytes
  pub total_size : ℕ
  pub name : Option Bytes
  pub created_event_id : ℕ
  pub created_unix_ms : ℕ

-- The consumers' cursors are read after the events; they stand in the module Consumers.
pub record LoadedSession : Type 0 where
  pub events : List Event
  pub approx_bytes : ℕ
  pub next_id : ℕ
  pub oldest_event_unix_ms : Option ℕ
  pub processes : Map Uuid ProcessRecord
  pub process_requests : Map Uuid ProcessRequest
  pub file_versions : Map Bytes ℕ
  pub file_requests : Map Uuid FileRequest
  pub signal_requests : Map Uuid SignalRequest
  pub artifact_requests : Map Uuid ArtifactRequest
  pub artifacts : Map Bytes ArtifactRecord
  pub pty_started : Bool
  pub pty_generation : ℕ
  pub running_processes : ℕ

pub record SessionSnapshotData : Type 0 where
  pub session_id : Uuid
  pub through_event_id : ℕ
  pub oldest_event_unix_ms : Option ℕ
  pub processes : Map Uuid ProcessRecord
  pub process_requests : Map Uuid ProcessRequest
  pub file_versions : Map Bytes ℕ
  pub file_requests : Map Uuid FileRequest
  pub signal_requests : Map Uuid SignalRequest
  pub artifact_requests : Map Uuid ArtifactRequest
  pub artifacts : Map Bytes ArtifactRecord
  pub pty_started : Bool
  pub pty_generation : ℕ

unfoldable pub process_output_within_limit : ProcessRecord → ℕ → Bool
process_output_within_limit p additional_bytes =
    leb (saturating_add (saturating_add p.stdout_bytes p.stderr_bytes) additional_bytes)
      process_output_max_bytes

-- `u64` and `usize` addition, which wraps in a release build
abbrev pub wrapping_add : ℕ → ℕ → ℕ
wrapping_add a b = (a + b) % 18446744073709551616

abbrev pub started : Bytes → Option ℕ → ProcessRecord
started command pid = record {
  command = command;
  running = true;
  exit_code = none;
  exit_unix_ms = none;
  pid = pid;
  pid_start_time = none;
  stdout_bytes = 0;
  stderr_bytes = 0;
}

abbrev pub add_output : OutputStream → ℕ → ProcessRecord → ProcessRecord
add_output stdout n p = record p { stdout_bytes = wrapping_add p.stdout_bytes n }
add_output stderr n p = record p { stderr_bytes = wrapping_add p.stderr_bytes n }

abbrev pub exited : Option ℕ → ℕ → ProcessRecord → ProcessRecord
exited code now p = record p { running = false; exit_code = code; exit_unix_ms = some now }

-- `running_processes += 1` where `insert` returned nothing
abbrev pub count_started : Option ProcessRecord → ℕ → ℕ
count_started none n = wrapping_add n 1
count_started (some p) n = n

-- processes.values().filter(|record| record.running).count()
abbrev pub count_running : Map Uuid ProcessRecord → ℕ
count_running [] = 0
count_running ((id, p) ∷ m) = if p.running then 1 + count_running m else count_running m

-- The loop of `push` is that of `enforce_bounds`; `none` says that its fuel ran out.
abbrev pub evict_loaded : LoadedSession → Option LoadedSession
evict_loaded s = elim (evict (length s.events + 1) s.events s.approx_bytes) [
  | none ↦ none
  | some (events, approx_bytes) ↦ some (record s {
    events = events;
    approx_bytes = approx_bytes;
    oldest_event_unix_ms = front_unix_ms events;
  })
]

-- The event's id and time are noted before it is applied.
abbrev pub noted : LoadedSession → Event → LoadedSession
noted s event = record s {
  next_id = max s.next_id event.id;
  oldest_event_unix_ms = some (min_or s.oldest_event_unix_ms event.unix_ms);
}

-- What the loop of `push` starts from, where applying the event gave `s`.
abbrev pub appended : LoadedSession → Event → LoadedSession
appended s event = record s {
  approx_bytes = saturating_add s.approx_bytes (event_approx_bytes event);
  events = s.events ++ (event ∷ []);
}

module _ (sha256 : Bytes → Bytes) where
  abbrev pub remember_process :
      Option Uuid → Bytes → Uuid → ℕ → Map Uuid ProcessRequest → Map Uuid ProcessRequest
  remember_process none command process_id id requests = requests
  remember_process (some request_id) command process_id id requests =
      insert requests request_id (record {
        command = command;
        command_hash = some (sha256 command);
        process_id = process_id;
        started_event_id = id;
      })

  -- `id` and `now` are the event's id and its time.
  unfoldable pub apply_kind : LoadedSession → ℕ → ℕ → EventKind → LoadedSession
  apply_kind s id now session_created = s
  apply_kind s id now (process_started process_id command pid request_id) = record s {
    processes = insert s.processes process_id (started command pid);
    running_processes = count_started (lookup s.processes process_id) s.running_processes;
    process_requests = remember_process request_id command process_id id s.process_requests;
  }
  apply_kind s id now (process_output process_id stream offset bytes) =
      elim (lookup s.processes process_id) [
        | none ↦ s
        | some p ↦ record s {
          processes = insert s.processes process_id (add_output stream (length bytes) p);
        }
      ]
  apply_kind s id now (process_exited process_id code) = elim (lookup s.processes process_id) [
    | none ↦ s
    | some p ↦ record s {
      processes = insert s.processes process_id (exited code now p);
      running_processes =
          if p.running then saturating_sub s.running_processes 1 else s.running_processes;
    }
  ]
  apply_kind s id now pty_started = record s { pty_started = true }
  apply_kind s id now (pty_state_advanced generation) = record s {
    pty_generation = max s.pty_generation generation;
  }
  apply_kind s id now (file_changed path version) = record s {
    file_versions = insert s.file_versions path version;
  }
  apply_kind s id now (file_mutation request_id request_hash path version sha) = record s {
    file_versions = insert s.file_versions path version;
    file_requests =
        insert s.file_requests request_id
          (record { request_hash = request_hash; path = path; version = version; sha256 = sha });
  }
  apply_kind s id now (signal_applied request_id request_hash process_id signal success message) =
      record s {
        signal_requests = insert s.signal_requests request_id (record {
          request_hash = request_hash;
          process_id = process_id;
          signal = signal;
          success = success;
          message = message;
        });
      }
  apply_kind s id now (artifact_created request_id request_hash artifact_id total_size name) =
      record s {
        artifact_requests = insert s.artifact_requests request_id (record {
          request_hash = request_hash;
          artifact_id = artifact_id;
          total_size = total_size;
          name = name;
          event_id = id;
        });
        artifacts = insert s.artifacts artifact_id (record {
          artifact_id = artifact_id;
          total_size = total_size;
          name = name;
          created_event_id = id;
          created_unix_ms = now;
        });
      }
  apply_kind s id now (artifact_deleted artifact_id total_size) = record s {
    artifacts = remove s.artifacts artifact_id;
    artifact_requests =
        retain (λ request_id request. not (bytes_eq request.artifact_id artifact_id))
          s.artifact_requests;
  }

  unfoldable pub apply : LoadedSession → Event → LoadedSession
  apply s event = apply_kind s event.id event.unix_ms event.kind

  unfoldable pub push : LoadedSession → Event → Option LoadedSession
  push s event = evict_loaded (appended (apply (noted s event) event) event)

  -- A request of an old snapshot without a hash gets that of its command.
  abbrev pub normalize : ProcessRequest → ProcessRequest
  normalize r = elim r.command_hash [
    | none ↦ record r { command_hash = some (sha256 r.command) }
    | some hash ↦ r
  ]

  abbrev pub normalize_all : Map Uuid ProcessRequest → Map Uuid ProcessRequest
  normalize_all [] = []
  normalize_all ((id, r) ∷ m) = (id, normalize r) ∷ normalize_all m

  unfoldable pub from_snapshot : SessionSnapshotData → LoadedSession
  from_snapshot d = record {
    events = [];
    approx_bytes = 0;
    next_id = d.through_event_id;
    oldest_event_unix_ms = d.oldest_event_unix_ms;
    processes = d.processes;
    process_requests = normalize_all d.process_requests;
    file_versions = d.file_versions;
    file_requests = d.file_requests;
    signal_requests = d.signal_requests;
    artifact_requests = d.artifact_requests;
    artifacts = d.artifacts;
    pty_started = d.pty_started;
    pty_generation = d.pty_generation;
    running_processes = count_running d.processes;
  }

-- ===== src/Wal/Tests.antt =====
-- The event log at concrete files.
use asp.Base.{
  err, ℕ, ◌+◌, ◌*◌, ◌≡◌, refl, true, false, Option, none, some, List, [], ◌∷◌, ◌++◌, length, take,
  ok, arith,
}
use asp.Event.{Bytes, Event, EventKind, session_created, event_approx_bytes}
use asp.Journal.Log.{Numbered}
use asp.Wire.Frame.Stream.{Codec}
use asp.Recovery.{LoadedSession, from_snapshot}
use asp.Recovery.Restart.{Loads, push_all}
use asp.Wal.Scan.{Scan, load_event_log, log_header}
use asp.Wal.Scan.Frames.{frame}
use asp.Wal.Scan.Startup.{load_event_log-Accepts, load_event_log-recovers}
use asp.Wal.Disk.{
  Io, SessionDisk, at_active, moved, rotate_failed, append, append_payload, needs_rotation,
  write_event, rotate, rename_active,
}
use asp.Wal.Disk.Rotation.{contents}
use asp.Wal.Disk.Atomic.{Outcome, append-atomic}

-- Stand-ins for SHA-256, CRC-32 and Postcard.
abbrev hash : Bytes → Bytes
hash bytes = []

abbrev pub checksum : Bytes → ℕ
checksum bytes = length bytes * 0 + 7

abbrev pub encode_kind : ℕ → ℕ → EventKind → Option Bytes
encode_kind id now session_created = some (id ∷ now ∷ [])
encode_kind id now _ = none

abbrev pub decode_event_bytes : Bytes → Option Event
decode_event_bytes (id ∷ now ∷ []) =
    some (record { id = id; unix_ms = now; kind = session_created })
decode_event_bytes _ = none

pub decode-encode_kind :
    (id now : ℕ) (kind : EventKind) (bytes : Bytes)
    → encode_kind id now kind ≡ some bytes
    → decode_event_bytes bytes ≡ some (record { id = id; unix_ms = now; kind = kind })
decode-encode_kind id now session_created [] h = absurd (cc)
decode-encode_kind id now session_created (a ∷ []) h = absurd (cc)
decode-encode_kind id now session_created (a ∷ b ∷ []) h = ground arith
decode-encode_kind id now session_created (a ∷ b ∷ c ∷ bytes) h = absurd (cc)
decode-encode_kind id now _ bytes h = absurd (cc)

abbrev pub codec : Codec Event
codec = record {
  encode_message = λ e. encode_kind e.id e.unix_ms e.kind;
  decode_message = decode_event_bytes;
  decode-encode = λ e bytes h. decode-encode_kind e.id e.unix_ms e.kind bytes h;
}

abbrev loaded : LoadedSession
loaded = from_snapshot hash (record {
  session_id = 1;
  through_event_id = 0;
  oldest_event_unix_ms = none;
  processes = [];
  process_requests = [];
  file_versions = [];
  file_requests = [];
  signal_requests = [];
  artifact_requests = [];
  artifacts = [];
  pty_started = false;
  pty_generation = 0;
})

abbrev pub event : ℕ → Event
event n = record { id = n; unix_ms = 10 * n; kind = session_created }

abbrev frames : Bytes
frames = frame checksum (1 ∷ 10 ∷ []) ++ frame checksum (2 ∷ 20 ∷ [])

loaded-Loads : Loads [] loaded
unfolding from_snapshot
loaded-Loads = record {
  represents = record { evicted = []; split = refl; numbered = refl; charged = refl };
  few = omega arith;
  light = omega arith;
}

-- A crash left nine bytes of a third frame.
load_event_log-recovers_example :
    (out : Scan) × (load_event_log hash checksum codec true true 0 loaded 0 none
        (log_header ++ (frames ++ take 9 (frame checksum (3 ∷ 30 ∷ []))))
      ≡ ok (out, log_header ++ frames, true))
    × (push_all hash loaded (event 1 ∷ event 2 ∷ []) ≡ some out.loaded)
    × Loads ([] ++ (event 1 ∷ event 2 ∷ [])) out.loaded
unfolding from_snapshot
load_event_log-recovers_example =
    load_event_log-recovers hash checksum codec (λ bytes. omega arith) loaded []
      (event 1 ∷ event 2 ∷ []) frames (3 ∷ 30 ∷ []) 9 0 2 loaded-Loads
      (unfold from_snapshot in (refl, (refl, refl)))
      (unfold event_approx_bytes in (omega arith, (omega arith, tt))) (omega arith)
      (
        1 ∷ 10 ∷ [],
        frame checksum (2 ∷ 20 ∷ []),
        refl,
        omega arith,
        refl,
        (2 ∷ 20 ∷ [], [], refl, omega arith, refl, refl),
      )
      (omega arith) (omega arith) (omega arith) (unfold from_snapshot in omega arith)

-- The same run, for what follows.
recovered :
    (out : Scan) × (load_event_log hash checksum codec true true 0 loaded 0 none
        (log_header ++ (frames ++ take 9 (frame checksum (3 ∷ 30 ∷ []))))
      ≡ ok (out, log_header ++ frames, true))
    × (push_all hash loaded (event 1 ∷ event 2 ∷ []) ≡ some out.loaded)
    × Loads ([] ++ (event 1 ∷ event 2 ∷ [])) out.loaded
unfolding from_snapshot
recovered =
    load_event_log-recovers hash checksum codec (λ bytes. omega arith) loaded []
      (event 1 ∷ event 2 ∷ []) frames (3 ∷ 30 ∷ []) 9 0 2 loaded-Loads
      (unfold from_snapshot in (refl, (refl, refl)))
      (unfold event_approx_bytes in (omega arith, (omega arith, tt))) (omega arith)
      (
        1 ∷ 10 ∷ [],
        frame checksum (2 ∷ 20 ∷ []),
        refl,
        omega arith,
        refl,
        (2 ∷ 20 ∷ [], [], refl, omega arith, refl, refl),
      )
      (omega arith) (omega arith) (omega arith) (unfold from_snapshot in omega arith)

load_event_log-Accepts_example :
    (events : List Event) × (push_all hash loaded events ≡ some recovered.0.loaded)
    × Numbered (0 + 1) recovered.0.loaded.next_id events
unfolding from_snapshot
load_event_log-Accepts_example =
    load_event_log-Accepts hash checksum codec true 0 loaded
      (log_header ++ (frames ++ take 9 (frame checksum (3 ∷ 30 ∷ [])))) recovered.0
      (log_header ++ frames) true (omega arith) recovered.1

-- Every call succeeds.
abbrev pub sound : Io
sound = record {
  measures = true;
  syncs_old = true;
  renames = true;
  syncs_directory = true;
  opens = true;
  header_cut = none;
  syncs_header = true;
  refreshes = true;
  readable = λ i. true;
  remeasures = true;
  write_cut = none;
  truncates = true;
  syncs = true;
  sync_due = false;
}

-- A log that cannot be synced.
abbrev pub broken : Io
broken = record sound { syncs = false }

abbrev pub disk : SessionDisk
disk = record {
  active = record {
    file = log_header ++ frames;
    checksummed = true;
    first_event_id = some 1;
    dirty_bytes = 0;
  };
  place = at_active;
  segments = [];
  total_bytes = 29;
}

append-atomic_example :
    Outcome checksum codec broken
      (contents disk)
      (event 3)
      (append checksum codec broken disk (event 3))
append-atomic_example = append-atomic checksum codec broken disk (event 3) (omega arith, tt)

-- A write that fails after three bytes, and cannot be cut off.
torn :
    contents
      (append checksum codec
        (record sound { write_cut = some 3; truncates = false })
        disk
        (event 3)).1
    ≡ frames ++ (0 ∷ 0 ∷ 0 ∷ [])
unfolding append append_payload needs_rotation write_event
torn = refl

-- The directory is not synced after the renaming, and the next rotation finds no events.log.
abbrev halfway : SessionDisk
halfway = record disk { place = moved false none }

rotation_fails :
    rotate (record sound { syncs_directory = false }) disk ≡ (err rotate_failed, halfway)
unfolding rotate rename_active
rotation_fails = refl

rotation_stuck : rotate sound halfway ≡ (err rotate_failed, halfway)
unfolding rotate rename_active
rotation_stuck = refl

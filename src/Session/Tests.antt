-- ===== src/Session/Tests.antt =====
-- A commit at a concrete session, on a disk that fails to sync.
use asp.Base.{◌≡◌, ◌⊎◌, refl, false, some, List, [], ◌∷◌, arith, Result}
use asp.Event.{Event, pty_started, event_approx_bytes}
use asp.Journal as Journal
use asp.Journal.Log.{Represents}
use asp.Wal.Disk.{DiskError}
use asp.Wal.Tests.{codec, checksum, disk, event, broken}
use asp.Session.{Session, append_locked}
use asp.Session.Commit.{Commits, Aborts, append_locked-atomic}

abbrev log : List Event
log = event 1 ∷ event 2 ∷ []

abbrev session : Session
session = record {
  journal = record {
    events = log;
    next_id = 2;
    approx_bytes = 256;
    oldest_event_unix_ms = some 10;
  };
  disk = some disk;
  file_versions = [];
  pty_started = false;
  pty_generation = 0;
  running_processes = 0;
}

session-Represents : Represents log session.journal
unfolding event_approx_bytes
session-Represents = record {
  evicted = [];
  split = refl;
  numbered = (refl, (refl, refl));
  charged = refl;
}

append_locked-atomic_example :
    (out : Result DiskError Event × Session) × (append_locked
        (λ path. some path)
        checksum
        codec
        broken
        30
        session
        pty_started
      ≡ some out)
    × (Commits checksum codec log disk (Journal.append 30 session.journal pty_started).0 out
        ⊎ Aborts checksum codec broken session disk
            (Journal.append 30 session.journal pty_started).0
            out)
append_locked-atomic_example =
    append_locked-atomic (λ path. some path) checksum codec broken 30 session disk pty_started log
      refl session-Represents (omega arith)
      (unfold event_approx_bytes Journal.append in omega arith) refl (omega arith, tt)

-- ===== src/Pty/Converge.antt =====
-- Terminal state over a lossy connection: datagrams are lost, repeated and reordered, and the reliable
-- stream has an order of its own. `history` is what the terminal showed at each generation.
pub mod Invariant
use asp.Base.{
  In, ℕ, ◌≤◌, ◌≡◌, ◌⊎◌, Bool, true, false, Option, none, some, List, [], ◌∷◌, if◌then◌else◌,
}
use asp.Event.{Uuid, Bytes}
use asp.Wire.Frame.{Zlib}
use asp.Wire.Frame.Stream.{Codec}
use asp.Pty.Datagram.{PtyStateDatagram, PtyStateDeltaDatagram, PtyStateRichDatagram}
use asp.Pty.Server.{Snapshot, PtyDatagramState, Link, send_pty_state_delta_or_full}
use asp.Pty.Client.{Shell, Attachment, record_pty_generation, receive_datagram}
use asp.Pty.Delta.{IsScreen, view}

-- The two ends of an attachment, every datagram that was sent so far, and the snapshots on the stream.
pub record World : Type 0 where
  pub server : PtyDatagramState
  pub sent : List Bytes
  pub stream : List Snapshot
  pub shell : Shell

abbrev pub add : Option Bytes → List Bytes → List Bytes
add none sent = sent
add (some payload) sent = payload ∷ sent

-- Response::PtyReady
unfoldable pub receive_ready : Shell → Snapshot → Shell
unfolding record_pty_generation
receive_ready shell s =
    if (record_pty_generation shell.newest_generation s.generation).1
    then record {
      newest_generation = (record_pty_generation shell.newest_generation s.generation).0;
      plain_screen_state = some (view s);
    }
    else shell

-- Response::PtyOutput
unfoldable pub receive_output : Shell → ℕ → Shell
unfolding record_pty_generation
receive_output shell generation = record shell {
  newest_generation = (record_pty_generation shell.newest_generation generation).0;
}

-- An attachment's start, with the screen of a plain `PtyReadySnapshot`.
abbrev pub attached : Snapshot → World
attached s = record {
  server = record { last = some s; delta_frames_since_full = 0 };
  sent = [];
  stream = [];
  shell = record { newest_generation = s.generation; plain_screen_state = some (view s) };
}

-- The output channel lagged: the server puts a snapshot on the stream and takes it as its base.
abbrev pub republished : Snapshot → PtyDatagramState
republished s = record { last = some s; delta_frames_since_full = 0 }

module _ (z : Zlib) (plain_codec : Codec PtyStateDatagram)
    (delta_codec : Codec PtyStateDeltaDatagram) (rich_codec : Codec PtyStateRichDatagram)
    (history : ℕ → Snapshot) (a : Attachment) where
  -- The terminal showed this.
  abbrev pub Shown : Snapshot → Type 0
  Shown s = IsScreen s × (s ≡ history s.generation)

  pub data Step (w v : World) : Type 0 where
    tick :
        (link : Link) (s : Snapshot)
        → Shown s
        → v ≡ record w {
          server =
              (send_pty_state_delta_or_full plain_codec delta_codec a.session_id link w.server s).0;
          sent =
              add
                (send_pty_state_delta_or_full plain_codec delta_codec a.session_id link w.server
                  s).1
                w.sent;
        }
        → Step w v
    lagged :
        (s : Snapshot)
        → Shown s
        → v ≡ record w { server = republished s; stream = s ∷ w.stream }
        → Step w v
    deliver :
        (payload : Bytes)
        → In payload w.sent
        → v ≡ record w {
          shell = receive_datagram z plain_codec delta_codec rich_codec a w.shell payload;
        }
        → Step w v
    output :
        (generation : ℕ) → v ≡ record w { shell = receive_output w.shell generation } → Step w v
    ready :
        (s : Snapshot) → In s w.stream → v ≡ record w { shell = receive_ready w.shell s } → Step w v

  pub data Reach (w : World) : World → Type 0 where
    here : Reach w w
    next : {u v : World} → Reach w u → Step u v → Reach w v

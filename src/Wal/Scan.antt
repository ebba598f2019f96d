-- ===== src/Wal/Scan.antt =====
-- `load_event_log` of crates/asp-server/src/main.rs, on the bytes of one log file.
pub mod Sound
pub mod Frames
pub mod Recover
pub mod Startup
use asp.Base.{
  ℕ, zero, suc, ◌+◌, ◌*◌, ◌/◌, ◌%◌, Bool, true, false, not, ◌&&◌, ◌||◌, Option, none, some, List,
  [], ◌∷◌, ◌++◌, length, take, drop, ltb, leb, ◌==◌, bytes_eq, if◌then◌else◌, saturating_add,
  saturating_sub, from_be_bytes, Result, ok, err, ◌>>=◌, ◌>>◌, bail_if, ok_or,
}
use asp.Event.{Event, Bytes}
use asp.Wire.Frame.{max_frame_bytes}
use asp.Wire.Frame.Stream.{Codec}
use asp.Recovery.{LoadedSession}
use asp.Recovery as Recovery
use asp.Replay.{EventReplayBuffer}
use asp.Replay as Replay

-- b"ASPLOG\0"
abbrev pub event_log_magic : Bytes
event_log_magic = 65 ∷ 83 ∷ 80 ∷ 76 ∷ 79 ∷ 71 ∷ 0 ∷ []

abbrev pub event_log_version : ℕ
event_log_version = 2

abbrev pub event_log_legacy_version : ℕ
event_log_legacy_version = 1

abbrev pub event_log_max_bytes : ℕ
event_log_max_bytes = 4294967296

-- EVENT_LOG_MAGIC and EVENT_LOG_VERSION.to_be_bytes()
abbrev pub log_header : Bytes
log_header = event_log_magic ++ (0 ∷ event_log_version ∷ [])

-- Why a log is not taken; the reasons after `unsupported_version` quarantine it. The last one says
-- that the model ran out of fuel.
pub data LogError : Type 0 where
  truncated_header unsupported_format unsupported_version too_large : LogError
  truncated_frame truncated_checksum truncated_payload frame_too_long checksum_mismatch : LogError
  not_decoded zero_id not_increasing stale gap : LogError
  out_of_fuel : LogError

pub record Mode : Type 0 where
  pub create : Bool
  pub checksummed : Bool
  pub materialize : Bool
  pub snapshot_boundary : ℕ

-- The loop's variables; `rest` are the file's bytes from `offset` on.
pub record Scan : Type 0 where
  pub loaded : LoadedSession
  pub last_event_id : ℕ
  pub raw_last_event_id : Option ℕ
  pub first_event_id : Option ℕ
  pub collected : Option EventReplayBuffer
  pub collection_limited : Bool
  pub rest : Bytes

-- A read that meets the end of the file, with `remaining` the bytes from the frame's start on.
unfoldable pub eof : Mode → Bytes → LogError → Result LogError (Option (Bytes × Bytes))
eof m remaining reason = if not m.create && ltb 0 (length remaining) then err reason else ok none

unfoldable pub mismatch : (Bytes → ℕ) → Option ℕ → Bytes → Bool
mismatch crc32 none payload = false
mismatch crc32 (some expected) payload = not (crc32 payload == expected)

unfoldable pub read_payload :
    (Bytes → ℕ) → Mode → Bytes → Option ℕ → ℕ → Bytes → Result LogError (Option (Bytes × Bytes))
unfolding eof mismatch
read_payload crc32 m remaining expected_crc n bytes =
    if ltb (length bytes) n
    then eof m remaining truncated_payload
    else if mismatch crc32 expected_crc (take n bytes)
    then err checksum_mismatch
    else ok (some (take n bytes, drop n bytes))

unfoldable pub read_checksum :
    (Bytes → ℕ) → Mode → Bytes → ℕ → Bytes → Result LogError (Option (Bytes × Bytes))
unfolding read_payload
read_checksum crc32 m remaining n bytes =
    if m.checksummed
    then elim (from_be_bytes (take 4 bytes)) [
      | none ↦ eof m remaining truncated_checksum
      | some crc ↦ read_payload crc32 m remaining (some crc) n (drop 4 bytes)
    ]
    else read_payload crc32 m remaining none n bytes

-- The payload of the next frame and the bytes after it; `none` where the file ends.
unfoldable pub read_frame : (Bytes → ℕ) → Mode → Bytes → Result LogError (Option (Bytes × Bytes))
unfolding read_checksum
read_frame crc32 m bytes = elim (from_be_bytes (take 4 bytes)) [
  | none ↦ eof m bytes truncated_frame
  | some n ↦
      if ltb max_frame_bytes n
      then err frame_too_long
      else read_checksum crc32 m bytes n (drop 4 bytes)
]

-- raw_last_event_id.is_some_and(|previous| event.id <= previous)
abbrev pub not_after : Option ℕ → ℕ → Bool
not_after none id = false
not_after (some previous) id = leb id previous

unfoldable pub check_id : Mode → Scan → ℕ → Result LogError (Unit {0})
check_id m s id = do
  bail_if (id == 0) zero_id
  bail_if (not_after s.raw_last_event_id id) not_increasing
  bail_if (leb id m.snapshot_boundary && ltb m.snapshot_boundary s.last_event_id) stale
  bail_if (ltb m.snapshot_boundary id && not (id == saturating_add s.last_event_id 1)) gap

-- first_event_id.get_or_insert(event.id)
abbrev pub get_or_insert : Option ℕ → ℕ → Option ℕ
get_or_insert none id = some id
get_or_insert (some first) id = some first

-- What `collected` becomes, and whether the scan goes on.
unfoldable pub collect : Option EventReplayBuffer → Event → Option EventReplayBuffer × Bool
collect none e = (none, true)
collect (some b) e = (some (Replay.push b e).0, (Replay.push b e).1)

-- `loaded.push(event)` or only its id
unfoldable pub advance :
    (Bytes → Bytes) → Bool → LoadedSession → Event → Result LogError LoadedSession
advance sha256 true loaded e = ok_or (Recovery.push sha256 loaded e) out_of_fuel
advance sha256 false loaded e = ok (record loaded { next_id = e.id })

abbrev note_id : Scan → ℕ → Scan
note_id s id = record s {
  raw_last_event_id = some id;
  first_event_id = get_or_insert s.first_event_id id;
}

-- An event after those that are loaded.
unfoldable pub load_event : (Bytes → Bytes) → Mode → Scan → Event → Result LogError Scan
unfolding advance
load_event sha256 m s e = do
  loaded ← advance sha256 m.materialize s.loaded e
  ok (record s { loaded = loaded; last_event_id = loaded.next_id })

-- An event that passed the checks.
unfoldable pub accept_event : (Bytes → Bytes) → Mode → Scan → Event → Result LogError Scan
unfolding collect load_event
accept_event sha256 m s e =
    let c = collect s.collected e in
    if ltb s.loaded.next_id e.id
    then if c.1
      then load_event sha256 m (record (note_id s e.id) { collected = c.0 }) e
      else ok (record (note_id s e.id) { collected = c.0; collection_limited = true })
    else ok (note_id s e.id)

-- A file without a complete header gets one, if the log may be created.
unfoldable pub with_header : Bool → Bytes → Result LogError Bytes
with_header create file =
    if length file == 0
    then ok log_header
    else if ltb (length file) 9
    then (if create then ok log_header else err truncated_header)
    else ok file

-- The log's version says whether its frames carry checksums.
unfoldable pub read_header : Bytes → Result LogError Bool
read_header file =
    if not (bytes_eq (take 7 file) event_log_magic)
    then err unsupported_format
    else if bytes_eq (take 2 (drop 7 file)) (0 ∷ event_log_legacy_version ∷ [])
    then ok false
    else if bytes_eq (take 2 (drop 7 file)) (0 ∷ event_log_version ∷ [])
    then ok true
    else err unsupported_version

abbrev pub start : LoadedSession → ℕ → Option EventReplayBuffer → Bytes → Scan
start loaded last_event_id collected rest = record {
  loaded = loaded;
  last_event_id = last_event_id;
  raw_last_event_id = none;
  first_event_id = none;
  collected = collected;
  collection_limited = false;
  rest = rest;
}

-- The file after the scan: whole if the collection was limited, else without what was not read.
unfoldable pub keep_read : Bytes → Scan → Bytes
keep_read file s =
    if s.collection_limited then file else take (saturating_sub (length file) (length s.rest)) file

module _ (sha256 : Bytes → Bytes) (crc32 : Bytes → ℕ) (postcard : Codec Event) where
  unfoldable pub decode_event : Mode → Scan → Bytes → Result LogError Event
  decode_event m s payload = do
    e ← ok_or (postcard.decode_message payload) not_decoded
    check_id m s e.id
    ok e

  -- What is done with a frame; `again` is the rest of the loop.
  unfoldable pub take_frame :
      (Scan → Result LogError Scan) → Mode → Scan → Option (Bytes × Bytes) → Result LogError Scan
  take_frame again m s none = ok s
  take_frame again m s (some (payload, rest)) = do
    e ← decode_event m s payload
    accepted ← accept_event sha256 m s e
    elim accepted.collection_limited [
      | true ↦ ok accepted
      | false ↦ again (record accepted { rest = rest })
    ]

  -- The loop. Every frame takes four bytes at least, so that the number of the bytes is enough fuel.
  unfoldable pub scan : ℕ → Mode → Scan → Result LogError Scan
  scan zero m s = err out_of_fuel
  scan (suc fuel) m s = read_frame crc32 m s.rest >>= take_frame (scan fuel m) m s

  unfoldable pub load_event_log :
      Bool
      → Bool
      → ℕ
      → LoadedSession
      → ℕ
      → Option EventReplayBuffer
      → Bytes
      → Result LogError (Scan × Bytes × Bool)
  unfolding with_header read_header keep_read
  load_event_log create materialize snapshot_boundary loaded last_event_id collected file = do
    input ← with_header create file
    checksummed ← read_header input
    let m : Mode = record {
      create = create;
      checksummed = checksummed;
      materialize = materialize;
      snapshot_boundary = snapshot_boundary;
    }
    out ← scan (length input) m (start loaded last_event_id collected (drop 9 input))
    bail_if (ltb event_log_max_bytes (length (keep_read input out))) too_large
    ok (out, keep_read input out, checksummed)

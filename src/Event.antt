-- ===== src/Event.antt =====
-- Durable events: `EventKind` and `Event` of crates/asp-protocol/src/lib.rs, and
-- `event_approx_bytes` of crates/asp-server/src/main.rs. A `Uuid` is its number, a `String` or
-- `Vec<u8>` its bytes.
use asp.Base.{ℕ, ◌≤◌, Bool, Option, none, some, List, length, saturating_add, arith}

abbrev pub Uuid : Type 0
Uuid = ℕ

abbrev pub Bytes : Type 0
Bytes = List ℕ

pub data OutputStream : Type 0 where
  stdout stderr : OutputStream

-- A signed 32-bit exit code or signal is its bit pattern.
pub data EventKind : Type 0 where
  session_created : EventKind
  -- process_id, command, pid, request_id
  process_started : Uuid → Bytes → Option ℕ → Option Uuid → EventKind
  -- process_id, stream, offset, bytes
  process_output : Uuid → OutputStream → ℕ → Bytes → EventKind
  -- process_id, code
  process_exited : Uuid → Option ℕ → EventKind
  pty_started : EventKind
  -- generation
  pty_state_advanced : ℕ → EventKind
  -- path, version
  file_changed : Bytes → ℕ → EventKind
  -- request_id, request_hash, path, version, sha256
  file_mutation : Uuid → Bytes → Bytes → ℕ → Bytes → EventKind
  -- request_id, request_hash, process_id, signal, success, message
  signal_applied : Uuid → Bytes → Uuid → ℕ → Bool → Option Bytes → EventKind
  -- request_id, request_hash, artifact_id, total_size, name
  artifact_created : Uuid → Bytes → Bytes → ℕ → Option Bytes → EventKind
  -- artifact_id, total_size
  artifact_deleted : Bytes → ℕ → EventKind

pub record Event : Type 0 where
  pub id : ℕ
  pub unix_ms : ℕ
  pub kind : EventKind

-- as_deref().map_or(0, str::len)
abbrev optional_len : Option Bytes → ℕ
optional_len none = 0
optional_len (some bytes) = length bytes

variable_bytes : EventKind → ℕ
variable_bytes (process_started process_id command pid request_id) = length command
variable_bytes (process_output process_id stream offset bytes) = length bytes
variable_bytes (file_changed path version) = length path
variable_bytes (file_mutation request_id request_hash path version sha256) =
    saturating_add (saturating_add (length request_hash) (length path)) (length sha256)
variable_bytes (signal_applied request_id request_hash process_id signal success message) =
    saturating_add (length request_hash) (optional_len message)
variable_bytes (artifact_created request_id request_hash artifact_id total_size name) =
    saturating_add (saturating_add (length request_hash) (length artifact_id)) (optional_len name)
variable_bytes (artifact_deleted artifact_id total_size) = length artifact_id
variable_bytes _ = 0

unfoldable pub event_approx_bytes : Event → ℕ
unfolding variable_bytes
event_approx_bytes event = saturating_add 128 (variable_bytes event.kind)

-- Every event is charged at least 128 bytes.
pub event_approx_bytes_pos : (e : Event) → 128 ≤ event_approx_bytes e
unfolding event_approx_bytes
event_approx_bytes_pos e = omega arith

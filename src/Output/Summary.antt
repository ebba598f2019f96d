-- ===== src/Output/Summary.antt =====
-- The summary of a process's output: `ProcessSummaryAccumulator` of crates/asp-server/src/main.rs. A
-- `VecDeque` is a list.
pub mod Tails
use asp.Base.{
  ℕ, ◌+◌, ◌-◌, Bool, List, [], ◌∷◌, ◌++◌, length, drop, max, ltb, leb, ◌==◌, if◌then◌else◌,
  saturating_add, saturating_sub,
}
use asp.Event.{Uuid, Bytes, OutputStream, stdout, stderr}

pub record ProcessSummaryAccumulator : Type 0 where
  pub tail_limit : ℕ
  pub stdout_bytes : ℕ
  pub stderr_bytes : ℕ
  pub stdout_tail : Bytes
  pub stderr_tail : Bytes

abbrev pub new_accumulator : ℕ → ProcessSummaryAccumulator
new_accumulator tail_limit = record {
  tail_limit = tail_limit;
  stdout_bytes = 0;
  stderr_bytes = 0;
  stdout_tail = [];
  stderr_tail = [];
}

-- The tail with a chunk at its end, cut to the limit. The loop pops one byte at a time.
unfoldable pub push_tail : ℕ → Bytes → Bytes → Bytes
push_tail tail_limit tail chunk =
    if tail_limit == 0
    then tail
    else if leb tail_limit (length chunk)
    then drop (length chunk - tail_limit) chunk
    else drop (saturating_sub (saturating_add (length tail) (length chunk)) tail_limit) tail
      ++ chunk

unfoldable pub push :
    ProcessSummaryAccumulator → OutputStream → ℕ → Bytes → ProcessSummaryAccumulator
unfolding push_tail
push a stdout offset chunk = record a {
  stdout_bytes = max a.stdout_bytes (saturating_add offset (length chunk));
  stdout_tail = push_tail a.tail_limit a.stdout_tail chunk;
}
push a stderr offset chunk = record a {
  stderr_bytes = max a.stderr_bytes (saturating_add offset (length chunk));
  stderr_tail = push_tail a.tail_limit a.stderr_tail chunk;
}

-- Response::ProcessSummary
pub record ProcessSummary : Type 0 where
  pub process_id : Uuid
  pub event_id : ℕ
  pub stdout_bytes : ℕ
  pub stderr_bytes : ℕ
  pub stdout_tail : Bytes
  pub stderr_tail : Bytes
  pub stdout_truncated : Bool
  pub stderr_truncated : Bool

unfoldable pub into_response : ProcessSummaryAccumulator → Uuid → ℕ → ProcessSummary
into_response a process_id event_id = record {
  process_id = process_id;
  event_id = event_id;
  stdout_bytes = a.stdout_bytes;
  stderr_bytes = a.stderr_bytes;
  stdout_tail = a.stdout_tail;
  stderr_tail = a.stderr_tail;
  stdout_truncated = ltb (length a.stdout_tail) a.stdout_bytes;
  stderr_truncated = ltb (length a.stderr_tail) a.stderr_bytes;
}

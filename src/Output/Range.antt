-- ===== src/Output/Range.antt =====
-- Ranges of a process log: `process_log_range` and `stream_process_output` of
-- crates/asp-server/src/main.rs, `get_process_output` and `process_log_tail_range` of
-- crates/asp-client/src/main.rs. What the file system says of the log file, and how many bytes each
-- read gives, are arguments.
pub mod Download
use asp.Base.{
  ℕ, zero, suc, ◌+◌, ◌-◌, Bool, true, false, not, ◌&&◌, ◌||◌, Option, none, some, List, [], ◌∷◌,
  ◌++◌, length, slice, min, ltb, leb, ◌==◌, if◌then◌else◌, saturating_sub, Result, ok, err, ◌>>=◌,
  ◌>>◌, bail_if,
}
use asp.Event.{Uuid, Bytes, OutputStream, stdout, stderr}

abbrev pub file_stream_chunk_bytes : ℕ
file_stream_chunk_bytes = 65536

abbrev pub process_output_max_bytes : ℕ
process_output_max_bytes = 536870912

abbrev pub process_log_range_max_bytes : ℕ
process_log_range_max_bytes = 67108864

-- The codes of a failed request's response.
pub data ErrorCode : Type 0 where
  unknown_process_id process_log_unavailable invalid_range process_log_error : ErrorCode

pub data RangeError : Type 0 where
  not_persisted unknown_process not_regular log_too_large : RangeError
  beyond_end exceeds_snapshot exceeds_limit : RangeError
  metadata_mismatch invalid_bounds changed_range : RangeError
  invalid_chunk offset_mismatch exceeds_range incomplete closed_early unexpected : RangeError
  request_too_long : RangeError
  -- "{code}: {message}" of a response that says what failed at the server
  server_error : ErrorCode → RangeError → RangeError

abbrev pub unwrap_or : Option ℕ → ℕ → ℕ
unwrap_or none available = available
unwrap_or (some requested) available = requested

unfoldable pub process_log_range : ℕ → ℕ → Option ℕ → Result RangeError ℕ
process_log_range total_size offset requested_length = do
  bail_if (ltb total_size offset) beyond_end
  let length = unwrap_or requested_length (total_size - offset)
  bail_if (ltb (total_size - offset) length) exceeds_snapshot
  bail_if (ltb process_log_range_max_bytes length) exceeds_limit
  ok length

-- Where the last `tail_bytes` bytes begin, and how many there are.
unfoldable pub process_log_tail_range : ℕ → ℕ → Result RangeError (ℕ × ℕ)
process_log_tail_range total_size tail_bytes = do
  bail_if (ltb process_output_max_bytes total_size) log_too_large
  bail_if (ltb process_log_range_max_bytes tail_bytes) exceeds_limit
  ok (total_size - min tail_bytes total_size, min tail_bytes total_size)

pub data Response : Type 0 where
  -- process_id, stream, total_size, offset, length
  stream_begin : Uuid → OutputStream → ℕ → ℕ → ℕ → Response
  -- offset, the bytes
  stream_chunk : ℕ → Bytes → Response
  -- bytes, complete
  stream_end : ℕ → Bool → Response
  -- code and message
  error : ErrorCode → RangeError → Response

-- The log of one stream of a process: its length when it was looked at, and what it holds when it is
-- read, which is longer where the process goes on.
pub record LogFile : Type 0 where
  pub persisted : Bool
  pub known : Bool
  pub is_regular : Bool
  pub total_size : ℕ
  pub contents : Bytes

-- How many bytes one read gives, at `sent` bytes of the range.
unfoldable pub read_size : (ℕ → ℕ) → Bytes → ℕ → ℕ → ℕ → ℕ
read_size reads contents offset len sent =
    min (min (reads sent) (min (len - sent) file_stream_chunk_bytes))
      (length contents - (offset + sent))

-- The reading loop, from `sent` on: the chunks and how many bytes they hold. `reads` says how many
-- bytes the file system gives at a position of the range at most.
unfoldable pub send_chunks : ℕ → (ℕ → ℕ) → Bytes → ℕ → ℕ → ℕ → List Response × ℕ
unfolding read_size
send_chunks zero reads contents offset len sent = ([], sent)
send_chunks (suc fuel) reads contents offset len sent =
    let read = read_size reads contents offset len sent in
    let rest = send_chunks fuel reads contents offset len (sent + read) in
    if ltb sent len && not (read == 0)
    then (
      stream_chunk (offset + sent) (slice contents (offset + sent) (offset + sent + read)) ∷ rest.0,
      rest.1,
    )
    else ([], sent)

-- Every read gives a byte or ends the loop, so that `length` and one more rounds are enough.
unfoldable pub stream_process_output :
    (ℕ → ℕ) → LogFile → Uuid → OutputStream → ℕ → Option ℕ → Result RangeError (List Response)
unfolding process_log_range send_chunks
stream_process_output reads log process_id stream offset requested_length = do
  bail_if (not log.persisted) not_persisted
  bail_if (not log.known) unknown_process
  bail_if (not log.is_regular) not_regular
  bail_if (ltb process_output_max_bytes log.total_size) log_too_large
  len ← process_log_range log.total_size offset requested_length
  let chunks = send_chunks (suc len) reads log.contents offset len 0
  ok (
      stream_begin process_id stream log.total_size offset len
      ∷ (chunks.0 ++ (stream_end chunks.1 (chunks.1 == len) ∷ [])))

-- The code that the handler finds in the words of the message.
unfoldable pub error_code : RangeError → ErrorCode
error_code unknown_process = unknown_process_id
error_code not_persisted = process_log_unavailable
error_code not_regular = process_log_unavailable
error_code beyond_end = invalid_range
error_code exceeds_snapshot = invalid_range
error_code exceeds_limit = invalid_range
error_code _ = process_log_error

-- What the handler of Request::ProcessOutputStream sends.
unfoldable pub handle_process_output_stream :
    (ℕ → ℕ) → LogFile → Uuid → OutputStream → ℕ → Option ℕ → List Response
unfolding stream_process_output error_code
handle_process_output_stream reads log process_id stream offset requested_length =
    elim (stream_process_output reads log process_id stream offset requested_length) [
      | err failure ↦ error (error_code failure) failure ∷ []
      | ok responses ↦ responses
    ]

abbrev pub same_stream : OutputStream → OutputStream → Bool
same_stream stdout stdout = true
same_stream stderr stderr = true
same_stream _ _ = false

-- requested_length.is_some_and(|requested| requested != length)
abbrev pub is_other : Option ℕ → ℕ → Bool
is_other none len = false
is_other (some requested) len = not (requested == len)

-- The client's loop after BEGIN: what is written to the local stream.
unfoldable pub receive_chunks : ℕ → ℕ → ℕ → Bytes → List Response → Result RangeError Bytes
receive_chunks begin_offset len received written [] = err closed_early
receive_chunks begin_offset len received written (stream_begin _ _ _ _ _ ∷ rest) = err unexpected
receive_chunks begin_offset len received written (error code message ∷ rest) =
    err (server_error code message)
receive_chunks begin_offset len received written (stream_end bytes complete ∷ rest) =
    if not (bytes == received) || not (received == len) || not complete
    then err incomplete
    else ok written
receive_chunks begin_offset len received written (stream_chunk offset chunk ∷ rest) = do
  bail_if (length chunk == 0 || ltb file_stream_chunk_bytes (length chunk)) invalid_chunk
  bail_if (not (offset == begin_offset + received)) offset_mismatch
  bail_if (ltb len (received + length chunk)) exceeds_range
  receive_chunks begin_offset len (received + length chunk) (written ++ chunk) rest

abbrev pub exceeds : Option ℕ → ℕ → Bool
exceeds none limit = false
exceeds (some requested) limit = ltb limit requested

-- The client's first response.
unfoldable pub receive_begin :
    Uuid → OutputStream → ℕ → Option ℕ → List Response → Result RangeError Bytes
unfolding receive_chunks
receive_begin process_id stream offset requested_length
      (stream_begin actual_process actual_stream total_size begin_offset len ∷ rest) =
    do
      bail_if (not (actual_process == process_id) || not (same_stream actual_stream stream))
          metadata_mismatch
      bail_if
          (ltb process_output_max_bytes total_size
            || not (begin_offset == offset)
            || ltb total_size begin_offset
            || ltb (saturating_sub total_size begin_offset) len
            || ltb process_log_range_max_bytes len)
          invalid_bounds
      bail_if (is_other requested_length len) changed_range
      receive_chunks begin_offset len 0 [] rest
receive_begin process_id stream offset requested_length [] = err closed_early
receive_begin process_id stream offset requested_length (error code message ∷ rest) =
    err (server_error code message)
receive_begin process_id stream offset requested_length (_ ∷ rest) = err unexpected

-- The client, and what the server sends where it is asked.
unfoldable pub get_process_output :
    Uuid → OutputStream → ℕ → Option ℕ → List Response → Result RangeError Bytes
unfolding receive_begin
get_process_output process_id stream offset requested_length responses = do
  bail_if (exceeds requested_length process_log_range_max_bytes) request_too_long
  receive_begin process_id stream offset requested_length responses

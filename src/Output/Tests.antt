-- ===== src/Output/Tests.antt =====
-- Ranges, replays and summaries of small logs.
use asp.Base.{
  ◌+◌, ◌≡◌, refl, true, some, err, none, List, [], ◌∷◌, length, take, max, ltb, ok, arith,
}
use asp.Event.{Bytes, OutputStream, stdout, stderr}
use asp.Output.Range.{
  LogFile, handle_process_output_stream, receive_begin, error_code, request_too_long, server_error,
  invalid_range, exceeds_snapshot, process_log_range, read_size, send_chunks, stream_process_output,
  receive_chunks, get_process_output,
}
use asp.Output.Seen.{Screen, write_all, write_unseen, unseen_suffix, concat, write_all-Has}
use asp.Output.Summary.{new_accumulator, into_response, push, push_tail}
use asp.Output.Summary.Tails.{push_all, last, of_stdout, of_stderr, summary_exact}

-- Six bytes were there, and one was added.
abbrev log : LogFile
log = record {
  persisted = true;
  known = true;
  is_regular = true;
  total_size = 6;
  contents = 1 ∷ 2 ∷ 3 ∷ 4 ∷ 5 ∷ 6 ∷ 7 ∷ [];
}

five_received :
    get_process_output 9 stdout 1 none (handle_process_output_stream (λ i. 2) log 9 stdout 1 none)
    ≡ ok (2 ∷ 3 ∷ 4 ∷ 5 ∷ 6 ∷ [])
unfolding handle_process_output_stream stream_process_output get_process_output receive_begin
    process_log_range send_chunks read_size receive_chunks
five_received = refl

too_long_refused :
    get_process_output 9 stdout 1
      (some 67108865)
      (handle_process_output_stream (λ i. 2) log 9 stdout 1 (some 67108865))
    ≡ err request_too_long
unfolding get_process_output
too_long_refused = refl

-- The server says what is wrong with the range.
seven_refused :
    get_process_output 9 stdout 1
      (some 7)
      (handle_process_output_stream (λ i. 2) log 9 stdout 1 (some 7))
    ≡ err (server_error invalid_range exceeds_snapshot)
unfolding handle_process_output_stream stream_process_output get_process_output receive_begin
    process_log_range error_code
seven_refused = refl

-- Three bytes were seen, and all are replayed in other chunks.
abbrev seen_three : Screen
seen_three = record { seen = 3; written = 1 ∷ 2 ∷ 3 ∷ [] }

abbrev chunks : List Bytes
chunks = (1 ∷ 2 ∷ []) ∷ (3 ∷ 4 ∷ 5 ∷ []) ∷ (6 ∷ []) ∷ []

write_all-Has_example :
    (v : Screen) × (write_all 0 chunks seen_three ≡ ok v)
    × (v.written ≡ take v.seen log.contents)
    × (v.seen ≡ max 3 (0 + length (concat chunks)))
write_all-Has_example =
    write_all-Has log.contents chunks 0 seen_three (omega arith) (unfold concat in omega arith)
      (unfold concat in refl) (omega arith) (record { within = omega arith; prefix = refl })

all_written :
    write_all 0 chunks seen_three ≡ ok (record { seen = 6; written = take 6 log.contents })
unfolding write_all write_unseen unseen_suffix
all_written = refl

abbrev alternating : List (OutputStream × Bytes)
alternating =
    (stdout, 1 ∷ 2 ∷ [])
    ∷ (stderr, 8 ∷ [])
    ∷ (stdout, 3 ∷ [])
    ∷ (stderr, 9 ∷ [])
    ∷ (stdout, 4 ∷ 5 ∷ [])
    ∷ []

summary_exact_example : into_response (push_all 0 0 (new_accumulator 3) alternating) 7 20 ≡ record {
  process_id = 7;
  event_id = 20;
  stdout_bytes = 5;
  stderr_bytes = 2;
  stdout_tail = last 3 (of_stdout alternating);
  stderr_tail = last 3 (of_stderr alternating);
  stdout_truncated = ltb 3 5;
  stderr_truncated = ltb 3 2;
}
summary_exact_example = summary_exact 3 7 20 alternating (omega arith) (omega arith)

tail_of_three : (push_all 0 0 (new_accumulator 3) alternating).stdout_tail ≡ 3 ∷ 4 ∷ 5 ∷ []
unfolding push_all push push_tail
tail_of_three = refl

-- ===== src/Lib.antt =====
-- ASP: a daemon (crates/asp-server) that keeps durable sessions for remote agents, a client
-- (crates/asp-client) that drives it, and the protocol that they share (crates/asp-protocol).
--
-- The client sends framed requests over a stream. The server keeps one journal of events for each
-- session, writes it to disk, replays it to clients that reconnect, and rebuilds a session from it
-- after a restart. Files, processes and artifacts are changed by requests whose identifiers make
-- them safe to repeat.
--
-- Parts, by module:
--   Base      lists, tests, machine words, results and hash maps, in the forms that the code uses
--   Wire      crates/asp-protocol/src/lib.rs: the supported versions, the sampling heuristic for
--             compression, the frame envelope and the length-prefixed stream. zlib and Postcard are
--             parameters, with the law that decoding undoes encoding.
--   Patch     the file patches: the client derives them (cached_file_patch_with_ranges,
--             derive_file_patch_ranges, derive_line_patch_ranges of crates/asp-client/src/main.rs)
--             and the server applies them (materialize_file_patch_ranges and the FilePatch handler
--             of crates/asp-server/src/main.rs)
--   Event     EventKind and Event of crates/asp-protocol/src/lib.rs, event_approx_bytes of the server
--   Journal   Journal of crates/asp-server/src/main.rs, against the unbounded log that it is a
--             window of
--   Recovery  LoadedSession of the server (push, apply, from_snapshot). SHA-256 is a parameter.
--   Replay    EventReplayBuffer of the server
--   Wal       the event log on disk: load_event_log (Wal/Scan) and SessionDisk::append with
--             rotate_locked (Wal/Disk) of the server, on the bytes of the files. CRC-32 and Postcard
--             are parameters; what the file system does with a call is an argument.
--   Consumers ack_event_consumer and prune_expired_event_consumers_locked of the server
--   Session   append_locked of the server, which commits an event to the journal and to disk
--   Pty       terminal state: the datagrams of crates/asp-protocol/src/lib.rs, the row deltas that
--             the server derives (send_pty_state_delta_or_full) and the client applies
--             (PlainPtyScreenState), both over a lossy connection (Pty/Converge), and
--             PtyInputSequencer
--   Output    process output: stream_process_output of the server and get_process_output of the client
--             (Output/Range), unseen_suffix of the client (Output/Seen), ProcessSummaryAccumulator
--             of the server (Output/Summary)
--   Quota     of the server: byte budgets (Quota/Window), the leases and guards that count a
--             principal's connections and request streams (Quota/Lease), failed authentication
--             (Quota/Attempts), and process slots (Quota/Slots)
--   Files     file transactions of the server: commit_file_transaction and its rollback, and
--             recover_pending_file_mutations. SHA-256 is a parameter, a crash is a point of the
--             history of effects, and which effects succeed is an argument.
--
-- Numbers are natural numbers; what a machine integer does at its limits (wrapping, saturating and
-- checked operations) is written out, with usize as 64 bits. Strings and byte vectors are lists of
-- numbers, uuids are numbers, hash maps are association lists that are read by key. The clock is an
-- argument. Loops are structural, or run on fuel: evict on the number
-- of events and one more, which is proved enough where the charge is that of the events; the
-- line-oriented walk on the number of lines of both files and one more; the loop that streams a range of
-- a log on the length of the range and one more, since each read gives a byte or ends it; the reader of a log on the
-- number of its bytes, since a frame takes four bytes at least, which is proved enough for logs of
-- complete frames with a torn one at the end.
--
-- Not modelled: sockets, TLS and QUIC, tmux and terminals, processes, the asynchronous runtime,
-- command-line parsing, metrics export, and the benchmark and deployment tools. They are input and
-- output around the parts above. The file system is modelled as far as the event log and a file
-- transaction read and write it: what a call does is an argument, and what it did is durable.
pub mod Base
pub mod Wire
pub mod Patch
pub mod Event
pub mod Journal
pub mod Recovery
pub mod Replay
pub mod Wal
pub mod Consumers
pub mod Session
pub mod Pty
pub mod Output
pub mod Quota
pub mod Files

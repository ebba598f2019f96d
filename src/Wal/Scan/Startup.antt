-- ===== src/Wal/Scan/Startup.antt =====
-- `load_event_log` as the daemon calls it at startup.
use asp.Base.{
  ℕ, ◌+◌, ◌≤◌, ◌<◌, ◌≡◌, refl, ap, sym, subst, ◌∙◌, Bool, true, false, none, some, List, [], ◌∷◌,
  ◌++◌, length, take, drop, arith, ok, ok_chain, ok-injective, u32_max, u64_max, ltb, length-append,
  take-append_left, bail_if,
}
use asp.Event.{Event, Bytes}
use asp.Journal.Log.{Numbered}
use asp.Wire.Frame.{max_frame_bytes}
use asp.Wire.Frame.Stream.{Codec}
use asp.Recovery.{LoadedSession}
use asp.Recovery.Restart.{Loads, AllLight, push_all}
use asp.Wal.Scan.{
  Mode, Scan, start, scan, load_event_log, with_header, read_header, keep_read, log_header,
  event_log_max_bytes,
}
use asp.Wal.Scan.Sound.{InStep, scan-Accepts}
use asp.Wal.Scan.Frames.{frame, read_frame-torn}
use asp.Wal.Scan.Recover.{Logged, recover}

-- What is kept of a file whose end was not read.
keep_read-torn :
    (kept torn : Bytes) (s : Scan)
    → s.rest ≡ torn
    → s.collection_limited ≡ false
    → keep_read (kept ++ torn) s ≡ kept
unfolding keep_read
keep_read-torn kept torn s left unlimited = rw unlimited (
    ap (λ (n : ℕ). take n (kept ++ torn)) {y = length kept}
      (omega (arith, length-append kept torn, ap length left))
    ∙ take-append_left kept torn)

module _ (sha256 : Bytes → Bytes) (crc32 : Bytes → ℕ) (postcard : Codec Event) where
  Logged-length :
      (events : List Event) (bytes : Bytes)
      → Logged crc32 postcard events bytes
      → length events ≤ length bytes
  Logged-length [] bytes logged = omega arith
  Logged-length (e ∷ events) bytes (payload, rest, encoded, fits, split, logged) = omega (
    arith,
    ap length split,
    length-append (frame crc32 payload) rest,
    Logged-length events rest logged,
  )

  startup : Mode → LoadedSession → Bytes → Scan
  startup m loaded rest = start loaded loaded.next_id none rest

  startup-InStep :
      (m : Mode) (loaded : LoadedSession) (rest : Bytes)
      → m.materialize ≡ true
      → m.snapshot_boundary ≤ loaded.next_id
      → InStep m (startup m loaded rest)
  unfolding startup
  startup-InStep m loaded rest materializes past = record {
    materializes = materializes;
    collects_none = refl;
    unlimited = refl;
    same_last = refl;
    past_boundary = past;
  }

  -- Whatever bytes a log file holds: if it is taken at startup, then what it adds to the session are
  -- events whose ids follow the last one without a gap.
  pub load_event_log-Accepts :
      (create : Bool) (snapshot_boundary : ℕ) (loaded : LoadedSession) (file : Bytes) (out : Scan)
      (file' : Bytes) (checksummed : Bool)
      → snapshot_boundary ≤ loaded.next_id
      → load_event_log sha256 crc32 postcard create true snapshot_boundary loaded loaded.next_id
          none file
        ≡ ok (out, file', checksummed)
      → (events : List Event) × (push_all sha256 loaded events ≡ some out.loaded)
        × Numbered (loaded.next_id + 1) out.loaded.next_id events
  unfolding load_event_log startup
  load_event_log-Accepts create snapshot_boundary loaded file out file' checksummed past h =
      let (input, e1, h1) = ok_chain (with_header create file) _ h in
      let (sums, e2, h2) = ok_chain (read_header input) _ h1 in
      let m : Mode = record {
        create = create;
        checksummed = sums;
        materialize = true;
        snapshot_boundary = snapshot_boundary;
      } in
      let (result, e3, h3) =
        ok_chain (scan sha256 crc32 postcard (length input) m (startup m loaded (drop 9 input))) _
          h2 in
      let (u, e4, h4) =
        ok_chain (bail_if (ltb event_log_max_bytes (length (keep_read input result))) _) _ h3 in
      let a =
        scan-Accepts sha256 crc32 postcard (length input) m (startup m loaded (drop 9 input)) result
          (startup-InStep m loaded (drop 9 input) refl past) e3 in
      subst
        (λ (o : Scan).
          (events : List Event) × (push_all sha256 loaded events ≡ some o.loaded)
          × Numbered (loaded.next_id + 1) o.loaded.next_id events)
        (ap (λ (t : Scan × Bytes × Bool). t.0) (ok-injective h4))
        (
          a.events,
          a.pushed,
          subst (λ k. Numbered (loaded.next_id + 1) k a.events) (sym a.in_step.same_last)
              a.numbered,
        )

  -- What the load returns where the scan read all but `torn`.
  load_done :
      (snapshot_boundary : ℕ) (loaded : LoadedSession) (bytes torn : Bytes) (out : Scan)
      → scan sha256 crc32 postcard
          (length (log_header ++ (bytes ++ torn)))
          (record {
            create = true;
            checksummed = true;
            materialize = true;
            snapshot_boundary = snapshot_boundary;
          })
          (start loaded loaded.next_id none (bytes ++ torn))
        ≡ ok out
      → out.rest ≡ torn
      → out.collection_limited ≡ false
      → length (log_header ++ bytes) ≤ event_log_max_bytes
      → load_event_log sha256 crc32 postcard true true snapshot_boundary loaded loaded.next_id none
          (log_header ++ (bytes ++ torn))
        ≡ ok (out, log_header ++ bytes, true)
  unfolding load_event_log with_header read_header
  load_done snapshot_boundary loaded bytes torn out done left unlimited within =
      let kept : keep_read (log_header ++ (bytes ++ torn)) out ≡ log_header ++ bytes =
        keep_read-torn (log_header ++ bytes) torn out left unlimited in
      ground (arith, done, kept)

  module _ (crc32_u32 : (bytes : Bytes) → crc32 bytes ≤ u32_max) (loaded : LoadedSession)
      (log events : List Event) (bytes payload : Bytes) (k snapshot_boundary last : ℕ) where
    -- A log of complete frames, which a crash has left with any proper part of one more frame at its
    -- end: at startup every event of the complete frames is loaded, and the file is cut back to them.
    -- (The session that is loaded so far is within the journal's limits and past the snapshot, the
    -- events follow its last id and are each charged less than 4 GiB, and the cut file is within the
    -- size limit of a log.)
    pub load_event_log-recovers :
        Loads log loaded
        → Numbered (loaded.next_id + 1) last events
        → AllLight events
        → last ≤ u64_max
        → Logged crc32 postcard events bytes
        → length payload ≤ max_frame_bytes
        → k < length (frame crc32 payload)
        → length (log_header ++ bytes) ≤ event_log_max_bytes
        → snapshot_boundary ≤ loaded.next_id
        → (out : Scan) × (load_event_log sha256 crc32 postcard true true snapshot_boundary loaded
              loaded.next_id none
              (log_header ++ (bytes ++ take k (frame crc32 payload)))
            ≡ ok (out, log_header ++ bytes, true))
          × (push_all sha256 loaded events ≡ some out.loaded)
          × Loads (log ++ events) out.loaded
    unfolding load_event_log with_header read_header keep_read startup
    load_event_log-recovers loads numbered light small logged fits short within past =
        let torn = take k (frame crc32 payload) in
        let file = log_header ++ (bytes ++ torn) in
        let m : Mode = record {
          create = true;
          checksummed = true;
          materialize = true;
          snapshot_boundary = snapshot_boundary;
        } in
        let (out, done, r) =
          recover sha256 crc32 crc32_u32 postcard events (length file) m
            (startup m loaded (bytes ++ torn)) log last bytes torn
            (startup-InStep m loaded (bytes ++ torn) refl past) (λ id after. refl) refl logged refl
            (read_frame-torn crc32 crc32_u32 m refl payload fits k refl short) loads numbered light
            small (omega (arith, Logged-length events bytes logged, length-append bytes torn)) in
        (
          out,
          load_done snapshot_boundary loaded bytes torn out done r.left r.unlimited within,
          r.pushed,
          r.loads,
        )

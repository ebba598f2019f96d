-- ===== src/Wal/Scan/Recover.antt =====
-- The scan at startup of a log whose last frame a crash has cut short.
use asp.Base.{
  ℕ, zero, suc, ◌+◌, ◌≤◌, ◌<◌, ◌≡◌, refl, ap, sym, subst, ◌∙◌, true, false, none, some, List, [],
  ◌∷◌, ◌++◌, append_assoc, append-nil, length, arith, ok, u32_max, u64_max,
}
use asp.Event.{Event, Bytes}
use asp.Journal.Log.{Numbered, Numbered-length}
use asp.Wire.Frame.{max_frame_bytes}
use asp.Wire.Frame.Stream.{Codec}
use asp.Recovery.{LoadedSession}
use asp.Recovery as Recovery
use asp.Recovery.Restart.{Loads, AllLight, push_all, push-Loads}
use asp.Wal.Scan.{Mode, Scan, check_id, not_after, decode_event, read_frame, take_frame, scan}
use asp.Wal.Scan.Sound.{InStep, rest-InStep, loaded_scan, loaded_scan-InStep, accept_new}
use asp.Wal.Scan.Frames.{frame, read_frame-frame}

-- The bytes are the frames of the events.
abbrev pub Logged : (Bytes → ℕ) → Codec Event → List Event → Bytes → Type 0
Logged crc32 postcard [] bytes = bytes ≡ []
Logged crc32 postcard (e ∷ events) bytes =
    (payload : Bytes) × (rest : Bytes) × (postcard.encode_message e ≡ some payload)
    × (length payload ≤ max_frame_bytes)
    × (bytes ≡ frame crc32 payload ++ rest)
    × Logged crc32 postcard events rest

-- No id that the file has shown is after the last one.
abbrev pub Shown : Scan → Type 0
Shown s = (id : ℕ) → s.last_event_id < id → not_after s.raw_last_event_id id ≡ false

module _ (sha256 : Bytes → Bytes) (crc32 : Bytes → ℕ)
    (crc32_u32 : (bytes : Bytes) → crc32 bytes ≤ u32_max) (postcard : Codec Event) where
  check_id-next :
      (m : Mode) (s : Scan)
      → InStep m s
      → Shown s
      → s.last_event_id < u64_max
      → check_id m s (s.last_event_id + 1) ≡ ok tt
  unfolding check_id
  check_id-next m s i shown small =
      ground (arith, i.past_boundary, shown (s.last_event_id + 1) (omega arith))

  decode_event-next :
      (m : Mode) (s : Scan) (e : Event) (payload : Bytes)
      → InStep m s
      → Shown s
      → s.last_event_id < u64_max
      → e.id ≡ s.last_event_id + 1
      → postcard.encode_message e ≡ some payload
      → decode_event sha256 crc32 postcard m s payload ≡ ok e
  unfolding decode_event
  decode_event-next m s e payload i shown small next encoded =
      rw (postcard.decode-encode e payload encoded, next, check_id-next m s i shown small) refl

  -- One frame of the loop.
  scan-frame :
      (fuel : ℕ) (m : Mode) (s : Scan) (e : Event) (l : LoadedSession) (payload rest : Bytes)
      → InStep m s
      → Shown s
      → m.checksummed ≡ true
      → s.last_event_id < u64_max
      → e.id ≡ s.last_event_id + 1
      → postcard.encode_message e ≡ some payload
      → length payload ≤ max_frame_bytes
      → s.rest ≡ frame crc32 payload ++ rest
      → Recovery.push sha256 s.loaded e ≡ some l
      → scan sha256 crc32 postcard (suc fuel) m s
        ≡ scan sha256 crc32 postcard fuel m (record (loaded_scan sha256 s e l) { rest = rest })
  unfolding scan take_frame
  scan-frame fuel m s e l payload rest i shown checksums small next encoded fits at p =
      rw
        (
          at,
          read_frame-frame crc32 crc32_u32 m checksums payload fits rest,
          decode_event-next m s e payload i shown small next encoded,
          accept_new sha256 m s e l i (ground (arith, next, i.same_last)) p,
          i.unlimited,
          scan,
          take_frame,
        )
        refl

  -- The scan read all of `events` and left `torn`.
  pub record Recovers (m : Mode) (s : Scan) (log events : List Event) (last : ℕ) (torn : Bytes)
      (out : Scan) : Type 0 where
    pub pushed : push_all sha256 s.loaded events ≡ some out.loaded
    pub loads : Loads (log ++ events) out.loaded
    pub left : out.rest ≡ torn
    pub unlimited : out.collection_limited ≡ false
    pub last_id : out.last_event_id ≡ last

  pub recover :
      (events : List Event) (fuel : ℕ) (m : Mode) (s : Scan) (log : List Event) (last : ℕ)
      (bytes torn : Bytes)
      → InStep m s
      → Shown s
      → m.checksummed ≡ true
      → Logged crc32 postcard events bytes
      → s.rest ≡ bytes ++ torn
      → read_frame crc32 m torn ≡ ok none
      → Loads log s.loaded
      → Numbered (s.last_event_id + 1) last events
      → AllLight events
      → last ≤ u64_max
      → length events < fuel
      → (out : Scan) × (scan sha256 crc32 postcard fuel m s ≡ ok out)
        × Recovers m s log events last torn out
  unfolding scan take_frame
  recover events zero m s log last bytes torn i shown checksums logged at ends loads numbered light
        small fuel =
      absurd (omega arith)
  recover [] (suc fuel) m s log last bytes torn i shown checksums logged at ends loads numbered
        light small enough =
      (
        s,
        rw (ap (read_frame crc32 m) (at ∙ ap (λ b. b ++ torn) logged) ∙ ends, scan, take_frame)
            refl,
        record {
          pushed = refl;
          loads = subst (λ l. Loads l s.loaded) (sym (append-nil log)) loads;
          left = at ∙ ap (λ b. b ++ torn) logged;
          unlimited = i.unlimited;
          last_id = omega (arith, numbered);
        },
      )
  recover (e ∷ events) (suc fuel) m s log last bytes torn i shown checksums
        (payload, rest, encoded, fits, split, logged) at ends loads numbered light small enough =
      let (l, p, loads', head) =
        push-Loads sha256 s.loaded log e loads
          (numbered.0 ∙ ap (λ (k : ℕ). k + 1) (sym i.same_last)) light.0 in
      let t : Scan = record (loaded_scan sha256 s e l) { rest = rest ++ torn } in
      let j = loaded_scan-InStep sha256 m s e l i p in
      let (out, done, r) =
        recover events fuel m t (log ++ (e ∷ [])) last rest torn
          (rest-InStep m (loaded_scan sha256 s e l) (rest ++ torn) j)
          (λ id after. ground (arith, head)) checksums logged refl ends loads'
          (subst (λ k. Numbered (k + 1) last events) (sym (head ∙ numbered.0)) numbered.1) light.1
          small (omega arith) in
      (
        out,
        scan-frame fuel m s e l payload (rest ++ torn) i shown checksums
              (omega (arith, Numbered-length (s.last_event_id + 1 + 1) last events numbered.1))
              numbered.0 encoded fits
              (at ∙ ap (λ b. b ++ torn) split ∙ append_assoc (frame crc32 payload) rest torn) p
            ∙ done,
        record {
          pushed = rw (p, push_all) r.pushed;
          loads = subst (λ k. Loads k out.loaded) (append_assoc log (e ∷ []) events) r.loads;
          left = r.left;
          unlimited = r.unlimited;
          last_id = r.last_id;
        },
      )

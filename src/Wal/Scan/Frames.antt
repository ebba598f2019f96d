-- ===== src/Wal/Scan/Frames.antt =====
-- What a scan reads back of the frames that `SessionDisk::append` writes.
use asp.Base.{
  ℕ, zero, suc, ◌+◌, ◌≤◌, ◌<◌, ◌≡◌, true, none, some, ◌++◌, length, take, arith, ok, u32_max,
  to_be_bytes, from_be_bytes-to_be_bytes, take-append_left, drop-append_left, length-append,
  length-take, ==_refl,
}
use asp.Event.{Bytes}
use asp.Wire.Frame.{max_frame_bytes}
use asp.Wal.Scan.{Mode, eof, mismatch, read_payload, read_checksum, read_frame}

-- One frame: the length, the checksum and the payload.
abbrev pub frame : (Bytes → ℕ) → Bytes → Bytes
frame crc32 payload = to_be_bytes (length payload) ++ (to_be_bytes (crc32 payload) ++ payload)

module _ (crc32 : Bytes → ℕ) (crc32_u32 : (bytes : Bytes) → crc32 bytes ≤ u32_max) (m : Mode)
    (checksums : m.checksummed ≡ true) (payload : Bytes)
    (fits : length payload ≤ max_frame_bytes) where
  pub read_frame-frame :
      (rest : Bytes) → read_frame crc32 m (frame crc32 payload ++ rest) ≡ ok (some (payload, rest))
  unfolding read_frame read_checksum read_payload mismatch
  read_frame-frame rest = ground (
    arith,
    checksums,
    from_be_bytes-to_be_bytes (length payload) (omega arith),
    from_be_bytes-to_be_bytes (crc32 payload) (crc32_u32 payload),
    length-append payload rest,
    take-append_left payload rest,
    drop-append_left payload rest,
    ==_refl (crc32 payload),
  )

  read_checksum-torn :
      (k : ℕ) (remaining : Bytes)
      → m.create ≡ true
      → k < 4 + length payload
      → read_checksum crc32 m remaining
          (length payload)
          (take k (to_be_bytes (crc32 payload) ++ payload))
        ≡ ok none
  unfolding read_checksum read_payload eof
  read_checksum-torn zero remaining repairs short = ground (arith, repairs, checksums)
  read_checksum-torn (suc zero) remaining repairs short = ground (arith, repairs, checksums)
  read_checksum-torn (suc (suc zero)) remaining repairs short = ground (arith, repairs, checksums)
  read_checksum-torn (suc (suc (suc zero))) remaining repairs short =
      ground (arith, repairs, checksums)
  read_checksum-torn (suc (suc (suc (suc k)))) remaining repairs short =
      ground (arith, repairs, checksums, length-take k payload)

  -- A frame that a crash cut short is no frame, where the log may be repaired.
  pub read_frame-torn :
      (k : ℕ)
      → m.create ≡ true
      → k < length (frame crc32 payload)
      → read_frame crc32 m (take k (frame crc32 payload)) ≡ ok none
  unfolding read_frame eof
  read_frame-torn zero repairs short = ground (arith, repairs)
  read_frame-torn (suc zero) repairs short = ground (arith, repairs)
  read_frame-torn (suc (suc zero)) repairs short = ground (arith, repairs)
  read_frame-torn (suc (suc (suc zero))) repairs short = ground (arith, repairs)
  read_frame-torn (suc (suc (suc (suc k)))) repairs short = ground (
    arith,
    from_be_bytes-to_be_bytes (length payload) (omega arith),
    read_checksum-torn k (take (suc (suc (suc (suc k)))) (frame crc32 payload)) repairs
        (omega arith),
  )

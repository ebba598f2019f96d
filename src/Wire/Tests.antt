-- ===== src/Wire/Tests.antt =====
-- Runs of the wire functions, and the theorems about them at concrete inputs. `run_length` is a codec
-- that meets the contract of `Zlib`: it shortens a run of zeros and copies anything else.
use asp.Base.{
  ℕ, ◌+◌, ◌≤◌, ◌≡◌, ◌≢◌, refl, ap, sym, Bool, true, ◌&&◌, inl, inr, Option, none, some, List, [],
  ◌∷◌, ◌++◌, length, length-take, get_or, take, replicate, ◌==◌, if◌then◌else◌, Bool-cases, arith,
  leb, ok, err, to_be_bytes, drop, ◌<◌, ◌⊎◌,
}
use asp.Wire.Version.{protocol_version_supported}
use asp.Wire.Sampling.{should_attempt_frame_compression, frame_compression_min_bytes}
use asp.Wire.Sampling.Text.{should_attempt-AllBelow}
use asp.Wire.Frame.{
  Zlib, framed, frame_decoded_len, encode_frame_payload, encode_frame_payload_for_version,
  encode_compressed, decode_frame_payload, decode_frame_payload_for_version, max_frame_bytes,
  maximum_for_version, unsupported_version,
}
use asp.Wire.Frame.RoundTrip.{frame_round_trip}
use asp.Wire.Frame.Bounds.{frame_decoded_len-decode, decode_bounded, version_fails_closed}
use asp.Wire.Frame.Stream.{
  Codec, wire_too_large, finished_early, read_frame_payload_for_version, read_frame_for_version,
  write_frame_for_version, read-write_frame, read_frame_payload_bounded,
}

unfoldable pub all_zero : List ℕ → Bool
all_zero [] = true
all_zero (x ∷ xs) = x == 0 && all_zero xs

all_zero-replicate : (xs : List ℕ) → all_zero xs ≡ true → xs ≡ replicate (length xs) 0
unfolding all_zero
all_zero-replicate [] h = refl
all_zero-replicate (x ∷ xs) h = ground (arith, all_zero-replicate xs)

unfoldable pub shorten : List ℕ → List ℕ
unfolding all_zero
shorten p = if all_zero p then 120 ∷ 156 ∷ 0 ∷ length p ∷ [] else 120 ∷ 156 ∷ 1 ∷ p

unfoldable pub restore : ℕ → List ℕ → Option (List ℕ)
restore limit (a ∷ b ∷ tag ∷ rest) =
    some (take limit (if tag == 0 then replicate (get_or rest 0 0) 0 else rest))
restore limit _ = none

pub restore-shorten :
    (p c : List ℕ) (limit : ℕ) → some (shorten p) ≡ some c → restore limit c ≡ some (take limit p)
unfolding shorten restore
restore-shorten p c limit h = elim (Bool-cases (all_zero p)) [
  | inl zeros ↦ ground (arith, all_zero-replicate p zeros)
  | inr other ↦ ground arith
]

pub length-shorten : (p c : List ℕ) → some (shorten p) ≡ some c → 2 ≤ length c
unfolding shorten
length-shorten p c h = ground arith

pub length-restore : (limit : ℕ) (c d : List ℕ) → restore limit c ≡ some d → length d ≤ limit
unfolding restore
length-restore limit [] d h = absurd (cc)
length-restore limit (a ∷ []) d h = absurd (cc)
length-restore limit (a ∷ b ∷ []) d h = absurd (cc)
length-restore limit (a ∷ b ∷ tag ∷ rest) d h =
    let whole : List ℕ = if tag == 0 then replicate (get_or rest 0 0) 0 else rest in
    let e : take limit whole ≡ d = ground arith in
    omega (arith, length-take limit whole, ap length e)

abbrev pub run_length : Zlib
run_length = record {
  deflate = λ p. some (shorten p);
  inflate = restore;
  inflate-deflate = restore-shorten;
  length-deflate = length-shorten;
  length-inflate = length-restore;
}

abbrev zeros : List ℕ
zeros = replicate 1024 0

shorten-ne-none : (q : List ℕ) → some (shorten q) ≢ none
shorten-ne-none q h = cc

frame_round_trip_example :
    (f : List ℕ) × (encode_frame_payload_for_version run_length zeros 17 ≡ ok f)
    × (decode_frame_payload_for_version run_length f 17 ≡ ok zeros)
    × (length f ≤ length zeros + 7)
frame_round_trip_example =
    frame_round_trip run_length zeros 17 shorten-ne-none (unfold protocol_version_supported in refl)
      (omega arith)

-- The zeros travel as a compressed frame of eleven bytes.
abbrev zeros_frame : List ℕ
zeros_frame = framed 1 1024 (120 ∷ 156 ∷ 0 ∷ 1024 ∷ [])

zeros_encoded : encode_frame_payload run_length zeros ≡ ok zeros_frame
unfolding encode_frame_payload encode_compressed shorten should_attempt_frame_compression
zeros_encoded = refl

zeros_decoded : decode_frame_payload run_length zeros_frame ≡ ok zeros
unfolding decode_frame_payload restore
zeros_decoded = refl

frame_decoded_len-decode_example : frame_decoded_len zeros_frame ≡ ok 1024
frame_decoded_len-decode_example =
    frame_decoded_len-decode run_length zeros_frame zeros zeros_decoded

decode_bounded_example : (protocol_version_supported 17 ≡ true) × (length zeros ≤ max_frame_bytes)
decode_bounded_example =
    decode_bounded run_length zeros_frame zeros 17
      (unfold decode_frame_payload_for_version in zeros_decoded)

version_fails_closed_example :
    (encode_frame_payload_for_version run_length (1 ∷ []) 18 ≡ err unsupported_version)
    × (decode_frame_payload_for_version run_length (1 ∷ []) 18 ≡ err unsupported_version)
version_fails_closed_example =
    version_fails_closed run_length (1 ∷ []) 18 (unfold protocol_version_supported in refl)

should_attempt-AllBelow_example :
    should_attempt_frame_compression (b'o' ∷ b'k' ∷ []) ≡ leb frame_compression_min_bytes 2
should_attempt-AllBelow_example = should_attempt-AllBelow (b'o' ∷ b'k' ∷ []) (omega arith)

-- Messages that are byte strings already.
abbrev bytes_codec : Codec (List ℕ)
bytes_codec = record {
  encode_message = λ m. some m;
  decode_message = λ b. some b;
  decode-encode = λ value bytes h. sym h;
}

abbrev hello_frame : List ℕ
hello_frame = 0 ∷ 0 ∷ 0 ∷ 9 ∷ b'A' ∷ b'F' ∷ 0 ∷ 0 ∷ 0 ∷ 0 ∷ 2 ∷ b'h' ∷ b'i' ∷ []

hello_written :
    write_frame_for_version run_length bytes_codec (b'h' ∷ b'i' ∷ []) 17 ≡ ok hello_frame
unfolding write_frame_for_version encode_frame_payload_for_version encode_frame_payload
    should_attempt_frame_compression
hello_written = refl

read-write_frame_example :
    read_frame_for_version run_length bytes_codec (hello_frame ++ (7 ∷ [])) 17
    ≡ ok (some (b'h' ∷ b'i' ∷ [], 7 ∷ []))
read-write_frame_example =
    read-write_frame run_length bytes_codec (b'h' ∷ b'i' ∷ []) 17 hello_frame (7 ∷ []) hello_written

-- The prefix asks for a byte more than the limit, and the body is not there.
abbrev too_long : List ℕ
too_long = to_be_bytes (max_frame_bytes + 10)

read_frame_payload_bounded_example :
    ((maximum_for_version 17 < max_frame_bytes + 10)
      × (read_frame_payload_for_version too_long 17 ≡ err wire_too_large))
    ⊎ ((max_frame_bytes + 10 ≤ maximum_for_version 17)
        × (length (drop 4 too_long) < max_frame_bytes + 10)
        × (read_frame_payload_for_version too_long 17 ≡ err finished_early))
    ⊎ ((max_frame_bytes + 10 ≤ maximum_for_version 17)
        × (max_frame_bytes + 10 ≤ length (drop 4 too_long))
        × (read_frame_payload_for_version too_long 17
            ≡ ok (
                some (
                  take (max_frame_bytes + 10) (drop 4 too_long),
                  drop (max_frame_bytes + 10) (drop 4 too_long),
                ))))
read_frame_payload_bounded_example =
    read_frame_payload_bounded too_long 17 (max_frame_bytes + 10) (omega arith) refl

-- ===== src/Nec/Packets.antt =====
-- The decoder of whole packets: exactly which times it accepts, and the round trip with the encoder.
use mathlib.Core.List.{append_assoc}
use factory_test.Common.{
  ℕ, zero, suc, ◌+◌, ◌-◌, ◌*◌, ◌/◌, ◌≤◌, ◌<◌, ◌≡◌, refl, ◌↔◌, ap, List, [], ◌∷◌, ◌++◌, true, some,
  arith, length, drop, All,
}
use factory_test.Nec.{
  hdr_pulse_us, hdr_space_us, approx, encode_bits, encode_bytes, encode_nec_packet, decode_bytes,
  decode_header, decode_nec_packet_from, decode_scan, decode_nec_packet,
}
use factory_test.Nec.Heard.{HearsBits, HearsBytes, decode_bytes-hears, decode_bytes_sound}

length-HearsBits :
    (bits byte : ℕ) (times rest : List ℕ)
    → HearsBits bits byte times rest
    → length times ≡ 2 * bits + length rest
length-HearsBits zero byte times rest h = omega (arith, ap length h)
length-HearsBits (suc bits) byte [] rest h = absurd h
length-HearsBits (suc bits) byte (p ∷ []) rest h = absurd h
length-HearsBits (suc bits) byte (p ∷ s ∷ times) rest (hp, hs, h) =
    omega (arith, length-HearsBits bits (byte / 2) times rest h)

length-HearsBytes :
    (bytes times rest : List ℕ)
    → HearsBytes bytes times rest
    → length times ≡ 16 * length bytes + length rest
length-HearsBytes [] times rest h = omega (arith, ap length h)
length-HearsBytes (byte ∷ bytes) times rest (mid, small, h, hs) =
    omega (arith, length-HearsBits 8 byte times mid h, length-HearsBytes bytes mid rest hs)

length-drop : (n : ℕ) (xs : List ℕ) → length (drop n xs) ≡ length xs - n
length-drop zero xs = omega arith
length-drop (suc n) [] = omega arith
length-drop (suc n) (x ∷ xs) = omega (arith, length-drop n xs)

-- A header within its tolerances, four bytes, and at least the closing pulse after them.
abbrev pub HearsPacket : List ℕ → List ℕ → Type 0
HearsPacket bytes (pulse ∷ space ∷ times) =
    (6500 ≤ pulse)
    × (pulse ≤ 11500)
    × (2700 ≤ space)
    × (space ≤ 6300)
    × (length bytes ≡ 4)
    × ((rest : List ℕ) × (0 < length rest) × HearsBytes bytes times rest)
HearsPacket bytes _ = ⊥

pulse-ok : (pulse : ℕ) → 6500 ≤ pulse → pulse ≤ 11500 → approx pulse hdr_pulse_us 2500 ≡ true
unfolding approx
pulse-ok pulse low high = ground arith

space-ok : (space : ℕ) → 2700 ≤ space → space ≤ 6300 → approx space hdr_space_us 1800 ≡ true
unfolding approx
space-ok space low high = ground arith

approx_bounds :
    (value target tolerance : ℕ)
    → target + tolerance < 4294967296
    → approx value target tolerance ≡ true
    → (target ≤ value + tolerance) × (value ≤ target + tolerance)
unfolding approx
approx_bounds value target tolerance fits h = ground arith

decode_header-hears :
    (bytes times : List ℕ) → HearsPacket bytes times → decode_header times ≡ some bytes
unfolding decode_header
decode_header-hears bytes [] h = absurd h
decode_header-hears bytes (p ∷ []) h = absurd h
decode_header-hears bytes (p ∷ s ∷ times) (a, b, c, d, len, (rest, closing, hs)) =
    rw (pulse-ok p a b, space-ok s c d) (rw len at (decode_bytes-hears bytes times rest hs))

decode_header_sound :
    (times : List ℕ) {bytes : List ℕ}
    → 67 ≤ length times
    → decode_header times ≡ some bytes
    → HearsPacket bytes times
unfolding decode_header
decode_header_sound [] n h = absurd (omega arith)
decode_header_sound (p ∷ []) n h = absurd (omega arith)
decode_header_sound (p ∷ s ∷ times) {bytes} n h =
    let body : decode_bytes 4 times ≡ some bytes = ground arith in
    let (len, (rest, hs)) = decode_bytes_sound 4 times {bytes = bytes} body in
    let size = length-HearsBytes bytes times rest hs in
    let pulse : approx p hdr_pulse_us 2500 ≡ true = ground arith in
    let space : approx s hdr_space_us 1800 ≡ true = ground arith in
    let (a, b) = approx_bounds p 9000 2500 (omega arith) pulse in
    let (c, d) = approx_bounds s 4500 1800 (omega arith) space in
    (omega arith, omega arith, omega arith, omega arith, len, (rest, omega arith, hs))

length-HearsPacket : (bytes times : List ℕ) → HearsPacket bytes times → 67 ≤ length times
length-HearsPacket bytes [] h = absurd h
length-HearsPacket bytes (p ∷ []) h = absurd h
length-HearsPacket bytes (p ∷ s ∷ times) (a, b, c, d, len, (rest, closing, hs)) =
    omega (arith, length-HearsBytes bytes times rest hs)

-- At a start index the decoder returns four bytes exactly when the times from there on are a packet
-- of those bytes: a header within 2500 and 1800 us, pulses within 450 us, a set bit's space from
-- 840 to 2540 us, a clear bit's from 60 to 839 us, and at least one time after the last bit.
pub decode_nec_packet_from_iff :
    (times : List ℕ) (start : ℕ) (bytes : List ℕ)
    → (decode_nec_packet_from times start ≡ some bytes) ↔ HearsPacket bytes (drop start times)
unfolding decode_nec_packet_from
decode_nec_packet_from_iff times start bytes = (
  λ h.
      decode_header_sound (drop start times) {bytes = bytes}
        (ground (arith, length-drop start times)) (ground arith),
  λ h. ground (
    arith,
    length-drop start times,
    length-HearsPacket bytes (drop start times) h,
    decode_header-hears bytes (drop start times) h,
  ),
)

encode_bits-hears :
    (bits byte : ℕ) (rest : List ℕ) → HearsBits bits byte (encode_bits bits byte ++ rest) rest
unfolding encode_bits
encode_bits-hears zero byte rest = refl
encode_bits-hears (suc bits) byte rest =
    ((omega arith), ground arith, encode_bits-hears bits (byte / 2) rest)

encode_bytes-hears :
    (bytes rest : List ℕ)
    → All (λ b. b < 256) bytes
    → HearsBytes bytes (encode_bytes bytes ++ rest) rest
unfolding encode_bytes
encode_bytes-hears [] rest small = refl
encode_bytes-hears (byte ∷ bytes) rest small = (
  encode_bytes bytes ++ rest,
  small.0,
  rw append_assoc (encode_bits-hears 8 byte (encode_bytes bytes ++ rest)),
  encode_bytes-hears bytes rest small.1,
)

encode_nec_packet-hears :
    (bytes : List ℕ)
    → length bytes ≡ 4
    → All (λ b. b < 256) bytes
    → HearsPacket bytes (encode_nec_packet bytes)
unfolding encode_nec_packet
encode_nec_packet-hears bytes len small = (
  omega arith,
  omega arith,
  omega arith,
  omega arith,
  len,
  (560 ∷ [], omega arith, encode_bytes-hears bytes (560 ∷ []) small),
)

decode_scan-first :
    (rounds i : ℕ) (times : List ℕ) {output : List ℕ}
    → 0 < rounds
    → decode_nec_packet_from times i ≡ some output
    → decode_scan rounds times i ≡ some output
unfolding decode_scan
decode_scan-first zero i times h e = absurd (omega arith)
decode_scan-first (suc rounds) i times h e = rw (e, decode_scan)

-- Four bytes, each below 256, that are encoded to pulse and space times and decoded again come back.
pub decode-encode_nec_packet :
    (bytes : List ℕ)
    → length bytes ≡ 4
    → All (λ b. b < 256) bytes
    → decode_nec_packet (encode_nec_packet bytes) ≡ some bytes
unfolding decode_nec_packet
decode-encode_nec_packet bytes len small =
    let heard = encode_nec_packet-hears bytes len small in
    let size = length-HearsPacket bytes (encode_nec_packet bytes) heard in
    decode_scan-first (length (encode_nec_packet bytes) - 2) 0 (encode_nec_packet bytes)
      (omega arith) ((decode_nec_packet_from_iff (encode_nec_packet bytes) 0 bytes).1 heard)

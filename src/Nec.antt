-- ===== src/Nec.antt =====
-- src/platform/ir_service.cpp, the NEC infrared codec, make_nec_command to decode_nec_packet. Times
-- are microseconds in uint32_t, bytes are numbers below 256; a byte is sent from its low bit on.
pub mod Heard
pub mod Packets
pub mod Fields
pub mod Receiving
use Prim.Native.Nat.{bit_xor}
use factory_test.Common.{
  ℕ, zero, suc, ◌+◌, ◌-◌, ◌*◌, ◌/◌, ◌%◌, Bool, ◌&&◌, ◌||◌, not, List, [], ◌∷◌, ◌++◌, Option, none,
  some, ltb, leb, ◌==◌, if◌then◌else◌, length, drop,
}

abbrev pub packet_bytes : ℕ
packet_bytes = 4

abbrev pub hdr_pulse_us : ℕ
hdr_pulse_us = 9000

abbrev pub hdr_space_us : ℕ
hdr_space_us = 4500

abbrev pub bit_pulse_us : ℕ
bit_pulse_us = 560

abbrev pub zero_space_us : ℕ
zero_space_us = 560

abbrev pub one_space_us : ℕ
one_space_us = 1690

-- static_cast<uint8_t> and static_cast<uint16_t>; `u32` is the wrap of a sum of uint32_t.
abbrev pub u8 : ℕ → ℕ
u8 n = n % 256

abbrev pub u16 : ℕ → ℕ
u16 n = n % 65536

abbrev pub u32 : ℕ → ℕ
u32 n = n % 4294967296

-- static_cast<uint8_t>(~byte)
abbrev pub complement : ℕ → ℕ
complement byte = 255 - byte

-- bytes[i] | (bytes[i + 1] << 8): the two bytes share no bit.
abbrev pub word : ℕ → ℕ → ℕ
word low high = u16 (low + 256 * high)

pub make_nec_command : ℕ → ℕ
make_nec_command command_byte = word command_byte (complement command_byte)

pub make_nec_bytes : ℕ → ℕ → List ℕ
make_nec_bytes address command =
    u8 address ∷ u8 (address / 256) ∷ u8 command ∷ u8 (command / 256) ∷ []

pub make_standard_nec_bytes : ℕ → ℕ → List ℕ
make_standard_nec_bytes address command =
    address ∷ complement address ∷ command ∷ complement command ∷ []

-- "NEC", "NECX" and "NEC32".
pub data Protocol : Type 0 where
  nec necx nec32 : Protocol

pub record NecPacket : Type 0 where
  pub address : ℕ
  pub command : ℕ
  pub protocol : Protocol

protocol_of : ℕ → ℕ → ℕ → ℕ → Protocol
protocol_of a b c d =
    if u8 (bit_xor a b) == 255 then nec else if u8 (bit_xor c d) == 255 then necx else nec32

-- bytes.size() must be K_PACKET_BYTES.
pub parse_nec_bytes : List ℕ → Option NecPacket
unfolding protocol_of
parse_nec_bytes (a ∷ b ∷ c ∷ d ∷ []) =
    some (record { address = word a b; command = word c d; protocol = protocol_of a b c d })
parse_nec_bytes _ = none

-- The inner loop of the encoder; `bits` is the rounds left, `byte` what is left of the byte.
pub encode_bits : ℕ → ℕ → List ℕ
encode_bits zero byte = []
encode_bits (suc bits) byte =
    bit_pulse_us
    ∷ (if byte % 2 == 1 then one_space_us else zero_space_us)
    ∷ encode_bits bits (byte / 2)

pub encode_bytes : List ℕ → List ℕ
encode_bytes [] = []
encode_bytes (byte ∷ bytes) = encode_bits 8 byte ++ encode_bytes bytes

pub encode_nec_packet : List ℕ → List ℕ
encode_nec_packet bytes = hdr_pulse_us ∷ hdr_space_us ∷ (encode_bytes bytes ++ bit_pulse_us ∷ [])

-- value + tolerance is a sum of uint32_t, and wraps.
pub approx : ℕ → ℕ → ℕ → Bool
approx value target tolerance =
    leb target (u32 (value + tolerance)) && leb value (u32 (target + tolerance))

-- One bit of the inner loop of the decoder: its weight is added later, by `decode_bits`.
pub decode_bit : ℕ → ℕ → Option ℕ
unfolding approx
decode_bit pulse space =
    if not (approx pulse bit_pulse_us 450)
    then none
    else if approx space one_space_us 850
    then some 1
    else if approx space zero_space_us 500
    then some 0
    else none

-- The loop over the bits of one byte: the rounds left, the weight 1 << bit, the times from
-- durations[index] on, and the byte so far, in which no bit of that weight or above is set. It
-- returns the byte and the times that are left. The caller has checked that the times suffice.
pub decode_bits : ℕ → ℕ → List ℕ → ℕ → Option (ℕ × List ℕ)
decode_bits zero weight durations byte = some (byte, durations)
decode_bits (suc rounds) weight (pulse ∷ space ∷ durations) byte = elim (decode_bit pulse space) [
  | none ↦ none
  | some bit ↦ decode_bits rounds (2 * weight) durations (byte + weight * bit)
]
decode_bits (suc rounds) weight _ byte = none

-- The loop over the bytes.
pub decode_bytes : ℕ → List ℕ → Option (List ℕ)
decode_bytes zero durations = some []
decode_bytes (suc rounds) durations = elim (decode_bits 8 1 durations 0) [
  | none ↦ none
  | some (byte, rest) ↦ elim (decode_bytes rounds rest) [
    | none ↦ none
    | some bytes ↦ some (byte ∷ bytes)
  ]
]

decode_header : List ℕ → Option (List ℕ)
decode_header (pulse ∷ space ∷ durations) =
    if not (approx pulse hdr_pulse_us 2500) || not (approx space hdr_space_us 1800)
    then none
    else decode_bytes packet_bytes durations
decode_header _ = none

-- A header, two times for each bit, and the closing pulse.
abbrev pub required : ℕ
required = 2 + packet_bytes * 16 + 1

-- `durations[start]` onwards is `drop start durations`.
pub decode_nec_packet_from : List ℕ → ℕ → Option (List ℕ)
decode_nec_packet_from durations start =
    if ltb (length durations) (start + required) then none else decode_header (drop start durations)

-- The loop `for (i = 0; i + 2 < durations.size(); ++i)`, on the rounds left.
pub decode_scan : ℕ → List ℕ → ℕ → Option (List ℕ)
decode_scan zero durations i = none
decode_scan (suc rounds) durations i = elim (decode_nec_packet_from durations i) [
  | none ↦ decode_scan rounds durations (i + 1)
  | some output ↦ some output
]

pub decode_nec_packet : List ℕ → Option (List ℕ)
decode_nec_packet durations = decode_scan (length durations - 2) durations 0

-- ===== src/CapFixture/Frames.antt =====
-- src/model/cap_fixture_test_model.cpp: the frames of 16 bytes that the fixture speaks over UART. A byte
-- is a number below 256; an array is a list of its length.
use Prim.Native.Nat.{bit_xor, bit_and}
use Prim.Native.String.{slice}
use factory_test.Common.{
  Bool, true, false, not, ◌&&◌, ◌||◌, ◌==◌, ℕ, zero, suc, ◌+◌, ◌*◌, ◌/◌, ◌%◌, String, concat, List,
  [], ◌∷◌, ◌++◌, length, get_elem?, Option, none, some, if◌then◌else◌,
}
use factory_test.Files.{Result, ok, err}
pub mod Check

-- "%X" of a digit, and two digits for a byte.
abbrev pub hex_digit : ℕ → String
hex_digit n = slice "0123456789ABCDEF" n (n + 1)

abbrev pub hex_byte : ℕ → String
hex_byte byte = concat (hex_digit (byte / 16)) (hex_digit (byte % 16))

unfoldable pub hex_bytes : List ℕ → String
hex_bytes [] = ""
hex_bytes (byte ∷ []) = hex_byte byte
hex_bytes (byte ∷ next ∷ bytes) = concat (hex_byte byte) (concat " " (hex_bytes (next ∷ bytes)))

-- uint16_t.
abbrev pub uint16 : ℕ → ℕ
uint16 n = n % 65536

abbrev pub shifted : ℕ → ℕ
shifted crc = if crc % 2 == 1 then uint16 (bit_xor (crc / 2) 0xA001) else uint16 (crc / 2)

-- The inner loop, with the number of bits that are left.
unfoldable pub crc_bits : ℕ → ℕ → ℕ
crc_bits zero crc = crc
crc_bits (suc bits) crc = crc_bits bits (shifted crc)

unfoldable pub crc_bytes : List ℕ → ℕ → ℕ
crc_bytes [] crc = crc
crc_bytes (byte ∷ bytes) crc = crc_bytes bytes (crc_bits 8 (uint16 (bit_xor crc byte)))

unfoldable pub crc16_modbus : List ℕ → ℕ
crc16_modbus bytes = crc_bytes bytes 0xFFFF

-- The first bytes of a list.
unfoldable pub prefix : ℕ → List ℕ → List ℕ
prefix zero bytes = []
prefix (suc n) [] = []
prefix (suc n) (byte ∷ bytes) = byte ∷ prefix n bytes

unfoldable pub suffix : ℕ → List ℕ → List ℕ
suffix zero bytes = bytes
suffix (suc n) [] = []
suffix (suc n) (byte ∷ bytes) = suffix n bytes

abbrev pub frame_head : ℕ → ℕ → List ℕ → List ℕ
frame_head type payload_size payload = 0xA5 ∷ 0x5A ∷ type ∷ payload_size ∷ payload

-- The payload has ten bytes.
unfoldable pub make_uart_frame : ℕ → List ℕ → ℕ → List ℕ
make_uart_frame type payload payload_size =
    let head = frame_head type payload_size payload in
    let crc = crc16_modbus head in head ++ (crc % 256) ∷ (crc / 256 % 256) ∷ []

abbrev pub byte_at : ℕ → List ℕ → ℕ
byte_at n [] = 0
byte_at zero (byte ∷ bytes) = byte
byte_at (suc n) (byte ∷ bytes) = byte_at n bytes

-- operator== of two arrays.
unfoldable pub same_bytes : List ℕ → List ℕ → Bool
same_bytes [] [] = true
same_bytes [] (_ ∷ _) = false
same_bytes (_ ∷ _) [] = false
same_bytes (a ∷ rest) (b ∷ others) = a == b && same_bytes rest others

-- The result is the error message on a failure.
unfoldable pub validate_uart_frame : List ℕ → ℕ → ℕ → List ℕ → Result (Unit {0})
validate_uart_frame frame expected_type expected_length expected_payload =
    if not (byte_at 0 frame == 0xA5) || not (byte_at 1 frame == 0x5A)
    then err "invalid UART frame header"
    else if not (byte_at 2 frame == expected_type) || not (byte_at 3 frame == expected_length)
    then err "unexpected UART frame type or payload length"
    else if not (same_bytes expected_payload (prefix 10 (suffix 4 frame)))
    then err "UART payload mismatch"
    else if not (byte_at 14 frame + byte_at 15 frame * 256 == crc16_modbus (prefix 14 frame))
    then err "UART CRC mismatch"
    else ok tt

-- ===== src/CapFixture/Frames/Check.antt =====
-- src/model/cap_fixture_test_model.cpp: the check of a frame accepts what make_uart_frame makes.
use Prim.Native.Nat.{bit_xor}
use factory_test.Common.{
  ◌≡◌, ◌↔◌, refl, sym, ap, ◌∙◌, subst, Bool, true, false, not, ◌&&◌, ◌||◌, ◌==◌, ==_iff, ℕ, zero,
  suc, ◌+◌, ◌*◌, ◌/◌, ◌%◌, ◌<◌, String, List, [], ◌∷◌, ◌++◌, length, if◌then◌else◌, arith,
}
use factory_test.Files.{Result, ok, err}
use factory_test.CapFixture.Frames.{
  uint16, shifted, crc_bits, crc_bytes, crc16_modbus, prefix, suffix, make_uart_frame, byte_at,
  same_bytes, validate_uart_frame,
}

-- The tests of bytes.
==_refl : (n : ℕ) → (n == n) ≡ true
==_refl n = ground arith

same_bytes_refl : (bytes : List ℕ) → same_bytes bytes bytes ≡ true
unfolding same_bytes
same_bytes_refl [] = refl
same_bytes_refl (b ∷ bytes) = rw (==_refl b) (same_bytes_refl bytes)

both-true : (a b : Bool) → (a && b) ≡ true → (a ≡ true) × (b ≡ true)
both-true true b h = (refl, h)
both-true false b h = absurd (let bad : false ≡ true = h in cc)

same_bytes_sound : (a b : List ℕ) → same_bytes a b ≡ true → a ≡ b
unfolding same_bytes
same_bytes_sound [] [] h = refl
same_bytes_sound [] (_ ∷ _) h = absurd (let bad : false ≡ true = h in cc)
same_bytes_sound (_ ∷ _) [] h = absurd (let bad : false ≡ true = h in cc)
same_bytes_sound (a ∷ rest) (b ∷ others) h =
    let (first, others_same) = both-true (a == b) (same_bytes rest others) h in
    let e : a ≡ b = (==_iff a b).0 first in let es = same_bytes_sound rest others others_same in cc

-- The parts of a frame.
prefix-++ : (n : ℕ) (p q : List ℕ) → length p ≡ n → prefix n (p ++ q) ≡ p
unfolding prefix
prefix-++ zero [] q h = refl
prefix-++ zero (_ ∷ _) q h = absurd (omega (arith, h))
prefix-++ (suc n) [] q h = absurd (omega (arith, h))
prefix-++ (suc n) (b ∷ p) q h = ap (λ rest. b ∷ rest) (prefix-++ n p q (omega (arith, h)))

byte_at_first : (n : ℕ) (p : List ℕ) (x y : ℕ) → length p ≡ n → byte_at n (p ++ x ∷ y ∷ []) ≡ x
byte_at_first zero [] x y h = refl
byte_at_first zero (_ ∷ _) x y h = absurd (omega (arith, h))
byte_at_first (suc n) [] x y h = absurd (omega (arith, h))
byte_at_first (suc n) (b ∷ p) x y h = byte_at_first n p x y (omega (arith, h))

byte_at_second :
    (n : ℕ) (p : List ℕ) (x y : ℕ) → length p ≡ n → byte_at (suc n) (p ++ x ∷ y ∷ []) ≡ y
byte_at_second zero [] x y h = refl
byte_at_second zero (_ ∷ _) x y h = absurd (omega (arith, h))
byte_at_second (suc n) [] x y h = absurd (omega (arith, h))
byte_at_second (suc n) (b ∷ p) x y h = byte_at_second n p x y (omega (arith, h))

-- The CRC is a 16-bit number.
crc_bits_bound : (bits crc : ℕ) → crc < 65536 → crc_bits bits crc < 65536
unfolding crc_bits
crc_bits_bound zero crc h = h
crc_bits_bound (suc bits) crc h = crc_bits_bound bits (shifted crc) (ground arith)

crc_bytes_bound : (bytes : List ℕ) (crc : ℕ) → crc < 65536 → crc_bytes bytes crc < 65536
unfolding crc_bytes
crc_bytes_bound [] crc h = h
crc_bytes_bound (byte ∷ bytes) crc h =
    crc_bytes_bound bytes (crc_bits 8 (uint16 (bit_xor crc byte)))
      (crc_bits_bound 8 (uint16 (bit_xor crc byte)) (ground arith))

crc16_modbus_bound : (bytes : List ℕ) → crc16_modbus bytes < 65536
unfolding crc16_modbus
crc16_modbus_bound bytes = crc_bytes_bound bytes 0xFFFF (ground arith)

-- A chain of guards.
guard-ok :
    (g : Bool) (message : String) (rest : Result (Unit {0}))
    → (if g then err message else rest) ≡ ok tt
    → (g ≡ false) × (rest ≡ ok tt)
guard-ok true message rest h = absurd (let bad : err message ≡ ok tt = h in cc)
guard-ok false message rest h = (refl, h)

both_hold : (a b : Bool) → (not a || not b) ≡ false → (a ≡ true) × (b ≡ true)
both_hold true true h = (refl, refl)
both_hold true false h = absurd (let bad : true ≡ false = h in cc)
both_hold false b h = absurd (let bad : true ≡ false = h in cc)

holds : (a : Bool) → not a ≡ false → a ≡ true
holds true h = refl
holds false h = absurd (let bad : true ≡ false = h in cc)

-- The parts of any frame of sixteen bytes.
abbrev pub parts : ℕ → ℕ → ℕ → ℕ → List ℕ → ℕ → ℕ → List ℕ
parts a b t n p low high = a ∷ b ∷ t ∷ n ∷ p ++ low ∷ high ∷ []

check_parts :
    (type size : ℕ) (payload : List ℕ) (a b t n : ℕ) (p : List ℕ) (low high : ℕ)
    → length p ≡ 10
    → validate_uart_frame (parts a b t n p low high) type size payload ≡ (
        if not (a == 0xA5) || not (b == 0x5A)
        then err "invalid UART frame header"
        else if not (t == type) || not (n == size)
        then err "unexpected UART frame type or payload length"
        else if not (same_bytes payload p)
        then err "UART payload mismatch"
        else if not (low + high * 256 == crc16_modbus (a ∷ b ∷ t ∷ n ∷ p))
        then err "UART CRC mismatch"
        else ok tt)
unfolding validate_uart_frame prefix suffix
check_parts type size payload a b t n p low high h = rw (
  prefix-++ 10 p (low ∷ high ∷ []) h,
  byte_at_first 10 p low high h,
  byte_at_second 10 p low high h,
)

validate_uart_frame-make :
    (type size : ℕ) (payload : List ℕ)
    → length payload ≡ 10
    → validate_uart_frame (make_uart_frame type payload size) type size payload ≡ ok tt
unfolding make_uart_frame
validate_uart_frame-make type size payload h =
    let crc = crc16_modbus (0xA5 ∷ 0x5A ∷ type ∷ size ∷ payload) in
    let bound = crc16_modbus_bound (0xA5 ∷ 0x5A ∷ type ∷ size ∷ payload) in
    let digits : crc % 256 + crc / 256 % 256 * 256 ≡ crc = omega (arith, bound) in
    check_parts type size payload 0xA5 0x5A type size payload (crc % 256) (crc / 256 % 256) h
    ∙ rw (==_refl type, ==_refl size, same_bytes_refl payload, digits, ==_refl crc)

-- A frame whose parts are as expected is the one that is made of them.
made :
    (type size : ℕ) (payload : List ℕ) (a b t n : ℕ) (p : List ℕ) (low high : ℕ)
    → ((a == 0xA5) ≡ true) × ((b == 0x5A) ≡ true)
    → ((t == type) ≡ true) × ((n == size) ≡ true)
    → same_bytes payload p ≡ true
    → (low + high * 256 == crc16_modbus (a ∷ b ∷ t ∷ n ∷ p)) ≡ true
    → low < 256
    → high < 256
    → parts a b t n p low high ≡ make_uart_frame type payload size
unfolding make_uart_frame
made type size payload a b t n p low high head kind body sum small small' =
    let crc = crc16_modbus (0xA5 ∷ 0x5A ∷ type ∷ size ∷ payload) in
    let ea : a ≡ 0xA5 = (==_iff a 0xA5).0 head.0 in
    let eb : b ≡ 0x5A = (==_iff b 0x5A).0 head.1 in
    let et : t ≡ type = (==_iff t type).0 kind.0 in
    let en : n ≡ size = (==_iff n size).0 kind.1 in
    let ep : payload ≡ p = same_bytes_sound payload p body in
    let sums : low + high * 256 ≡ crc =
      (==_iff (low + high * 256) _).0 sum ∙ rw (ea, eb, et, en, ep) in
    let e_low : low ≡ crc % 256 = omega (arith, sums, small, small') in
    let e_high : high ≡ crc / 256 % 256 = omega (arith, sums, small, small') in cc

-- A frame of sixteen bytes, with a payload of ten and two CRC bytes, passes the check exactly when it is
-- the frame that make_uart_frame makes of the type, the length and the payload that are expected.
pub validate_uart_frame_iff :
    (type size : ℕ) (payload : List ℕ) (a b t n : ℕ) (p : List ℕ) (low high : ℕ)
    → length payload ≡ 10
    → length p ≡ 10
    → low < 256
    → high < 256
    → (validate_uart_frame (parts a b t n p low high) type size payload ≡ ok tt)
      ↔ (parts a b t n p low high ≡ make_uart_frame type payload size)
validate_uart_frame_iff type size payload a b t n p low high ten ten' small small' = (
  λ h.
      let (head, h₁) =
        guard-ok _ _ _ (sym (check_parts type size payload a b t n p low high ten') ∙ h) in
      let (kind, h₂) = guard-ok _ _ _ h₁ in
      let (body, h₃) = guard-ok _ _ _ h₂ in
      let (sum, h₄) = guard-ok _ _ _ h₃ in
      made type size payload a b t n p low high (both_hold _ _ head) (both_hold _ _ kind)
        (holds _ body) (holds _ sum) small small',
  λ e.
      subst (λ f. validate_uart_frame f type size payload ≡ ok tt) (sym e)
        (validate_uart_frame-make type size payload ten),
)

-- ===== src/Nec/Heard.antt =====
-- What the decoder accepts as a transmission of given bytes, and that it decodes exactly those.
use native.Mathlib.Nat.{pow-suc}
use factory_test.Common.{
  ℕ, zero, suc, ◌+◌, ◌*◌, ◌/◌, ◌%◌, ◌^◌, ◌≤◌, ◌<◌, ◌≡◌, refl, ◌⊎◌, inl, inr, List, [], ◌∷◌, some,
  Option-cases, arith, length, ap, subst, ◌∙◌,
}
use factory_test.Nec.{decode_bit, decode_bits, decode_bytes}

-- The received times that are read as a bit's pulse, and as the space after it.
abbrev pub IsPulse : ℕ → Type 0
IsPulse pulse = (110 ≤ pulse) × (pulse ≤ 1010)

abbrev pub IsSpace : ℕ → ℕ → Type 0
IsSpace bit space =
    ((bit ≡ 0) × (60 ≤ space) × (space < 840)) ⊎ ((bit ≡ 1) × (840 ≤ space) × (space ≤ 2540))

-- `times` begins with the low bits of `byte`, and `rest` follows.
abbrev pub HearsBits : ℕ → ℕ → List ℕ → List ℕ → Type 0
HearsBits zero byte times rest = times ≡ rest
HearsBits (suc bits) byte (pulse ∷ space ∷ times) rest =
    IsPulse pulse × IsSpace (byte % 2) space × HearsBits bits (byte / 2) times rest
HearsBits (suc bits) byte _ rest = ⊥

abbrev pub HearsBytes : List ℕ → List ℕ → List ℕ → Type 0
HearsBytes [] times rest = times ≡ rest
HearsBytes (byte ∷ bytes) times rest =
    (mid : List ℕ) × (byte < 256) × HearsBits 8 byte times mid × HearsBytes bytes mid rest

bit_value : ℕ → ℕ → ℕ
bit_value zero byte = 0
bit_value (suc bits) byte = byte % 2 + 2 * bit_value bits (byte / 2)

bit_value-byte : (byte : ℕ) → byte < 256 → bit_value 8 byte ≡ byte
unfolding bit_value
bit_value-byte byte h = omega arith

decode_bit-hears :
    (bit pulse space : ℕ) → IsPulse pulse → IsSpace bit space → decode_bit pulse space ≡ some bit
unfolding decode_bit
decode_bit-hears bit pulse space p s = ground arith

decode_bits-hears :
    (bits weight byte acc : ℕ) (times rest : List ℕ)
    → HearsBits bits byte times rest
    → decode_bits bits weight times acc ≡ some (acc + weight * bit_value bits byte, rest)
unfolding decode_bits bit_value
decode_bits-hears zero weight byte acc times rest h = ground arith
decode_bits-hears (suc bits) weight byte acc [] rest h = absurd h
decode_bits-hears (suc bits) weight byte acc (p ∷ []) rest h = absurd h
decode_bits-hears (suc bits) weight byte acc (p ∷ s ∷ times) rest (hp, hs, h) =
    rw (decode_bit-hears (byte % 2) p s hp hs, decode_bits)
      (decode_bits-hears bits (2 * weight) (byte / 2) (acc + weight * (byte % 2)) times rest h
        ∙ ap (λ (n : ℕ). some (n, rest)) (omega arith))

pub decode_bytes-hears :
    (bytes times rest : List ℕ)
    → HearsBytes bytes times rest
    → decode_bytes (length bytes) times ≡ some bytes
unfolding decode_bytes
decode_bytes-hears [] times rest h = refl
decode_bytes-hears (byte ∷ bytes) times rest (mid, small, h, hs) =
    rw
      (
        decode_bits-hears 8 1 byte 0 times mid h,
        decode_bytes-hears bytes mid rest hs,
        decode_bytes,
        bit_value-byte byte small,
      )
      (ap some (ap (λ (b : ℕ). b ∷ bytes) (omega (arith, bit_value-byte byte small))))

-- The other way round: what is decoded was heard.
decode_bit_sound :
    (pulse space : ℕ) {bit : ℕ}
    → decode_bit pulse space ≡ some bit
    → (bit < 2) × IsPulse pulse × IsSpace bit space
unfolding decode_bit
decode_bit_sound pulse space {bit} h = ground arith

shift-out : (bit byte : ℕ) → bit < 2 → (bit + 2 * byte) / 2 ≡ byte
shift-out bit byte h = omega arith

decode_bits_sound :
    (bits weight acc : ℕ) (times : List ℕ) {value : ℕ} {rest : List ℕ}
    → decode_bits bits weight times acc ≡ some (value, rest)
    → (byte : ℕ) × (byte < 2 ^ bits)
      × (value ≡ acc + weight * byte)
      × HearsBits bits byte times rest
unfolding decode_bits
decode_bits_sound zero weight acc times h = (0, omega arith, ground arith, ground arith)
decode_bits_sound (suc bits) weight acc [] h = cc
decode_bits_sound (suc bits) weight acc (p ∷ []) h = cc
decode_bits_sound (suc bits) weight acc (p ∷ s ∷ times) {value} {rest} h =
    elim (Option-cases (decode_bit p s)) [
      | inl e ↦ absurd (ground arith)
      | inr (bit, e) ↦
          let (hb, hp, hs) = decode_bit_sound p s e in
          let (byte, small, v, heard) =
            decode_bits_sound bits (2 * weight) (acc + weight * bit) times {value = value}
              {rest = rest} (ground arith) in
          (
            bit + 2 * byte,
            omega (arith, pow-suc 2 bits),
            omega arith,
            (hp, ground arith, rw (shift-out bit byte hb) heard),
          )
    ]

-- The bytes that are decoded, and the times that follow them.
abbrev pub Decoded : ℕ → List ℕ → List ℕ → Type 0
Decoded rounds times bytes =
    (length bytes ≡ rounds) × ((rest : List ℕ) × HearsBytes bytes times rest)

pub decode_bytes_sound :
    (rounds : ℕ) (times : List ℕ) {bytes : List ℕ}
    → decode_bytes rounds times ≡ some bytes
    → Decoded rounds times bytes
unfolding decode_bytes
decode_bytes_sound zero times {bytes} h =
    let same : [] ≡ bytes = ground arith in subst (Decoded zero times) same (refl, (times, refl))
decode_bytes_sound (suc rounds) times {bytes} h = elim (Option-cases (decode_bits 8 1 times 0)) [
  | inl e ↦ absurd (ground arith)
  | inr ((value, mid), e) ↦ elim (Option-cases (decode_bytes rounds mid)) [
    | inl e' ↦ absurd (ground arith)
    | inr (tail, e') ↦
        let (byte, small, v, heard) =
          decode_bits_sound 8 1 0 times {value = value} {rest = mid} e in
        let (len, (rest, hs)) = decode_bytes_sound rounds mid {bytes = tail} e' in
        let same : (byte ∷ tail) ≡ bytes = ground arith in
        subst (Decoded (suc rounds) times) same (ap suc len, (rest, (mid, omega arith, heard, hs)))
  ]
]

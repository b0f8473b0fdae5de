-- ===== src/Nec/Fields.antt =====
-- The address and the command of a standard packet, from the bytes that carry them.
use Prim.Native.Nat.{bit_xor}
use factory_test.Common.{
  ℕ, zero, suc, ◌+◌, ◌-◌, ◌*◌, ◌<◌, ◌≡◌, refl, Bool, true, some, false, arith, ◌==◌, ==_iff,
  if◌then◌else◌, Bool-cases, inl, inr,
}
use factory_test.Nec.{
  u8, complement, nec, make_nec_command, make_standard_nec_bytes, parse_nec_bytes, protocol_of,
}

-- A byte and its complement differ in every bit: the bytes under a bound are looked at one by one.
module _ (test : ℕ → Bool) where
  each_under : ℕ → Bool
  each_under zero = true
  each_under (suc bound) = if test bound then each_under bound else false

  each_under-at : (byte bound : ℕ) → byte < bound → each_under bound ≡ true → test byte ≡ true
  unfolding each_under
  each_under-at byte zero less all = absurd (omega arith)
  each_under-at byte (suc bound) less all = elim (Bool-cases (test bound)) [
    | inl here ↦ ground (arith, each_under-at byte bound)
    | inr fails ↦ absurd (let bad : false ≡ true = rw (fails, each_under) at all in cc)
  ]

abbrev differs_everywhere : ℕ → Bool
differs_everywhere byte = u8 (bit_xor byte (complement byte)) == 255

bytes-differ : each_under differs_everywhere 256 ≡ true
unfolding each_under
bytes-differ = refl

bit_xor-complement : (x : ℕ) → x < 256 → u8 (bit_xor x (complement x)) ≡ 255
bit_xor-complement x small =
    (==_iff _ 255).0 (each_under-at differs_everywhere x 256 small bytes-differ)

-- The bytes of a standard packet of an address and a command below 256 are parsed as protocol NEC:
-- the second and the fourth byte are the complements of the others, and the low bytes of the address
-- and the command are the two that were packed.
pub parse-make_standard_nec_bytes :
    (address command : ℕ)
    → address < 256
    → command < 256
    → parse_nec_bytes (make_standard_nec_bytes address command)
      ≡ some (record {
        address = address + 256 * (255 - address);
        command = make_nec_command command;
        protocol = nec;
      })
unfolding make_standard_nec_bytes parse_nec_bytes make_nec_command protocol_of
parse-make_standard_nec_bytes address command a c = ground (arith, bit_xor-complement address a)

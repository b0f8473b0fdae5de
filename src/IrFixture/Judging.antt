-- ===== src/IrFixture/Judging.antt =====
-- src/model/ir_fixture_test_model.cpp: the replies in what the receiver reports, and the judgement of one.
use factory_test.Common.{
  Bool, true, false, ◌&&◌, ◌==◌, ==_iff, Bool-cases, ◌⊎◌, inl, inr, ℕ, zero, suc, ◌+◌, String,
  str_eq, str_eq_iff, List, [], ◌∷◌, map, All, if◌then◌else◌, ◌≡◌, refl, ap, arith,
}
use factory_test.Nec.Receiving.{IrReceiveSnapshot}
use factory_test.IrFixture.Types.{IrFixtureSnapshot, IrRig, expected_fixture_command}
use factory_test.IrFixture.Steps.{
  rx_item, Model, fail, hex_word, reply_text, message_or, replied, judge, refused, counted,
}

abbrev pub is_reply : IrReceiveSnapshot → Bool
is_reply received = received.data_changed && received.address_matched

abbrev pub replies : List IrReceiveSnapshot → List IrReceiveSnapshot
replies [] = []
replies (received ∷ log) =
    let rest = replies log in if is_reply received then received ∷ rest else rest

-- The commands that are expected from a number on.
abbrev pub expected_from : ℕ → ℕ → List ℕ
expected_from count zero = []
expected_from count (suc n) = expected_fixture_command count ∷ expected_from (count + 1) n

abbrev pub IsNec32 : IrReceiveSnapshot → Type 0
IsNec32 received = received.protocol ≡ "NEC32"

-- From one number of verified replies to another: the replies of the log are the expected ones.
abbrev pub Verified : ℕ → List IrReceiveSnapshot → ℕ → Type 0
Verified count log n =
    (k : ℕ) × (n ≡ count + k)
    × (map (λ s. s.command) (replies log) ≡ expected_from count k)
    × All IsNec32 (replies log)

pub passed_over :
    (count n : ℕ) (received : IrReceiveSnapshot) (log : List IrReceiveSnapshot)
    → is_reply received ≡ false
    → Verified count log n
    → Verified count (received ∷ log) n
passed_over count n received log e (k, sum, commands, protocols) =
    (k, sum, rw e commands, rw e protocols)

pub verified :
    (count n : ℕ) (received : IrReceiveSnapshot) (log : List IrReceiveSnapshot)
    → is_reply received ≡ true
    → received.command ≡ expected_fixture_command count
    → IsNec32 received
    → Verified (count + 1) log n
    → Verified count (received ∷ log) n
verified count n received log e same protocol (k, sum, commands, protocols) = (
  suc k,
  omega (arith, sum),
  rw (e, same) (ap (λ cs. expected_fixture_command count ∷ cs) commands),
  rw e (protocol, protocols),
)

module _ (r : IrRig) where
  pub judge-cases :
      (received : IrReceiveSnapshot) (count : ℕ) (m : Model r)
      → ((judge r received count m ≡ counted count m) × (is_reply received ≡ false))
        ⊎ (((snapshot : IrFixtureSnapshot) × (judge r received count m
                ≡ counted (count + 1) (snapshot, m.1))
              × (is_reply received ≡ true)
              × (received.command ≡ expected_fixture_command count)
              × IsNec32 received)
            ⊎ ((message : String) × (judge r received count m
                  ≡ refused (fail r rx_item message m))))
  unfolding judge
  judge-cases received count m = elim (Bool-cases (is_reply received)) [
    | inr e ↦ inl (rw (e, judge) refl, e)
    | inl e ↦ elim (Bool-cases (str_eq received.protocol "NEC32")) [
      | inr f ↦ inr (
          inr (
            reply_text r count "NEC32" (message_or r received.protocol "unknown protocol"),
            rw (e, f, judge) refl,
          ))
      | inl f ↦ elim (Bool-cases (received.command == expected_fixture_command count)) [
        | inr g ↦ inr (
            inr (
              reply_text r count (hex_word (expected_fixture_command count))
                  (hex_word received.command),
              rw (e, f, g, judge) refl,
            ))
        | inl g ↦ inr (
            inl (
              replied r (count + 1) m.0,
              rw (e, f, g, judge) refl,
              e,
              (==_iff received.command (expected_fixture_command count)).0 g,
              (str_eq_iff received.protocol "NEC32").0 f,
            ))
      ]
    ]
  ]

-- ===== src/CapFixture/Run/Cleanup.antt =====
-- src/model/cap_fixture_test_model.cpp: cleanup_, which runs at every end of a run.
use factory_test.Common.{◌≡◌, refl, Bool, true, false, String, Option, none, some}
use factory_test.CapFixture.Types.{CapFixtureRunState, CapFixtureSnapshot, CapFixtureTestModel, Rig}
use factory_test.CapFixture.Stage.{Machine, Stage, ◌>>=◌, ◌>>◌, done, branch, publish, the_model}
use factory_test.CapFixture.Outcomes.{Condition, After, Ends, Ends-then, ends_rules}
use factory_test.CapFixture.Moved.{Ends-delay, Ends-select_host_pin_function}
use factory_test.CapFixture.Serial.{Ends-close_uart}
use factory_test.CapFixture.Uart.{close_uart}
use factory_test.CapFixture.Run.{
  ignored, recover_grove_i2c, recover_grove_uart, release_lines, cleanup, sequence, finish_run,
  after_reset, run, start,
}

After-ignored :
    (P : Condition) {A : Type 0} (o : Option A) (m : CapFixtureTestModel) → After P P o m → P m
unfolding After
After-ignored P none m h = h
After-ignored P (some _) m h = h

-- The step never ends without a result.
Ends-ignored :
    {r : Rig} {P E : Condition} {A : Type 0} {s : Stage r A}
    → Ends r P P P s
    → Ends r P P E (ignored r s)
unfolding ignored After
Ends-ignored {P} {s} ends = record {
  at = λ m h. After-ignored P (s m).0 (s m).1.model (ends.at m h);
}

kept : (P : Condition) (m : CapFixtureTestModel) → P m → P m
kept P m h = h

ruleset cleanup_rules =
    (ends_rules, Ends-ignored, Ends-delay, kept, Ends-close_uart, Ends-select_host_pin_function)

-- The snapshot is `s`.
abbrev pub Shown : CapFixtureSnapshot → Condition
Shown s m = m.snapshot ≡ s

module _ {r : Rig} {s : CapFixtureSnapshot} where
  Ends-recover_grove_i2c : Ends r (Shown s) (Shown s) (Shown s) (recover_grove_i2c r)
  unfolding recover_grove_i2c
  Ends-recover_grove_i2c = search cleanup_rules depth 60

  Ends-recover_grove_uart : Ends r (Shown s) (Shown s) (Shown s) (recover_grove_uart r)
  unfolding recover_grove_uart
  Ends-recover_grove_uart = search cleanup_rules depth 60

  Ends-cleanup : Ends r (Shown s) (Shown s) (Shown s) (cleanup r)
  unfolding cleanup release_lines
  Ends-cleanup = search (cleanup_rules, Ends-recover_grove_i2c, Ends-recover_grove_uart) depth 120

-- The cleanup does not change what the run shows.
pub cleanup-snapshot : {r : Rig} (m : Machine r) → (cleanup r m).1.model.snapshot ≡ m.model.snapshot
cleanup-snapshot {r} m =
    After-ignored (Shown m.model.snapshot) (cleanup r m).0 (cleanup r m).1.model
      (Ends-cleanup.at m refl)

abbrev Any : Condition
Any m = Unit {0}

abbrev Cleared : (CapFixtureTestModel → Bool) → Condition
Cleared flag m = flag m ≡ false

-- A recovery that clears a flag if it is set.
module _ {r : Rig} {s : Stage r (Unit {0})} (flag : CapFixtureTestModel → Bool) where
  After-recovery :
      (b : Bool) (m : Machine r)
      → flag m.model ≡ b
      → Ends r Any (Cleared flag) (Cleared flag) s
      → After
          (Cleared flag)
          (Cleared flag)
          (branch b s (done tt) m).0
          (branch b s (done tt) m).1.model
  unfolding After branch done
  After-recovery true m e clears = clears.at m tt
  After-recovery false m e clears = e

  Ends-recovery :
      Ends r Any (Cleared flag) (Cleared flag) s
      → Ends r Any (Cleared flag) (Cleared flag) (the_model r >>= λ m. branch (flag m) s (done tt))
  unfolding ◌>>=◌ the_model
  Ends-recovery clears = record { at = λ m h. After-recovery (flag m.model) m refl clears }

abbrev i2c_flag : CapFixtureTestModel → Bool
i2c_flag m = m.cap_grove_i2c_active

abbrev uart_flag : CapFixtureTestModel → Bool
uart_flag m = m.cap_grove_uart_active

abbrev session_flag : CapFixtureTestModel → Bool
session_flag m = m.uart_session

i2c_cleared :
    (m : CapFixtureTestModel) → Any m → Cleared i2c_flag (record m { cap_grove_i2c_active = false })
i2c_cleared m h = refl

uart_cleared :
    (m : CapFixtureTestModel)
    → Any m
    → Cleared uart_flag (record m { cap_grove_uart_active = false })
uart_cleared m h = refl

module _ {r : Rig} where
  Ends-recover_grove_i2c-cleared :
      Ends r Any (Cleared i2c_flag) (Cleared i2c_flag) (recover_grove_i2c r)
  unfolding recover_grove_i2c
  Ends-recover_grove_i2c-cleared =
      Ends-recovery i2c_flag (search (cleanup_rules, i2c_cleared) depth 60)

  Ends-recover_grove_uart-cleared :
      Ends r Any (Cleared uart_flag) (Cleared uart_flag) (recover_grove_uart r)
  unfolding recover_grove_uart
  Ends-recover_grove_uart-cleared =
      Ends-recovery uart_flag (search (cleanup_rules, uart_cleared) depth 60)

  i2c_still : Ends r (Cleared i2c_flag) (Cleared i2c_flag) (Cleared i2c_flag) (recover_grove_uart r)
  unfolding recover_grove_uart
  i2c_still = search cleanup_rules depth 60

  any_still : {E : Condition} → Ends r Any Any E (recover_grove_i2c r)
  unfolding recover_grove_i2c
  any_still = search cleanup_rules depth 60

  close-session : Ends r Any (Cleared session_flag) (Cleared session_flag) (close_uart r)
  unfolding close_uart After
  close-session = record { at = λ m h. refl }

  recover_uart_first :
      {t : Stage r (Unit {0})}
      → Ends r (Cleared uart_flag) (Cleared uart_flag) (Cleared uart_flag) t
      → Ends r Any (Cleared uart_flag) (Cleared uart_flag) (recover_grove_uart r >> t)
  unfolding ◌>>◌
  recover_uart_first rest = Ends-then Ends-recover_grove_uart-cleared (λ _. rest)

  any_uart_still : {E : Condition} → Ends r Any Any E (recover_grove_uart r)
  unfolding recover_grove_uart
  any_uart_still = search cleanup_rules depth 60

  cleanup-i2c : Ends r Any (Cleared i2c_flag) (Cleared i2c_flag) (cleanup r)
  unfolding cleanup release_lines ◌>>◌
  cleanup-i2c =
      Ends-then Ends-recover_grove_i2c-cleared
        (λ _. search (cleanup_rules, i2c_still) depth 120 fits 20000)

  cleanup-uart : Ends r Any (Cleared uart_flag) (Cleared uart_flag) (cleanup r)
  unfolding cleanup release_lines
  cleanup-uart = search (cleanup_rules, any_still, recover_uart_first) depth 120 fits 20000

  cleanup-session : Ends r Any (Cleared session_flag) (Cleared session_flag) (cleanup r)
  unfolding cleanup release_lines
  cleanup-session =
      search (cleanup_rules, any_still, any_uart_still, close-session) depth 120 fits 20000

-- What the cleanup brings about and no change of the snapshot undoes holds after every run.
module _ {r : Rig} {Q : Condition} (cleans : Ends r Any Q Q (cleanup r))
    (shown : (s : CapFixtureSnapshot) (m : CapFixtureTestModel)
      → Q m
      → Q (record m { snapshot = s })) where
  Ends-publish :
      (state : CapFixtureRunState) (headline : String) → Ends r Q Q Q (publish r state headline)
  unfolding publish After
  Ends-publish state headline = record { at = λ m h. shown _ m.model h }

  Ends-finish_run : (o : Option (Unit {0})) → Ends r Q Q Q (finish_run r o)
  unfolding finish_run
  Ends-finish_run o = search (ends_rules, Ends-publish) depth 60

  after_reset-clean : (o : Option (Unit {0})) (m : Machine r) → Q (after_reset r o m).model
  unfolding after_reset
  after_reset-clean none m = After-ignored Q (cleanup r m).0 (cleanup r m).1.model (cleans.at m tt)
  after_reset-clean (some _) m =
      let m' : Machine r = (sequence r m).1 in
      let cleaned = After-ignored Q (cleanup r m').0 (cleanup r m').1.model (cleans.at m' tt) in
      After-ignored Q (finish_run r (sequence r m).0 (cleanup r m').1).0
        (finish_run r (sequence r m).0 (cleanup r m').1).1.model
        ((Ends-finish_run (sequence r m).0).at (cleanup r m').1 cleaned)

-- However a run goes, after it the flags of the Grove I2C and the Grove UART channel are cleared, and
-- there is no UART session.
pub start-cleared :
    (r : Rig) (m : Machine r)
    → ((start r false m).model.cap_grove_i2c_active ≡ false)
      × ((start r false m).model.cap_grove_uart_active ≡ false)
      × ((start r false m).model.uart_session ≡ false)
unfolding start run
start-cleared r m = (
  after_reset-clean cleanup-i2c (λ s m h. h) _ _,
  after_reset-clean cleanup-uart (λ s m h. h) _ _,
  after_reset-clean cleanup-session (λ s m h. h) _ _,
)

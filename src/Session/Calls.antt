-- ===== src/Session/Calls.antt =====
-- The calls that a user makes on a session that is under way, and the changes that they can make.
use factory_test.Common.{
  true, false, String, List, [], ◌∷◌, length, Option, none, some, ◌≤◌, ◌≡◌, ◌⊎◌,
}
use factory_test.Host.{Host}
use factory_test.Session.Types.{
  TestResult, NamedTestResult, TestEvidence, TestRecord, SessionState, SessionManager, is_nil,
}
use factory_test.Session.Manager.{
  Reply, active, active_test, update_test, next_incomplete, abandon, set_current_test,
  attempt_begun, begin_test,
}
use factory_test.Session.Progress.{
  first_attempt, evidence_added, is_valid_evidence, record_evidence, test_completed, finalize,
  complete_test,
}

pub data Call (D : Type 0) : Type 0 where
  selects begins : String → Call D
  records : String → TestEvidence D → Call D
  completes : String → TestResult → List NamedTestResult → Call D
  finalizes abandons : Call D

module _ (h : Host) where
  open h use {World, Double}

  unfoldable pub apply : SessionManager Double → Call Double → World → Reply h
  apply m (selects test_id) w = set_current_test h m test_id w
  apply m (begins test_id) w = begin_test h m test_id w
  apply m (records test_id evidence) w = record_evidence h m test_id evidence w
  apply m (completes test_id result details) w = complete_test h m test_id result details w
  apply m finalizes w = finalize h m w
  apply m abandons w = abandon h m w

  -- The session and the world after a list of calls, whatever they reply.
  unfoldable pub run :
      SessionManager Double → List (Call Double) → World → SessionManager Double × World
  run m [] w = (m, w)
  run m (call ∷ calls) w = let r = apply m call w in run r.session calls r.world

  -- What a call can change of the state, the tests and the current test.
  pub data Change (m m' : SessionManager Double) : Type 0 where
    keep :
        m'.state ≡ m.state
        → m'.tests ≡ m.tests
        → m'.current_test_id ≡ m.current_test_id
        → Change m m'
    select :
        (test_id : String) (test : TestRecord Double)
        → active_test m test_id ≡ some test
        → m'.state ≡ m.state
        → m'.tests ≡ m.tests
        → m'.current_test_id ≡ test_id
        → Change m m'
    begin :
        (test_id time : String) (test : TestRecord Double)
        → active_test m test_id ≡ some test
        → test.completed ≡ false
        → m'.state ≡ m.state
        → m'.tests ≡ update_test test_id (attempt_begun h time) m.tests
        → m'.current_test_id ≡ test_id
        → Change m m'
    observe :
        (test_id : String) (evidence : TestEvidence Double) (test : TestRecord Double) (w : World)
        → active_test m test_id ≡ some test
        → test.completed ≡ false
        → is_nil evidence ≡ false
        → is_valid_evidence h evidence ≡ true
        → m'.state ≡ m.state
        → m'.tests
          ≡ update_test test_id
              (λ t. evidence_added h evidence ((first_attempt h test w).0 t))
              m.tests
        → m'.current_test_id ≡ m.current_test_id
        → Change m m'
    complete :
        (test_id time : String) (result : TestResult) (details : List NamedTestResult)
        (test : TestRecord Double)
        → active_test m test_id ≡ some test
        → m'.state ≡ m.state
        → m'.tests ≡ update_test test_id (test_completed time result details) m.tests
        → m'.current_test_id ≡ m.current_test_id
        → Change m m'
    finish :
        active m ≡ true
        → length m.tests ≤ next_incomplete m.tests
        → m'.state ≡ SessionState.completed
        → m'.tests ≡ m.tests
        → m'.current_test_id ≡ ""
        → Change m m'
    give_up :
        active m ≡ true
        → m'.state ≡ SessionState.abandoned
        → m'.tests ≡ m.tests
        → m'.current_test_id ≡ ""
        → Change m m'

  -- The call that makes a change; none for a call that keeps all three.
  unfoldable pub cause : {m m' : SessionManager Double} → Change m m' → Option (Call Double)
  cause (keep s t c) = none
  cause (select test_id test found s t c) = some (selects test_id)
  cause (begin test_id time test found fresh s t c) = some (begins test_id)
  cause (observe test_id evidence test w found fresh e v s t c) = some (records test_id evidence)
  cause (complete test_id time result details test found s t c) =
      some (completes test_id result details)
  cause (finish a all s t c) = some finalizes
  cause (give_up a s t c) = some abandons

  -- A change that the call makes: nothing, or what this call with these arguments is for.
  abbrev pub Makes : Call Double → SessionManager Double → SessionManager Double → Type 0
  Makes call m m' = (change : Change m m') × ((cause change ≡ none) ⊎ (cause change ≡ some call))

  pub data Changes (call : Call Double) (m m' : SessionManager Double) : Type 0 where
    once : Makes call m m' → Changes call m m'
    then_finishes :
        (test_id : String) (result : TestResult) (details : List NamedTestResult)
        (s : SessionManager Double)
        → call ≡ completes test_id result details
        → (change : Change m s) → cause change ≡ some call
        → Makes finalizes s m'
        → Changes call m m'

-- ===== src/Session/Histories.antt =====
-- What holds after any calls on a session.
use factory_test.Common.{List, [], ◌∷◌, ◌≡◌, refl, ◌∙◌}
use factory_test.Host.{Host, FileLaws}
use factory_test.Session.Types.{SessionManager}
use factory_test.Session.Calls.{Call, apply, run, Changes, once, then_finishes}
use factory_test.Session.Changes.{apply-Changes}
use factory_test.Session.Soundness.{IsSound, ids, Change-ids, Change-IsSound}

module _ (h : Host) (laws : FileLaws h) where
  open h use {World, Double}

  apply-IsSound :
      (m : SessionManager Double) (call : Call Double) (w : World)
      → IsSound m
      → IsSound (apply h m call w).session
  apply-IsSound m call w sound = through (apply-Changes h laws m call w)
    where
      through : Changes h call m (apply h m call w).session → IsSound (apply h m call w).session
      through (once (c, _)) = Change-IsSound h c sound
      through (then_finishes _ _ _ s _ c _ (d, _)) = Change-IsSound h d (Change-IsSound h c sound)

  -- A sound session stays sound, whatever is called and whichever calls fail, with FileLaws: a
  -- completed session has every test completed, the current test is one of an active session, and no
  -- test has a result before it is completed or evidence before it is attempted.
  pub run-IsSound :
      (m : SessionManager Double) (calls : List (Call Double)) (w : World)
      → IsSound m
      → IsSound (run h m calls w).0
  unfolding run
  run-IsSound m [] w sound = sound
  run-IsSound m (call ∷ calls) w sound =
      let r = apply h m call w in run-IsSound r.session calls r.world (apply-IsSound m call w sound)

  apply-ids :
      (m : SessionManager Double) (call : Call Double) (w : World)
      → ids (apply h m call w).session.tests ≡ ids m.tests
  apply-ids m call w = through (apply-Changes h laws m call w)
    where
      through :
          Changes h call m (apply h m call w).session
          → ids (apply h m call w).session.tests ≡ ids m.tests
      through (once (c, _)) = Change-ids h c
      through (then_finishes _ _ _ s _ c _ (d, _)) = Change-ids h d ∙ Change-ids h c

  -- With FileLaws no list of calls changes which tests there are, or their order.
  pub run-ids :
      (m : SessionManager Double) (calls : List (Call Double)) (w : World)
      → ids (run h m calls w).0.tests ≡ ids m.tests
  unfolding run
  run-ids m [] w = refl
  run-ids m (call ∷ calls) w =
      let r = apply h m call w in run-ids r.session calls r.world ∙ apply-ids m call w

-- ===== src/Session/Finish.antt =====
-- The end of a sequence: what finalize leaves in the session file and in the result file.
use factory_test.Common.{
  Bool, true, false, length, ◌≤◌, some, ◌≡◌, ◌≢◌, sym, ap, ◌∙◌, ◌⊎◌, inl, inr, String,
  if◌then◌else◌,
}
use factory_test.Host.{Host, FileLaws}
use factory_test.Files.{temporary}
use factory_test.Session.Types.{SessionManager}
use factory_test.Session.Document.{build_result_json, session_passed, summary}
use factory_test.Session.Manager.{
  reply, active, next_incomplete_index, persist, write_result, or_restore,
}
use factory_test.Session.Progress.{finalize}
use factory_test.Session.Saving.{
  or_restore_done, or_restore_failed, persist-Outcome, persist-others,
}
use factory_test.Session.Effects.{Undone}
use factory_test.Session.Endings.{
  SessionApart, Finalized, Refused-Undone, ResultOutcome, write_result-Outcome, finished, unfinish,
  finalize_writes, finalize-EndOrRefused,
}

module _ {D : Type 0} where
  -- The result file is neither the session file nor its temporary.
  abbrev pub PathsApart : SessionManager D → Type 0
  PathsApart m = (m.result_path ≢ m.session_path) × (m.result_path ≢ temporary m.session_path)

module _ (h : Host) (laws : FileLaws h) where
  open h use {World, Double}

  -- finalize on an active session with every test completed, with FileLaws and a session file that
  -- is neither the result file nor its temporary: either it succeeds and the session is completed and
  -- saved, or it fails and the session, but for its last error, and the session file are as before.
  -- The result file may have been rewritten in both cases.
  pub finalize-End :
      (m : SessionManager Double) (w : World)
      → SessionApart m
      → active m ≡ true
      → length m.tests ≤ next_incomplete_index m
      → Finalized h m (finalize h m w) ⊎ Undone h m w (finalize h m w)
  finalize-End m w apart a all = elim (finalize-EndOrRefused h laws m w a all) [
    | inl o ↦ inl o
    | inr o ↦ inr (Refused-Undone h m w (finalize h m w) apart o)
  ]

  -- A session that is saved as completed has the result in its result file.
  save_finished-result :
      (m : SessionManager Double) (time : String) (w : World)
      → PathsApart m
      → h.contents w m.result_path ≡ some (build_result_json h (finished h laws m time) true)
      → let r = or_restore h (persist h (finished h laws m time) w) (unfinish h laws m) in
        r.success ≡ true
        → h.contents r.world m.result_path ≡ some (build_result_json h r.session true)
  unfolding build_result_json session_passed summary
  save_finished-result m time w (a, b) text success =
      elim (persist-Outcome h laws (finished h laws m time) w) [
        | inl o ↦
            rw
              (or_restore_done h (persist h (finished h laws m time) w) (unfinish h laws m)
                o.succeeded)
              (persist-others h laws (finished h laws m time) w m.result_path a b
                ∙ text
                ∙ ap (λ s. some (build_result_json h s true)) (sym o.session))
        | inr o ↦ absurd (
            let bad : false ≡ true =
              sym (
                ap (λ r. r.success)
                  (or_restore_failed h (persist h (finished h laws m time) w) (unfinish h laws m)
                    o.failed))
              ∙ success in
            cc)
      ]

  after_result-result :
      (m : SessionManager Double) (time : String) (b : Bool) (s : SessionManager Double) (w : World)
      → PathsApart m
      → ResultOutcome h laws (finished h laws m time) (reply h b s w)
      → let r = or_restore h (if b then persist h s w else reply h b s w) (unfinish h laws m) in
        r.success ≡ true
        → h.contents r.world m.result_path ≡ some (build_result_json h r.session true)
  unfolding or_restore
  after_result-result m time true s w apart (inl (done, same, text)) success =
      rw same (save_finished-result m time w apart text (rw same at success))
  after_result-result m time true s w apart (inr (error, failed, same)) success = absurd (cc)
  after_result-result m time false s w apart o success = absurd (cc)

  -- With FileLaws a finalize of an active session with every test completed that succeeds leaves the protocol result of the session in the result file, if that is
  -- neither the session file nor its temporary.
  pub finalize-result :
      (m : SessionManager Double) (w : World)
      → PathsApart m
      → active m ≡ true
      → length m.tests ≤ next_incomplete_index m
      → (finalize h m w).success ≡ true
      → h.contents (finalize h m w).world m.result_path
        ≡ some (build_result_json h (finalize h m w).session true)
  finalize-result m w apart a all success =
      let time = h.iso_timestamp (h.now w).0 in
      let r = write_result h (finished h laws m time) (h.now w).1 in
      rw (finalize_writes h laws m w a all) (
        after_result-result m time r.success r.session r.world apart
          (write_result-Outcome h laws (finished h laws m time) (h.now w).1)
          (ap (λ r. r.success) (sym (finalize_writes h laws m w a all)) ∙ success))

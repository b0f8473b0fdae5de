-- ===== src/Session/Endings.antt =====
-- finalize step by step: what its two writes leave when they succeed and when they fail.
use factory_test.Common.{
  Bool, true, false, ℕ, String, is_empty, length, ltb, ◌≤◌, some, ◌≡◌, ◌≢◌, refl, ap, ◌∙◌, ◌⊎◌, inl,
  inr, Bool-cases, if◌then◌else◌, arith,
}
use factory_test.Host.{Host, FileLaws}
use factory_test.Files.{Result, ok, err, temporary, write_text_file_atomic}
use factory_test.Files.Atomic.{write_text_file_atomic-ok, write_text_file_atomic-others}
use factory_test.Session.Types.{SessionState, SessionManager, is_completed, is_in_progress}
use factory_test.Session.Document.{build_result_json}
use factory_test.Session.Manager.{
  Reply, reply, set_error, active, next_incomplete_index, persist, write_result, result_written,
  or_restore,
}
use factory_test.Session.Progress.{write_both, finalize}
use factory_test.Session.Saving.{IsSaved, or_restore_done, or_restore_failed, persist-Outcome}
use factory_test.Session.Effects.{Undone}

in_progress-not-completed : (s : SessionState) → is_in_progress s ≡ true → is_completed s ≡ false
in_progress-not-completed SessionState.none e = refl
in_progress-not-completed SessionState.in_progress e = refl
in_progress-not-completed SessionState.completed e = cc
in_progress-not-completed SessionState.abandoned e = refl

not-ltb_of_le : {a b : ℕ} → b ≤ a → ltb a b ≡ false
not-ltb_of_le h = ground arith

module _ {D : Type 0} where
  -- The session file is neither the result file nor its temporary.
  abbrev pub SessionApart : SessionManager D → Type 0
  SessionApart m = (m.session_path ≢ m.result_path) × (m.session_path ≢ temporary m.result_path)

module _ (h : Host) where
  open h use {World, Double}

  -- The session is completed and its file is written.
  pub record Finalized (m : SessionManager Double) (r : Reply h) : Type 0 where
    pub time : String
    pub update : String
    pub succeeded : r.success ≡ true
    pub session : r.session ≡ record m {
      state = SessionState.completed;
      completed_at = time;
      updated_at = update;
      current_test_id = "";
      last_error = "";
    }
    pub saved : IsSaved h r.session r.world

  -- The session is as before but for its last error, and so is its file if the result is written
  -- elsewhere.
  pub record Refused (m : SessionManager Double) (before : World) (r : Reply h) : Type 0 where
    pub error : String
    pub failed : r.success ≡ false
    pub session : r.session ≡ set_error m error
    pub kept : SessionApart m → h.contents r.world m.session_path ≡ h.contents before m.session_path

  abbrev pub EndOrRefused : SessionManager Double → World → Reply h → Type 0
  EndOrRefused m before r = Finalized m r ⊎ Refused m before r

  pub Refused-Undone :
      (m : SessionManager Double) (before : World) (r : Reply h)
      → SessionApart m
      → Refused m before r
      → Undone h m before r
  Refused-Undone m before r apart o = record {
    error = o.error;
    failed = o.failed;
    session = o.session;
    kept = o.kept apart;
  }

module _ (h : Host) (laws : FileLaws h) where
  open h use {World, Double}

  -- write_result_ leaves the session alone and puts the text in the result file, or sets an error.
  abbrev pub ResultOutcome : SessionManager Double → Reply h → Type 0
  ResultOutcome m r =
      ((r.success ≡ true)
        × (r.session ≡ m)
        × (h.contents r.world m.result_path ≡ some (build_result_json h m true)))
      ⊎ ((error : String) × (r.success ≡ false) × (r.session ≡ set_error m error))

  result_written-Outcome :
      (m : SessionManager Double) (r : Result (Unit {0}) × World)
      → (r.0 ≡ ok tt → h.contents r.1 m.result_path ≡ some (build_result_json h m true))
      → ResultOutcome m (result_written h m r)
  result_written-Outcome m (ok a, w) good = inl (refl, refl, good refl)
  result_written-Outcome m (err message, w) good = inr (message, refl, refl)

  pub write_result-Outcome :
      (m : SessionManager Double) (w : World) → ResultOutcome m (write_result h m w)
  unfolding write_result
  write_result-Outcome m w = elim (Bool-cases (is_empty (build_result_json h m true))) [
    | inl e ↦ rw (e, write_result) (inr ("failed to build protocol result JSON", refl, refl))
    | inr e ↦
        rw (e, write_result)
          (result_written-Outcome m
            (write_text_file_atomic h m.result_path (build_result_json h m true) w)
            (write_text_file_atomic-ok h laws m.result_path (build_result_json h m true) w))
  ]

  -- write_result_ touches the result file and its temporary only.
  result_written-others :
      (m : SessionManager Double) (before : World) (p : String) (r : Result (Unit {0}) × World)
      → h.contents r.1 p ≡ h.contents before p
      → h.contents (result_written h m r).world p ≡ h.contents before p
  result_written-others m before p (ok a, w) k = k
  result_written-others m before p (err message, w) k = k

  write_result-others :
      (m : SessionManager Double) (w : World) (p : String)
      → p ≢ m.result_path
      → p ≢ temporary m.result_path
      → h.contents (write_result h m w).world p ≡ h.contents w p
  unfolding write_result
  write_result-others m w p a b = elim (Bool-cases (is_empty (build_result_json h m true))) [
    | inl e ↦ rw (e, write_result)
    | inr e ↦
        rw (e, write_result)
          (result_written-others m w p
            (write_text_file_atomic h m.result_path (build_result_json h m true) w)
            (write_text_file_atomic-others h laws m.result_path (build_result_json h m true) p a b
              w))
  ]

  abbrev pub finished : SessionManager Double → String → SessionManager Double
  finished m time = record m {
    state = SessionState.completed;
    completed_at = time;
    updated_at = time;
    current_test_id = "";
  }

  abbrev pub unfinish : SessionManager Double → SessionManager Double → SessionManager Double
  unfinish m m' = record m' {
    state = m.state;
    completed_at = m.completed_at;
    updated_at = m.updated_at;
    current_test_id = m.current_test_id;
  }

  abbrev KeptSoFar : SessionManager Double → World → World → Type 0
  KeptSoFar m before w =
      SessionApart m → h.contents w m.session_path ≡ h.contents before m.session_path

  -- The second write, and the restoring if it fails.
  save_finished :
      (m : SessionManager Double) (time : String) (before w : World)
      → KeptSoFar m before w
      → EndOrRefused h m before (or_restore h (persist h (finished m time) w) (unfinish m))
  save_finished m time before w k = elim (persist-Outcome h laws (finished m time) w) [
    | inl o ↦ rw (or_restore_done h (persist h (finished m time) w) (unfinish m) o.succeeded) (
        inl (record {
          time = time;
          update = o.time;
          succeeded = o.succeeded;
          session = o.session;
          saved = o.saved;
        }))
    | inr o ↦ rw (or_restore_failed h (persist h (finished m time) w) (unfinish m) o.failed) (
        inr (record {
          error = o.error;
          failed = refl;
          session = ap (unfinish m) o.session;
          kept = λ apart. o.kept ∙ k apart;
        }))
  ]

  -- The first write by its result, its session and the world after it.
  after_result :
      (m : SessionManager Double) (time : String) (before : World) (b : Bool)
      (s : SessionManager Double) (w : World)
      → KeptSoFar m before w
      → ResultOutcome (finished m time) (reply h b s w)
      → EndOrRefused h m before
          (or_restore h (if b then persist h s w else reply h b s w) (unfinish m))
  unfolding or_restore
  after_result m time before true s w k (inl (done, same, text)) =
      rw same (save_finished m time before w k)
  after_result m time before true s w k (inr (error, failed, same)) = absurd (cc)
  after_result m time before false s w k (inl (done, same, text)) = absurd (cc)
  after_result m time before false s w k (inr (error, failed, same)) =
      inr (record { error = error; failed = refl; session = ap (unfinish m) same; kept = k })

  pub finalize_writes :
      (m : SessionManager Double) (w : World)
      → active m ≡ true
      → length m.tests ≤ next_incomplete_index m
      → finalize h m w
        ≡ or_restore h
            (write_both h (finished m (h.iso_timestamp (h.now w).0)) (h.now w).1)
            (unfinish m)
  unfolding finalize
  finalize_writes m w a all = simp (in_progress-not-completed m.state a, a, not-ltb_of_le all)

  -- finalize on an active session with every test completed, wherever the result is written.
  pub finalize-EndOrRefused :
      (m : SessionManager Double) (w : World)
      → active m ≡ true
      → length m.tests ≤ next_incomplete_index m
      → EndOrRefused h m w (finalize h m w)
  finalize-EndOrRefused m w a all =
      let time = h.iso_timestamp (h.now w).0 in
      let r = write_result h (finished m time) (h.now w).1 in
      rw (finalize_writes m w a all) (
        after_result m time w r.success r.session r.world
          (λ (p, q).
            write_result-others (finished m time) (h.now w).1 m.session_path p q
            ∙ laws.now_contents w m.session_path)
          (write_result-Outcome (finished m time) (h.now w).1))

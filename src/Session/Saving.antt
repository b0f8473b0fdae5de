-- ===== src/Session/Saving.antt =====
-- What persist does to the session and to the session file.
use factory_test.Common.{
  true, false, if◌then◌else◌, String, is_empty, some, ◌≡◌, ◌≢◌, refl, ◌∙◌, ◌⊎◌, inl, inr,
  Bool-cases,
}
use factory_test.Host.{Host, FileLaws}
use factory_test.Files.{Result, ok, err, temporary, write_text_file_atomic}
use factory_test.Files.Atomic.{
  write_text_file_atomic-ok, write_text_file_atomic-error, write_text_file_atomic-others,
}
use factory_test.Session.Types.{SessionManager}
use factory_test.Session.Manager.{
  Reply, set_error, session_document, written, write_document, persist, reply, or_restore,
}

module _ (h : Host) where
  open h use {World, Double}

  -- The session file holds the document of the session.
  abbrev pub IsSaved : SessionManager Double → World → Type 0
  IsSaved m w =
      (text : String) × (session_document h m ≡ ok text) × (h.contents w m.session_path ≡ some text)

  -- A reply whose session is `m` but for its last error.
  abbrev pub OnlyError : SessionManager Double → Reply h → Type 0
  OnlyError m r = r.session ≡ set_error m r.session.last_error

  pub or_restore_done :
      (r : Reply h) (restore : SessionManager Double → SessionManager Double)
      → r.success ≡ true
      → or_restore h r restore ≡ r
  unfolding or_restore
  or_restore_done r restore e = simp e

  pub or_restore_failed :
      (r : Reply h) (restore : SessionManager Double → SessionManager Double)
      → r.success ≡ false
      → or_restore h r restore ≡ reply h false (restore r.session) r.world
  unfolding or_restore
  or_restore_failed r restore e = simp e

  pub record Saved (m : SessionManager Double) (r : Reply h) : Type 0 where
    pub time : String
    pub succeeded : r.success ≡ true
    pub session : r.session ≡ record m { last_error = ""; updated_at = time }
    pub saved : IsSaved r.session r.world

  -- The file is as it was in the world before.
  pub record NotSaved (m : SessionManager Double) (before : World) (r : Reply h) : Type 0 where
    pub error : String
    pub time : String
    pub failed : r.success ≡ false
    pub session : r.session ≡ record m { last_error = error; updated_at = time }
    pub kept : h.contents r.world m.session_path ≡ h.contents before m.session_path

  abbrev pub Outcome : SessionManager Double → World → Reply h → Type 0
  Outcome m before r = Saved m r ⊎ NotSaved m before r

module _ (h : Host) (laws : FileLaws h) where
  open h use {World, Double}

  written-Outcome :
      (m : SessionManager Double) (text : String) (before : World) (r : Result (Unit {0}) × World)
      → session_document h m ≡ ok text
      → (r.0 ≡ ok tt → h.contents r.1 m.session_path ≡ some text)
      → ((message : String)
          → r.0 ≡ err message
          → h.contents r.1 m.session_path ≡ h.contents before m.session_path)
      → Outcome h m before (written h m r)
  unfolding session_document
  written-Outcome m text before (ok a, w) d good bad = inl (record {
    time = m.updated_at;
    succeeded = refl;
    session = refl;
    saved = (text, d, good refl);
  })
  written-Outcome m text before (err message, w) d good bad = inr (record {
    error = if is_empty message then "failed to format session JSON" else message;
    time = m.updated_at;
    failed = refl;
    session = refl;
    kept = bad message refl;
  })

  write_document-Outcome :
      (m : SessionManager Double) (document : Result String) (w : World)
      → session_document h m ≡ document
      → Outcome h m w (write_document h m document w)
  write_document-Outcome m (err message) w d =
      inr (record {
        error = message;
        time = m.updated_at;
        failed = refl;
        session = refl;
        kept = refl;
      })
  write_document-Outcome m (ok text) w d = elim (Bool-cases (is_empty text)) [
    | inl e ↦
        rw (e, write_document)
          (inr (record {
            error = "failed to format session JSON";
            time = m.updated_at;
            failed = refl;
            session = refl;
            kept = refl;
          }))
    | inr e ↦
        rw (e, write_document)
          (written-Outcome m text w (write_text_file_atomic h m.session_path text w) d
            (write_text_file_atomic-ok h laws m.session_path text w)
            (write_text_file_atomic-error h laws m.session_path text w))
  ]

  -- The outcome for a session whose time was filled in, for the session before that.
  Outcome-touched :
      (m : SessionManager Double) (stamp : String) (before w : World) (r : Reply h)
      → h.contents w m.session_path ≡ h.contents before m.session_path
      → Outcome h (record m { updated_at = stamp }) w r
      → Outcome h m before r
  Outcome-touched m stamp before w r k (inl o) =
      inl (record { time = o.time; succeeded = o.succeeded; session = o.session; saved = o.saved })
  Outcome-touched m stamp before w r k (inr o) = inr (record {
    error = o.error;
    time = o.time;
    failed = o.failed;
    session = o.session;
    kept = o.kept ∙ k;
  })

  -- With FileLaws either the session is saved, with no error left, or the session file is as it was; in both cases
  -- nothing else of the session changes but the time of the update.
  pub persist-Outcome : (m : SessionManager Double) (w : World) → Outcome h m w (persist h m w)
  unfolding persist
  persist-Outcome m w = elim (Bool-cases (is_empty m.session_path)) [
    | inl e ↦
        rw (e, persist)
          (inr (record {
            error = "session path is empty";
            time = m.updated_at;
            failed = refl;
            session = refl;
            kept = refl;
          }))
    | inr e ↦ elim (Bool-cases (is_empty m.updated_at)) [
      | inl s ↦
          rw (e, s, persist)
            (Outcome-touched m (h.iso_timestamp (h.now w).0) w (h.now w).1 _
              (laws.now_contents w m.session_path) (write_document-Outcome _ _ (h.now w).1 refl))
      | inr s ↦ rw (e, s, persist) (write_document-Outcome m (session_document h m) w refl)
    ]
  ]

  written-others :
      (m : SessionManager Double) (before : World) (p : String) (r : Result (Unit {0}) × World)
      → h.contents r.1 p ≡ h.contents before p
      → h.contents (written h m r).world p ≡ h.contents before p
  written-others m before p (ok a, w) k = k
  written-others m before p (err message, w) k = k

  write_document-others :
      (m : SessionManager Double) (document : Result String) (w : World) (p : String)
      → p ≢ m.session_path
      → p ≢ temporary m.session_path
      → h.contents (write_document h m document w).world p ≡ h.contents w p
  write_document-others m (err message) w p a b = refl
  write_document-others m (ok text) w p a b = elim (Bool-cases (is_empty text)) [
    | inl e ↦ rw (e, write_document)
    | inr e ↦
        rw (e, write_document)
          (written-others m w p (write_text_file_atomic h m.session_path text w)
            (write_text_file_atomic-others h laws m.session_path text p a b w))
  ]

  abbrev stamped : SessionManager Double → World → SessionManager Double
  stamped m w = record m { updated_at = h.iso_timestamp (h.now w).0 }

  -- persist_ touches the session file and its temporary only.
  pub persist-others :
      (m : SessionManager Double) (w : World) (p : String)
      → p ≢ m.session_path
      → p ≢ temporary m.session_path
      → h.contents (persist h m w).world p ≡ h.contents w p
  unfolding persist
  persist-others m w p a b = elim (Bool-cases (is_empty m.session_path)) [
    | inl e ↦ rw (e, persist)
    | inr e ↦ elim (Bool-cases (is_empty m.updated_at)) [
      | inl s ↦
          rw (e, s, persist)
            (write_document-others (stamped m w) (session_document h (stamped m w)) (h.now w).1 p a
                b
              ∙ laws.now_contents w p)
      | inr s ↦ rw (e, s, persist) (write_document-others m (session_document h m) w p a b)
    ]
  ]

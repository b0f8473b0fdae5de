-- ===== src/Session/Reading.antt =====
-- What load_latest_recoverable resumes.
use mathlib.Core.List.{Mem, mem-cons_self, mem-cons_of_mem}
use factory_test.Common.{
  true, false, ℕ, ◌≤◌, String, is_empty, List, [], ◌∷◌, All, Option, none, some, ◌≡◌, refl, sym, ap,
  ◌∙◌, subst, ◌⊎◌, inl, inr, Bool-cases, Option-cases, arith,
}
use factory_test.Host.{Host, Entry}
use factory_test.Files.{Result, ok, err}
use factory_test.Session.Types.{TestDefinition, TestRecord, is_in_progress}
use factory_test.Session.Manager.{Reply, active}
use factory_test.Session.Start.{default_session_directory}
use factory_test.Session.Load.{LoadedSession, parse_session_document}
use factory_test.Session.Latest.{
  candidate, is_unreadable, newer, choose, latest_entry, adopt, adopt-ids, read_text_file, resumed,
  resume_tests, resume, resume_latest, load_latest_recoverable,
}
use factory_test.Session.Soundness.{ids}
use factory_test.Session.Plans.{plan_ids}

-- Every entry's file type can be read.
abbrev pub AllReadable : List Entry → Type 0
AllReadable = All (λ e. is_unreadable e.is_regular_file ≡ false)

-- No session file is newer.
abbrev pub NoneAfter : ℕ → List Entry → Type 0
NoneAfter time = All (λ e. (t : ℕ) → candidate e ≡ some t → t ≤ time)

abbrev Bounds : Option (Entry × ℕ) → ℕ → Type 0
Bounds none time = Unit
Bounds (some (_, t)) time = t ≤ time

-- What the loop has chosen: what it started from, or an entry of the list.
record Chosen (entries : List Entry) (before : Option (Entry × ℕ)) (entry : Entry) (time : ℕ)
    : Type 0 where
  source : (before ≡ some (entry, time)) ⊎ (Mem entry entries × (candidate entry ≡ some time))
  bounds : Bounds before time
  newest : NoneAfter time entries

-- The entry that the loop has just taken.
taken :
    (e entry : Entry) (entries : List Entry) (u time : ℕ)
    → ◌≡◌ {A = Option (Entry × ℕ)} (some (e, u)) (some (entry, time))
    → candidate e ≡ some u
    → (Mem entry (e ∷ entries) × (candidate entry ≡ some time)) × (u ≡ time)
taken e entry entries u time same f =
    let same_entry : e ≡ entry = cc in
    let same_time : u ≡ time = cc in
    (
      (
        subst (λ x. Mem x (e ∷ entries)) same_entry mem-cons_self,
        subst (λ x. candidate x ≡ some time) same_entry (f ∙ ap some same_time),
      ),
      same_time,
    )

module _ (e : Entry) (entries : List Entry) {entry : Entry} {time : ℕ} where
  kept :
      (before : Option (Entry × ℕ))
      → ((t : ℕ) → candidate e ≡ some t → t ≤ time)
      → Chosen entries before entry time
      → Chosen (e ∷ entries) before entry time
  kept before b c = record {
    source = elim c.source [ inl s ↦ inl s | inr (m, t) ↦ inr (mem-cons_of_mem e m, t) ];
    bounds = c.bounds;
    newest = (b, c.newest);
  }

  took :
      (before : Option (Entry × ℕ)) (u : ℕ)
      → candidate e ≡ some u
      → (u ≤ time → Bounds before time)
      → Chosen entries (some (e, u)) entry time
      → Chosen (e ∷ entries) before entry time
  took before u f bound c = record {
    source = elim c.source [
      | inl s ↦ inr (taken e entry entries u time s f).0
      | inr (m, t) ↦ inr (mem-cons_of_mem e m, t)
    ];
    bounds = bound c.bounds;
    newest = (
      λ t g.
          (let same : u ≡ t = (let eq : some u ≡ some t = sym f ∙ g in cc) in
            subst (λ x. x ≤ time) same c.bounds),
      c.newest,
    );
  }

  Chosen-next :
      (before : Option (Entry × ℕ)) (found : Option ℕ)
      → candidate e ≡ found
      → Chosen entries (choose e found before) entry time
      → Chosen (e ∷ entries) before entry time
  Chosen-next before none f c =
      kept before (λ t g. absurd (let bad : none ≡ some t = sym f ∙ g in cc)) c
  Chosen-next none (some u) f c = took none u f (λ _. tt) c
  Chosen-next (some (l, lt)) (some u) f c = elim (Bool-cases (newer u e (some (l, lt)))) [
    | inl later ↦ took (some (l, lt)) u f (λ b. ground (arith, later)) (simp later at c)
    | inr earlier ↦
        let before_c : Chosen entries (some (l, lt)) entry time = simp earlier at c in
        kept (some (l, lt))
          (λ t g.
            let eq : some u ≡ some t = sym f ∙ g in
            let same : u ≡ t = cc in
            let bound : lt ≤ time = before_c.bounds in ground (arith, earlier))
          before_c
  ]

latest_entry-Chosen :
    (entries : List Entry) (before : Option (Entry × ℕ)) {entry : Entry} {time : ℕ}
    → AllReadable entries
    → latest_entry entries false before ≡ some (entry, time)
    → Chosen entries before entry time
unfolding latest_entry
latest_entry-Chosen [] before {entry} {time} r e = record {
  source = inl e;
  bounds = subst (λ o. Bounds o time) (sym e) (omega arith);
  newest = tt;
}
latest_entry-Chosen (x ∷ entries) before {entry} {time} (readable, r) e =
    Chosen-next x entries before (candidate x) refl
      (latest_entry-Chosen entries (choose x (candidate x) before) r (simp readable at e))

from_list :
    {entries : List Entry} {entry : Entry} {time : ℕ}
    → (◌≡◌ {A = Option (Entry × ℕ)} none (some (entry, time)))
      ⊎ (Mem entry entries × (candidate entry ≡ some time))
    → Mem entry entries × (candidate entry ≡ some time)
from_list (inl s) = absurd (cc)
from_list (inr m) = m

module _ (h : Host) where
  open h use {World, Double}

  -- The session of the newest session file, in progress and on the tests that are expected.
  pub record IsResumed (expected : List TestDefinition) (w : World) (r : Reply h) : Type 0 where
    pub entry : Entry
    pub time : ℕ
    pub text : String
    pub loaded : LoadedSession Double
    pub tests : List (TestRecord Double)
    pub listed : Mem entry (h.entries w (default_session_directory h))
    pub timed : candidate entry ≡ some time
    pub newest : NoneAfter time (h.entries w (default_session_directory h))
    pub held : h.contents w entry.path ≡ some text
    pub parsed : parse_session_document h text ≡ ok loaded
    pub under_way : active r.session ≡ true
    pub planned : ids r.session.tests ≡ plan_ids expected
    pub session : r.session ≡ resumed h entry loaded tests

  -- The parts of IsResumed that come after the choice of the entry.
  record Resumption (expected : List TestDefinition) (w : World) (entry : Entry) (r : Reply h)
      : Type 0 where
    text : String
    loaded : LoadedSession Double
    tests : List (TestRecord Double)
    held : h.contents w entry.path ≡ some text
    parsed : parse_session_document h text ≡ ok loaded
    under_way : active r.session ≡ true
    planned : ids r.session.tests ≡ plan_ids expected
    session : r.session ≡ resumed h entry loaded tests

  resume_tests-Resumption :
      (expected : List TestDefinition) (entry : Entry) (w : World) (text : String)
      (loaded : LoadedSession Double) (found : Option (List (TestRecord Double)))
      → h.contents w entry.path ≡ some text
      → parse_session_document h text ≡ ok loaded
      → is_in_progress loaded.state ≡ true
      → adopt loaded.tests expected ≡ found
      → (resume_tests h entry w loaded found).success ≡ true
      → Resumption expected w entry (resume_tests h entry w loaded found)
  resume_tests-Resumption expected entry w text loaded none held parsed a f success = absurd (cc)
  resume_tests-Resumption expected entry w text loaded (some tests) held parsed a f success =
      record {
        text = text;
        loaded = loaded;
        tests = tests;
        held = held;
        parsed = parsed;
        under_way = a;
        planned = adopt-ids loaded.tests expected {adopted = tests} f;
        session = refl;
      }

  resume-Resumption :
      (expected : List TestDefinition) (entry : Entry) (w : World) (text : String)
      (result : Result (LoadedSession Double))
      → h.contents w entry.path ≡ some text
      → parse_session_document h text ≡ result
      → (resume h expected entry w result).success ≡ true
      → Resumption expected w entry (resume h expected entry w result)
  resume-Resumption expected entry w text (err message) held parsed success = absurd (cc)
  resume-Resumption expected entry w text (ok loaded) held parsed success =
      elim (Bool-cases (is_in_progress loaded.state)) [
        | inr e ↦ absurd (let bad : false ≡ true = simp e at success in cc)
        | inl e ↦ simp e (
            resume_tests-Resumption expected entry w text loaded (adopt loaded.tests expected) held
              parsed e refl (simp e at success))
      ]

  resume_latest-Resumption :
      (expected : List TestDefinition) (entry : Entry) (time : ℕ) (w : World)
      → (resume_latest h expected w (some (entry, time))).success ≡ true
      → Resumption expected w entry (resume_latest h expected w (some (entry, time)))
  resume_latest-Resumption expected entry time w success =
      elim (Option-cases (h.contents w entry.path)) [
        | inl nothing ↦
            absurd (
              let bad : false ≡ true = rw (nothing, resume_latest, read_text_file) at success in cc)
        | inr (text, held) ↦ elim (Bool-cases (is_empty text)) [
          | inl e ↦ absurd (
              let bad : false ≡ true = rw (held, e, resume_latest, read_text_file) at success in cc)
          | inr e ↦
              rw (held, e, resume_latest, read_text_file)
                (resume-Resumption expected entry w text (parse_session_document h text) held refl
                  (rw (held, e, resume_latest, read_text_file) at success))
        ]
      ]

  -- If every entry's file type can be read, a load that succeeds resumes the newest session file: no
  -- session file has a later write time, the file's text is a document of a session in progress, and
  -- the tests of the session have the ids of those expected, in their order.
  pub load_latest_recoverable-IsResumed :
      (expected : List TestDefinition) (w : World)
      → AllReadable (h.entries w (default_session_directory h))
      → (load_latest_recoverable h expected w).success ≡ true
      → IsResumed expected w (load_latest_recoverable h expected w)
  unfolding load_latest_recoverable
  load_latest_recoverable-IsResumed expected w readable success =
      elim (Bool-cases (h.is_directory w (default_session_directory h))) [
        | inr e ↦ absurd (let bad : false ≡ true = simp e at success in cc)
        | inl e ↦ simp e (
            through (latest_entry (h.entries w (default_session_directory h)) false none) refl
              (simp e at success))
      ]
    where
      through :
          (found : Option (Entry × ℕ))
          → latest_entry (h.entries w (default_session_directory h)) false none ≡ found
          → (resume_latest h expected w found).success ≡ true
          → IsResumed expected w (resume_latest h expected w found)
      through none f done = absurd (cc)
      through (some (entry, time)) f done =
          let c = latest_entry-Chosen (h.entries w (default_session_directory h)) none readable f in
          let r = resume_latest-Resumption expected entry time w done in
          let (listed, timed) = from_list c.source in
          record {
            entry = entry;
            time = time;
            text = r.text;
            loaded = r.loaded;
            tests = r.tests;
            listed = listed;
            timed = timed;
            newest = c.newest;
            held = r.held;
            parsed = r.parsed;
            under_way = r.under_way;
            planned = r.planned;
            session = r.session;
          }

-- ===== src/AppConfig/Replaced.antt =====
-- src/model/app_config.cpp, write_atomic: the file has its old text or the whole new one.
use mathlib.Core.List.{append_assoc, append-nil}
use factory_test.Common.{
  Bool, true, false, Bool-cases, Option-cases, ◌⊎◌, inl, inr, ℕ, zero, suc, ◌+◌, String,
  concat-ne_self, concat-empty, List, [], ◌∷◌, ◌++◌, take, drop, take-drop, Option, none, some, ◌≡◌,
  ◌≢◌, refl, ap, subst, ◌∙◌,
}
use factory_test.Files.{Action, Result, ok, err, ◌>>=◌, ◌>>◌, check, require}
use factory_test.AppConfig.Types.{ConfigHost}
use factory_test.AppConfig.Atomic.{
  outside, fetch_add, State, write_all, sync_directory, temporary_path, fill, replace,
  write_temporary, write_atomic,
}

-- The documented behaviour of the file system: a call changes no file but those that it names, a file
-- that has just been created is empty, a write appends the bytes that it takes, a rename that succeeds
-- moves the file over the target, one that fails changes nothing, and a file that can be read exists.
pub record ConfigLaws (h : ConfigHost) : Type 0 where
  pub exists_contents :
      (w : h.World) (p : String) {text : List ℕ}
      → h.contents w p ≡ some text
      → h.exists w p ≡ ok true
  pub create_contents :
      (w : h.World) (d p : String) → h.contents (h.create_directories d w).1 p ≡ h.contents w p
  pub permissions_contents :
      (w : h.World) (d p : String) → h.contents (h.permissions d w).1 p ≡ h.contents w p
  pub open_empty :
      (w : h.World) (q : String)
      → (h.open_new q w).0 ≡ none
      → h.contents (h.open_new q w).1 q ≡ some []
  pub open_others :
      (w : h.World) (q p : String) → p ≢ q → h.contents (h.open_new q w).1 p ≡ h.contents w p
  pub directory_contents :
      (w : h.World) (d p : String) → h.contents (h.open_directory d w).1 p ≡ h.contents w p
  pub write_appends :
      (w : h.World) (q : String) (text before : List ℕ)
      → h.contents w q ≡ some before
      → h.contents (h.write q text w).1 q ≡ some (before ++ take (h.write q text w).0 text)
  pub write_others :
      (w : h.World) (q p : String) (text : List ℕ)
      → p ≢ q
      → h.contents (h.write q text w).1 p ≡ h.contents w p
  pub sync_contents : (w : h.World) (q p : String) → h.contents (h.sync q w).1 p ≡ h.contents w p
  pub close_contents : (w : h.World) (q p : String) → h.contents (h.close q w) p ≡ h.contents w p
  pub remove_others :
      (w : h.World) (q p : String) → p ≢ q → h.contents (h.remove q w) p ≡ h.contents w p
  pub rename_moves :
      (w : h.World) (from to : String)
      → (h.rename from to w).0 ≡ none
      → h.contents (h.rename from to w).1 to ≡ h.contents w from
  pub rename_others :
      (w : h.World) (from to p : String)
      → p ≢ from
      → p ≢ to
      → h.contents (h.rename from to w).1 p ≡ h.contents w p
  pub rename_fails :
      (w : h.World) (from to p : String) {message : String}
      → (h.rename from to w).0 ≡ some message
      → h.contents (h.rename from to w).1 p ≡ h.contents w p

-- What a write of a text to a path may end with: the file has the text; or it is as it was, with an
-- error; or it has the text, and its directory could not be synchronised.
pub data Replaced (h : ConfigHost) (path : String) (old : Option (List ℕ)) (text : List ℕ)
    : Result (Unit {0}) × State h → Type 0 where
  written : {s : State h} → h.contents s.1 path ≡ some text → Replaced h path old text (ok tt, s)
  kept :
      {message : String} {s : State h}
      → h.contents s.1 path ≡ old
      → Replaced h path old text (err message, s)
  not_synced :
      {s : State h}
      → h.contents s.1 path ≡ some text
      → Replaced h path old text (err "failed to sync config directory", s)

-- How an action ended: well in a state with one property, or with an error in one with another.
data Ends {W : Type 0} (Ok Error : W → Type 0) : Result (Unit {0}) × W → Type 0 where
  ended : {s : W} → Ok s → Ends Ok Error (ok tt, s)
  failed : {message : String} {s : W} → Error s → Ends Ok Error (err message, s)

Number-cases : (n : ℕ) → (n ≡ 0) ⊎ ((m : ℕ) × (n ≡ suc m))
Number-cases zero = inl refl
Number-cases (suc n) = inr (n, refl)

not_empty : ◌≢◌ {A = String} ".tmp-" ""
not_empty e = cc

module _ (h : ConfigHost) (laws : ConfigLaws h) where
  write_all-others :
      (q p : String) (passed : ℕ) (text : List ℕ) (w : h.World)
      → p ≢ q
      → h.contents (write_all h q passed text w).1 p ≡ h.contents w p
  unfolding write_all
  write_all-others q p passed [] w apart = refl
  write_all-others q p (suc passed) (byte ∷ text) w apart = write_all-others q p passed text w apart
  write_all-others q p zero (byte ∷ text) w apart =
      elim (Number-cases (h.write q (byte ∷ text) w).0) [
        | inl e ↦ rw (e, write_all) (laws.write_others w q p (byte ∷ text) apart)
        | inr (m, e) ↦
            rw (e, write_all)
              (write_all-others q p m text (h.write q (byte ∷ text) w).1 apart
                ∙ laws.write_others w q p (byte ∷ text) apart)
      ]

  -- A loop that ends well has written every byte, in order, however the writes were cut.
  write_all-contents :
      (q : String) (passed : ℕ) (text before : List ℕ) (w : h.World)
      → h.contents w q ≡ some before
      → (write_all h q passed text w).0 ≡ true
      → h.contents (write_all h q passed text w).1 q ≡ some (before ++ drop passed text)
  unfolding write_all
  write_all-contents q zero [] before w e done = rw (append-nil before) e
  write_all-contents q (suc passed) [] before w e done = rw (append-nil before) e
  write_all-contents q (suc passed) (byte ∷ text) before w e done =
      write_all-contents q passed text before w e done
  write_all-contents q zero (byte ∷ text) before w e done =
      elim (Number-cases (h.write q (byte ∷ text) w).0) [
        | inl none_taken ↦
            absurd (let bad : false ≡ true = rw (none_taken, write_all) at done in cc)
        | inr (m, taken) ↦
            let appended =
              subst
                (λ n.
                  h.contents (h.write q (byte ∷ text) w).1 q
                  ≡ some (before ++ take n (byte ∷ text)))
                taken (laws.write_appends w q (byte ∷ text) before e) in
            let rest =
              write_all-contents q m text (before ++ byte ∷ take m text) _ appended
                (rw (taken, write_all) at done) in
            let joined : (before ++ byte ∷ take m text) ++ drop m text ≡ before ++ byte ∷ text =
              append_assoc before (byte ∷ take m text) (drop m text)
              ∙ ap (λ ys. before ++ byte ∷ ys) (take-drop m text) in
            rw (taken, write_all) (rest ∙ ap some joined)
      ]

  module _ (path : String) (old : Option (List ℕ)) (text : List ℕ) where
    -- A checked call that leaves the file, and what follows it.
    check-Replaced :
        (message : String) (call : h.World → Option String × h.World)
        (rest : Action (State h) (Unit {0})) (sequence : ℕ) (w : h.World)
        → h.contents (call w).1 path ≡ old
        → ((call w).0 ≡ none → Replaced h path old text (rest (sequence, (call w).1)))
        → Replaced h path old text ((check message (outside call) >> rest) (sequence, w))
    unfolding check
    check-Replaced message call rest sequence w same next = go (call w).0 same next
      where
        go :
            (o : Option String)
            → h.contents (call w).1 path ≡ old
            → (o ≡ none → Replaced h path old text (rest (sequence, (call w).1)))
            → Replaced h path old text
                ((check message (λ _. (o, (sequence, (call w).1))) >> rest) (sequence, w))
        go none same next = next refl
        go (some error) same next = kept same

    sync_step : Action (State h) (Unit {0})
    sync_step =
        require "failed to sync config directory" (outside (sync_directory h (h.parent_path path)))

    sync_directory-contents :
        (directory p : String) (w : h.World)
        → h.contents (sync_directory h directory w).1 p ≡ h.contents w p
    unfolding sync_directory
    sync_directory-contents directory p w = elim (Bool-cases (h.open_directory directory w).0) [
      | inl e ↦
          rw (e, sync_directory)
            (laws.close_contents _ directory p
              ∙ laws.sync_contents _ directory p
              ∙ laws.directory_contents w directory p)
      | inr e ↦ rw (e, sync_directory) (laws.directory_contents w directory p)
    ]

    sync_step-Replaced :
        (s : State h) → h.contents s.1 path ≡ some text → Replaced h path old text (sync_step s)
    unfolding sync_step require
    sync_step-Replaced (sequence, w) e = go (sync_directory h (h.parent_path path) w).0
      where
        after : h.contents (sync_directory h (h.parent_path path) w).1 path ≡ some text
        after = sync_directory-contents (h.parent_path path) path w ∙ e

        go :
            (synced : Bool)
            → Replaced h path old text (
                require "failed to sync config directory"
                  (λ _. (synced, (sequence, (sync_directory h (h.parent_path path) w).1)))
                  (sequence, w))
        go true = written after
        go false = not_synced after

    >>-Replaced :
        (Ok : State h → Type 0) (m rest : Action (State h) (Unit {0})) (s : State h)
        → Ends Ok (λ s'. h.contents s'.1 path ≡ old) (m s)
        → ((s' : State h) → Ok s' → Replaced h path old text (rest s'))
        → Replaced h path old text ((m >> rest) s)
    >>-Replaced Ok m rest s ends next = go (m s) ends
      where
        go :
            (r : Result (Unit {0}) × State h)
            → Ends Ok (λ s'. h.contents s'.1 path ≡ old) r
            → Replaced h path old text (((λ _. r) >> rest) s)
        go (_, s') (ended good) = next s' good
        go (_, s') (failed same) = kept same

    module _ (temporary : String) (apart : path ≢ temporary) where
      replace-Ends :
          (sequence : ℕ) (w : h.World)
          → h.contents w temporary ≡ some text
          → h.contents w path ≡ old
          → Ends
              (λ s'. h.contents s'.1 path ≡ some text)
              (λ s'. h.contents s'.1 path ≡ old)
              (replace h temporary path (sequence, w))
      unfolding replace
      replace-Ends sequence w filled same = elim (Option-cases (h.rename temporary path w).0) [
        | inl e ↦ rw (e, replace) (ended (laws.rename_moves w temporary path e ∙ filled))
        | inr (message, e) ↦
            rw (e, replace)
              (failed (
                laws.remove_others _ temporary path apart
                ∙ laws.rename_fails w temporary path path e
                ∙ same))
      ]

      Filled : State h → Type 0
      Filled s = (h.contents s.1 temporary ≡ some text) × (h.contents s.1 path ≡ old)

      fill-Ends :
          (sequence : ℕ) (w : h.World)
          → h.contents w temporary ≡ some []
          → h.contents w path ≡ old
          → Ends Filled (λ s'. h.contents s'.1 path ≡ old) (fill h temporary text (sequence, w))
      unfolding fill Filled
      fill-Ends sequence w empty same = elim (Bool-cases (write_all h temporary 0 text w).0) [
        | inr e ↦
            rw (e, fill)
              (failed (
                laws.remove_others _ temporary path apart
                ∙ laws.close_contents _ temporary path
                ∙ untouched))
        | inl e ↦ elim (Bool-cases (h.sync temporary (write_all h temporary 0 text w).1).0) [
          | inr f ↦
              rw (e, f, fill)
                (failed (
                  laws.remove_others _ temporary path apart
                  ∙ laws.close_contents _ temporary path
                  ∙ laws.sync_contents _ temporary path
                  ∙ untouched))
          | inl f ↦
              rw (e, f, fill)
                (ended (
                  (laws.close_contents _ temporary temporary
                      ∙ laws.sync_contents _ temporary temporary
                      ∙ write_all-contents temporary 0 text [] w empty e),
                  (laws.close_contents _ temporary path
                      ∙ laws.sync_contents _ temporary path
                      ∙ untouched),
                ))
        ]
      ]
        where
          untouched : h.contents (write_all h temporary 0 text w).1 path ≡ old
          untouched = write_all-others temporary path 0 text w apart ∙ same

      write_temporary-Replaced :
          (sequence : ℕ) (w : h.World)
          → h.contents w path ≡ old
          → Replaced h path old text (write_temporary h path text temporary (sequence, w))
      unfolding write_temporary Filled sync_step
      write_temporary-Replaced sequence w same =
          check-Replaced "failed to create temporary config file: " (h.open_new temporary)
            (fill h temporary text >> (replace h temporary path >> sync_step)) sequence w
            (laws.open_others w temporary path apart ∙ same)
            (λ opened.
              >>-Replaced Filled (fill h temporary text) (replace h temporary path >> sync_step) _
                (fill-Ends sequence _ (laws.open_empty w temporary opened)
                  (laws.open_others w temporary path apart ∙ same))
                (λ s' filled.
                  >>-Replaced (λ s. h.contents s.1 path ≡ some text) (replace h temporary path)
                    sync_step s' (replace-Ends s'.0 s'.1 filled.0 filled.1) sync_step-Replaced))

  -- With ConfigLaws: write_atomic ends with the whole new text in the file and no error; with an
  -- error and the file as it was before; or with the new text and the error that the directory
  -- could not be synchronised.
  pub write_atomic-Replaced :
      (path : String) (text : List ℕ) (s : State h)
      → Replaced h path (h.contents s.1 path) text (write_atomic h path text s)
  unfolding write_atomic
  write_atomic-Replaced path text (sequence, w) =
      let directory = h.parent_path path in
      let last : Action (State h) (Unit {0}) =
        fetch_add >>= λ number. write_temporary h path text (temporary_path h path number) in
      let secure =
        check "failed to secure config directory: " (outside (h.permissions directory)) >> last in
      let created = laws.create_contents w directory path in
      check-Replaced path (h.contents w path) text "failed to create config directory: "
        (h.create_directories directory) secure sequence w created
        (λ _.
          let secured = laws.permissions_contents _ directory path ∙ created in
          check-Replaced path (h.contents w path) text "failed to secure config directory: "
            (h.permissions directory) last sequence _ secured
            (λ _.
              write_temporary-Replaced path (h.contents w path) text
                (temporary_path h path sequence)
                (concat-ne_self path _ (λ e. not_empty (concat-empty _ _ (concat-empty _ _ e))))
                (sequence + 1) _ secured))

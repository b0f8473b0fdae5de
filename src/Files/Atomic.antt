-- ===== src/Files/Atomic.antt =====
-- write_text_file_atomic replaces a file whole or not at all.
use factory_test.Common.{inl, inr, String, some, concat-ne_self, ◌≡◌, ◌≢◌, ◌∙◌}
use factory_test.Host.{Host, FileLaws}
use factory_test.Files.{
  Action, ok, err, ◌>>=◌, ◌>>◌, require, check, attempt, temporary, write_text_file_atomic,
}
use factory_test.Files.Rules.{
  KeepsOnError, require-Keeps, check-Keeps, check-KeepsOnError, >>-KeepsOnError, Result-cases,
  attempt_succeeds, attempt-Keeps, >>-Keeps, require-ok, check-ok,
}

path-ne-temporary : (path : String) → path ≢ temporary path
path-ne-temporary path = concat-ne_self path ".tmp" (λ e. cc)

-- The steps after the directory has been created.
abbrev rename_step : (h : Host) → String → Action h.World (Unit {0})
rename_step h path = do
  check "failed to replace session file: " (h.rename_file (temporary path) path)
  attempt (h.sync_file (h.parent_path path))

abbrev sync_step : (h : Host) → String → Action h.World (Unit {0})
sync_step h path = do
  require "failed to sync temporary session file" (h.sync_file (temporary path))
  rename_step h path

abbrev write_step : (h : Host) → String → String → Action h.World (Unit {0})
write_step h path text = do
  require "failed to write temporary session file" (h.write_output (temporary path) text)
  sync_step h path

abbrev open_step : (h : Host) → String → String → Action h.World (Unit {0})
open_step h path text = do
  require "failed to open temporary session file" (h.open_output (temporary path))
  write_step h path text

module _ (h : Host) (laws : FileLaws h) (path text : String) where
  apart : path ≢ temporary path
  apart = path-ne-temporary path

  replace : Action h.World (Unit {0})
  replace = check "failed to replace session file: " (h.rename_file (temporary path) path)

  rename_step-KeepsOnError : KeepsOnError h path (rename_step h path)
  unfolding replace
  rename_step-KeepsOnError w message f = elim (Result-cases (replace w).0) [
    | inl (a, e) ↦
        absurd (attempt_succeeds (h.sync_file (h.parent_path path)) _ message (rw (e, ◌>>=◌) at f))
    | inr (text, e) ↦
        rw (e, ◌>>=◌)
          (check-KeepsOnError h path _ (h.rename_file (temporary path) path)
            (λ v t. laws.rename_fails v (temporary path) path path) w text e)
  ]

  -- With FileLaws a write that fails leaves the file as it was before.
  pub write_text_file_atomic-error :
      (w : h.World) (message : String)
      → (write_text_file_atomic h path text w).0 ≡ err message
      → h.contents (write_text_file_atomic h path text w).1 path ≡ h.contents w path
  unfolding write_text_file_atomic
  write_text_file_atomic-error =
      >>-KeepsOnError h path (check _ (h.create_directories (h.parent_path path)))
        (open_step h path text) (check-Keeps h path _ _ (λ w. laws.create_contents w _ path))
        (>>-KeepsOnError h path (require _ (h.open_output (temporary path)))
          (write_step h path text) (require-Keeps h path _ _ (λ w. laws.open_others w _ path apart))
          (>>-KeepsOnError h path (require _ (h.write_output (temporary path) text))
            (sync_step h path)
            (require-Keeps h path _ _ (λ w. laws.write_others w _ text path apart))
            (>>-KeepsOnError h path (require _ (h.sync_file (temporary path))) (rename_step h path)
              (require-Keeps h path _ _ (λ w. laws.sync_contents w _ path))
              rename_step-KeepsOnError)))

  -- With FileLaws a write that succeeds leaves the text in the file.
  pub write_text_file_atomic-ok :
      (w : h.World)
      → (write_text_file_atomic h path text w).0 ≡ ok tt
      → h.contents (write_text_file_atomic h path text w).1 path ≡ some text
  unfolding write_text_file_atomic attempt
  write_text_file_atomic-ok w f =
      let (_, e₁) =
        check-ok _ (h.create_directories (h.parent_path path)) (open_step h path text) w f in
      let w₁ = (h.create_directories (h.parent_path path) w).1 in
      let (opened, e₂) =
        require-ok _ (h.open_output (temporary path)) (write_step h path text) w₁ (rw e₁ at f) in
      let w₂ = (h.open_output (temporary path) w₁).1 in
      let (written, e₃) =
        require-ok _ (h.write_output (temporary path) text) (sync_step h path) w₂
          (rw (e₁, e₂) at f) in
      let w₃ = (h.write_output (temporary path) text w₂).1 in
      let (_, e₄) =
        require-ok _ (h.sync_file (temporary path)) (rename_step h path) w₃
          (rw (e₁, e₂, e₃) at f) in
      let w₄ = (h.sync_file (temporary path) w₃).1 in
      let (moved, e₅) =
        check-ok _ (h.rename_file (temporary path) path)
          (attempt (h.sync_file (h.parent_path path))) w₄ (rw (e₁, e₂, e₃, e₄) at f) in
      rw (e₁, e₂, e₃, e₄, e₅)
        (laws.sync_contents _ (h.parent_path path) path
          ∙ (laws.rename_moves w₄ (temporary path) path moved
              ∙ (laws.sync_contents w₃ (temporary path) (temporary path)
                  ∙ laws.write_contents w₁ (temporary path) text opened written)))

  -- With FileLaws files other than the one that is written and its temporary are never touched.
  pub write_text_file_atomic-others :
      (p : String)
      → p ≢ path
      → p ≢ temporary path
      → (w : h.World) → h.contents (write_text_file_atomic h path text w).1 p ≡ h.contents w p
  unfolding write_text_file_atomic replace
  write_text_file_atomic-others p a b =
      >>-Keeps h p (check _ (h.create_directories (h.parent_path path))) (open_step h path text)
        (check-Keeps h p _ _ (λ w. laws.create_contents w _ p))
        (>>-Keeps h p (require _ (h.open_output (temporary path))) (write_step h path text)
          (require-Keeps h p _ _ (λ w. laws.open_others w _ p b))
          (>>-Keeps h p (require _ (h.write_output (temporary path) text)) (sync_step h path)
            (require-Keeps h p _ _ (λ w. laws.write_others w _ text p b))
            (>>-Keeps h p (require _ (h.sync_file (temporary path))) (rename_step h path)
              (require-Keeps h p _ _ (λ w. laws.sync_contents w _ p))
              (>>-Keeps h p replace (attempt (h.sync_file (h.parent_path path)))
                (check-Keeps h p _ _ (λ w. laws.rename_others w _ path p b a))
                (attempt-Keeps h p _ (λ w. laws.sync_contents w _ p))))))

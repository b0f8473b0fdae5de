-- ===== src/AppConfig/Atomic.antt =====
-- src/model/app_config.cpp, write_all and write_atomic on a POSIX system: the file is replaced by a
-- rename. The program's state is the number of the next temporary file, and the outside world.
use factory_test.Common.{
  Bool, true, false, ◌&&◌, ℕ, zero, suc, ◌+◌, String, concat, List, [], ◌∷◌, none, some,
  if◌then◌else◌,
}
use factory_test.Files.{Action, ok, err, ◌>>=◌, ◌>>◌, check, require}
use factory_test.AppConfig.Types.{ConfigHost}

abbrev pub outside : {W A : Type 0} → (W → A × W) → ℕ × W → A × (ℕ × W)
outside call (sequence, w) = let (a, w') = call w in (a, (sequence, w'))

-- temporary_sequence.fetch_add(1).
abbrev pub fetch_add : {W : Type 0} → Action (ℕ × W) ℕ
fetch_add (sequence, w) = (ok sequence, (sequence + 1, w))

module _ (h : ConfigHost) where
  abbrev pub State : Type 0
  State = ℕ × h.World

  -- The loop over what is left of the text; the first number counts the bytes of the last write that
  -- are still to be passed over.
  unfoldable pub write_all : String → ℕ → List ℕ → h.World → Bool × h.World
  write_all descriptor passed [] w = (true, w)
  write_all descriptor (suc passed) (byte ∷ text) w = write_all descriptor passed text w
  write_all descriptor zero (byte ∷ text) w =
      let (count, w') = h.write descriptor (byte ∷ text) w in
      elim count [ zero ↦ (false, w') | suc written ↦ write_all descriptor written text w' ]

  unfoldable pub sync_directory : String → h.World → Bool × h.World
  sync_directory directory w =
      let (opened, w1) = h.open_directory directory w in
      let (synced, w2) = h.sync directory w1 in
      if opened then (synced, h.close directory w2) else (false, w1)

  abbrev pub temporary_path : String → ℕ → String
  temporary_path path sequence =
      concat path
        (concat (concat ".tmp-" (h.to_string h.process_id)) (concat "-" (h.to_string sequence)))

  -- The text written, synced and closed; the temporary file is removed after a failure.
  unfoldable pub fill : String → List ℕ → Action State (Unit {0})
  fill temporary text (sequence, w) =
      let (written, w1) = write_all temporary 0 text w in
      let (synced, w2) = h.sync temporary w1 in
      let message =
        if written
        then "failed to sync temporary config file"
        else "failed to write temporary config file" in
      let closed = h.close temporary (if written then w2 else w1) in
      if written && synced
      then (ok tt, (sequence, closed))
      else (err message, (sequence, h.remove temporary closed))

  unfoldable pub replace : String → String → Action State (Unit {0})
  replace temporary path (sequence, w) =
      let (error, w') = h.rename temporary path w in
      elim error [
        | none ↦ (ok tt, (sequence, w'))
        | some text ↦
            (err (concat "failed to replace config file: " text), (sequence, h.remove temporary w'))
      ]

  unfoldable pub write_temporary : String → List ℕ → String → Action State (Unit {0})
  write_temporary path text temporary = do
    check "failed to create temporary config file: " (outside (h.open_new temporary))
    fill temporary text
    replace temporary path
    require "failed to sync config directory" (outside (sync_directory (h.parent_path path)))

  -- The error message is the result's, and no error is the value `true`.
  unfoldable pub write_atomic : String → List ℕ → Action State (Unit {0})
  write_atomic path text = do
    check "failed to create config directory: "
        (outside (h.create_directories (h.parent_path path)))
    check "failed to secure config directory: " (outside (h.permissions (h.parent_path path)))
    sequence ← fetch_add
    write_temporary path text (temporary_path path sequence)

-- ===== src/Files.antt =====
-- src/model/test_session.cpp, write_text_file_atomic: actions on the outside world that can fail.
use factory_test.Common.{Bool, true, false, String, concat, Option, none, some, ◌≡◌, if◌then◌else◌}
use factory_test.Host.{Host}
pub mod Rules
pub mod Atomic

pub data Result {ℓ} (A : Type ℓ) : Type ℓ where
  ok : A → Result A
  err : String → Result A

-- An action on a world: its result, and the world after it.
abbrev pub Action : Type 0 → Type 0 → Type 0
Action W A = W → Result A × W

infixl 5 ◌>>=◌ ◌>>◌
abbrev pub ◌>>=◌ : {W A B : Type 0} → Action W A → (A → Action W B) → Action W B
◌>>=◌ m f w = let (r, w') = m w in elim r [ ok a ↦ f a w' | err e ↦ (err e, w') ]

abbrev pub ◌>>◌ : {W B : Type 0} → Action W (Unit {0}) → Action W B → Action W B
m >> k = m >>= λ _. k

-- A call that reports success: its failure is reported under a message.
unfoldable pub require : {W : Type 0} → String → (W → Bool × W) → Action W (Unit {0})
require message call w =
    let (success, w') = call w in if success then (ok tt, w') else (err message, w')

-- A call that reports an error: the message goes in front of it.
unfoldable pub check : {W : Type 0} → String → (W → Option String × W) → Action W (Unit {0})
check message call w =
    let (error, w') = call w in
    elim error [ none ↦ (ok tt, w') | some text ↦ (err (concat message text), w') ]

-- A call whose result is not looked at.
unfoldable pub attempt : {W : Type 0} → (W → Bool × W) → Action W (Unit {0})
attempt call w = let (_, w') = call w in (ok tt, w')

abbrev pub temporary : String → String
temporary path = concat path ".tmp"

-- The error message is the result's, and no error is the value `true`.
unfoldable pub write_text_file_atomic : (h : Host) → String → String → Action h.World (Unit {0})
write_text_file_atomic h path text = do
  check "failed to create session directory: " (h.create_directories (h.parent_path path))
  require "failed to open temporary session file" (h.open_output (temporary path))
  require "failed to write temporary session file" (h.write_output (temporary path) text)
  require "failed to sync temporary session file" (h.sync_file (temporary path))
  check "failed to replace session file: " (h.rename_file (temporary path) path)
  attempt (h.sync_file (h.parent_path path))

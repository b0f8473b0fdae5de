-- ===== src/Files/Rules.antt =====
-- Which actions leave a file as it was, always or when they fail, and what a success says of the parts.
use factory_test.Common.{
  Bool, true, String, Option, none, some, concat, ◌≡◌, refl, ◌≢◌, ◌⊎◌, ◌∙◌, Bool-cases,
  Option-cases, inl, inr, arith,
}
use factory_test.Host.{Host}
use factory_test.Files.{Result, ok, err, Action, ◌>>=◌, ◌>>◌, require, check, attempt}

pub Result-cases :
    {A : Type 0} (r : Result A) → ((a : A) × (r ≡ ok a)) ⊎ ((message : String) × (r ≡ err message))
Result-cases (ok a) = inl (a, refl)
Result-cases (err e) = inr (e, refl)

-- What is attempted is no failure.
pub attempt_succeeds :
    {W : Type 0} (call : W → Bool × W) (w : W) (message : String) → (attempt call w).0 ≢ err message
unfolding attempt
attempt_succeeds call w message f = cc

module _ (h : Host) (p : String) where
  -- A call leaves the file `p` as it was.
  abbrev pub Keeps : {A : Type 0} → (h.World → A × h.World) → Type 0
  Keeps call = (w : h.World) → h.contents (call w).1 p ≡ h.contents w p

  -- An action that fails leaves the file `p` as it was.
  abbrev pub KeepsOnError : {A : Type 0} → Action h.World A → Type 0
  KeepsOnError act =
      (w : h.World) (message : String)
      → (act w).0 ≡ err message
      → h.contents (act w).1 p ≡ h.contents w p

  pub require-Keeps :
      (message : String) (call : h.World → Bool × h.World)
      → Keeps call
      → Keeps (require message call)
  unfolding require
  require-Keeps message call k w = elim (Bool-cases (call w).0) [
    | inl e ↦ rw e (k w)
    | inr e ↦ rw e (k w)
  ]

  pub check-Keeps :
      (message : String) (call : h.World → Option String × h.World)
      → Keeps call
      → Keeps (check message call)
  unfolding check
  check-Keeps message call k w = elim (Option-cases (call w).0) [
    | inl e ↦ rw (e, check) (k w)
    | inr (text, e) ↦ rw (e, check) (k w)
  ]

  pub attempt-Keeps : (call : h.World → Bool × h.World) → Keeps call → Keeps (attempt call)
  unfolding attempt
  attempt-Keeps call k = k

  -- Only a failure has to keep the file.
  pub check-KeepsOnError :
      (message : String) (call : h.World → Option String × h.World)
      → ((w : h.World) (text : String)
          → (call w).0 ≡ some text
          → h.contents (call w).1 p ≡ h.contents w p)
      → KeepsOnError (check message call)
  unfolding check
  check-KeepsOnError message call k w m f = elim (Option-cases (call w).0) [
    | inl e ↦ absurd (ground arith)
    | inr (text, e) ↦ rw (e, check) (k w text e)
  ]

  pub >>-KeepsOnError :
      (m k : Action h.World (Unit {0})) → Keeps m → KeepsOnError k → KeepsOnError (m >> k)
  >>-KeepsOnError m k hm hk w message f = elim (Result-cases (m w).0) [
    | inl (a, e) ↦ rw (e, ◌>>=◌) (hk (m w).1 message (rw (e, ◌>>=◌) at f) ∙ hm w)
    | inr (text, e) ↦ rw (e, ◌>>=◌) (hm w)
  ]

  pub >>-Keeps : (m k : Action h.World (Unit {0})) → Keeps m → Keeps k → Keeps (m >> k)
  >>-Keeps m k hm hk w = elim (Result-cases (m w).0) [
    | inl (a, e) ↦ rw (e, ◌>>=◌) (hk (m w).1 ∙ hm w)
    | inr (text, e) ↦ rw (e, ◌>>=◌) (hm w)
  ]

-- A step of a sequence that succeeds: the call succeeded, and the rest went on from the world after it.
pub require-ok :
    {W : Type 0} (message : String) (call : W → Bool × W) (k : Action W (Unit {0})) (w : W)
    → ((require message call >> k) w).0 ≡ ok tt
    → ((call w).0 ≡ true) × ((require message call >> k) w ≡ k (call w).1)
unfolding require
require-ok message call k w h = elim (Bool-cases (call w).0) [
  | inl e ↦ (e, rw (e, ◌>>=◌, require) (rw (e, require)))
  | inr e ↦ (let bad : err message ≡ ok tt = rw (e, ◌>>=◌, require) at h in cc)
]

pub check-ok :
    {W : Type 0} (message : String) (call : W → Option String × W) (k : Action W (Unit {0})) (w : W)
    → ((check message call >> k) w).0 ≡ ok tt
    → ((call w).0 ≡ none) × ((check message call >> k) w ≡ k (call w).1)
unfolding check
check-ok message call k w h = elim (Option-cases (call w).0) [
  | inl e ↦ (e, rw (e, ◌>>=◌, check) (rw (e, check)))
  | inr (text, e) ↦ (let bad : err (concat message text) ≡ ok tt = rw (e, ◌>>=◌, check) at h in cc)
]

-- ===== src/CapFixture/Uart/Headers.antt =====
-- src/model/cap_fixture_test_model.cpp: where a header stands in bytes behind others.
use factory_test.Common.{
  ◌≡◌, refl, sym, ap, ◌∙◌, Bool, true, false, ◌&&◌, ◌==◌, ℕ, zero, suc, ◌+◌, ◌-◌, leb, List, [],
  ◌∷◌, ◌++◌, length, length-append, Option, none, some, if◌then◌else◌, arith,
}
use mathlib.Core.List.{append_assoc}
use factory_test.CapFixture.Frames.{prefix, suffix}
use factory_test.CapFixture.Uart.{find_header}

-- The frame from the first header on, if it is complete.
unfoldable pub complete_frame : List ℕ → Option (List ℕ)
complete_frame bytes = elim (find_header bytes) [
  | none ↦ none
  | some header ↦
      if leb 16 (length bytes - header) then some (prefix 16 (suffix header bytes)) else none
]

unfoldable pub later : ℕ → Option ℕ → Option ℕ
later n none = none
later n (some i) = some (n + i)

suffix-append :
    (before m : List ℕ) (i n : ℕ) → n ≡ length before + i → suffix n (before ++ m) ≡ suffix i m
unfolding suffix
suffix-append [] m i n e = let e' : n ≡ i = omega (arith, e) in ap (λ k. suffix k m) e'
suffix-append (b ∷ before) m i zero e = absurd (omega (arith, e))
suffix-append (b ∷ before) m i (suc n) e = suffix-append before m i n (omega (arith, e))

frame_at :
    (before m : List ℕ) (o : Option ℕ)
    → (elim (later (length before) o) as (λ _. Option (List ℕ)) [
      | none ↦ none
      | some i ↦
          if leb 16 (length (before ++ m) - i)
          then some (prefix 16 (suffix i (before ++ m)))
          else none
    ])
      ≡ (elim o as (λ _. Option (List ℕ)) [
        | none ↦ none
        | some i ↦ if leb 16 (length m - i) then some (prefix 16 (suffix i m)) else none
      ])
unfolding later
frame_at before m none = refl
frame_at before m (some i) =
    let left : length (before ++ m) - (length before + i) ≡ length m - i =
      (let sizes = length-append before m in omega (arith, sizes)) in
    rw (left, suffix-append before m i (length before + i) refl)

-- A header that is looked for in bytes behind others is found as far behind.
pub complete_frame-append :
    (before m : List ℕ)
    → find_header (before ++ m) ≡ later (length before) (find_header m)
    → complete_frame (before ++ m) ≡ complete_frame m
unfolding complete_frame
complete_frame-append before m e = rw (e, complete_frame) (frame_at before m (find_header m))

header_none :
    (c : Bool) (o : Option ℕ)
    → (if c then some 0 else elim o [ none ↦ none | some i ↦ some (suc i) ]) ≡ none
    → (c ≡ false) × (o ≡ none)
header_none true o h = absurd (let bad : some 0 ≡ none = h in cc)
header_none false none h = (refl, refl)
header_none false (some i) h = absurd (let bad : some (suc i) ≡ none = h in cc)

next_later :
    (o : Option ℕ) → (elim o as (λ _. Option ℕ) [ none ↦ none | some i ↦ some (suc i) ]) ≡ later 1 o
unfolding later
next_later none = refl
next_later (some i) = ap some (omega arith)

later-later : (n : ℕ) (o : Option ℕ) → later 1 (later n o) ≡ later (suc n) o
unfolding later
later-later n none = refl
later-later n (some i) = ap some (omega arith)

later_zero : (o : Option ℕ) → o ≡ later 0 o
unfolding later
later_zero none = refl
later_zero (some i) = ap some (omega arith)

header_behind :
    (a b : ℕ) (t : List ℕ)
    → (a == 0xA5 && b == 0x5A) ≡ false
    → find_header (a ∷ b ∷ t) ≡ later 1 (find_header (b ∷ t))
unfolding find_header
header_behind a b t e = rw e (next_later (find_header (b ∷ t)))

no_header :
    (a b : ℕ) (t : List ℕ)
    → find_header (a ∷ b ∷ t) ≡ none
    → ((a == 0xA5 && b == 0x5A) ≡ false) × (find_header (b ∷ t) ≡ none)
unfolding find_header
no_header a b t h = header_none (a == 0xA5 && b == 0x5A) (find_header (b ∷ t)) h

pub find_header-append :
    (before : List ℕ) (l : ℕ) (z : List ℕ)
    → find_header (before ++ l ∷ []) ≡ none
    → find_header (before ++ l ∷ z) ≡ later (length before) (find_header (l ∷ z))
find_header-append [] l z h = later_zero (find_header (l ∷ z))
find_header-append (a ∷ []) l z h = header_behind a l z (no_header a l [] h).0
find_header-append (a ∷ b ∷ before) l z h =
    let (different, rest) = no_header a b (before ++ l ∷ []) h in
    header_behind a b (before ++ l ∷ z) different
    ∙ ap (later 1) (find_header-append (b ∷ before) l z rest)
    ∙ later-later (suc (length before)) (find_header (l ∷ z))

-- No header begins in `before`, whatever comes after `m`.
unfoldable pub Behind : List ℕ → List ℕ → Type 0
Behind before m =
    (z : List ℕ) → find_header (before ++ (m ++ z)) ≡ later (length before) (find_header (m ++ z))

pub Behind-nothing : (m : List ℕ) → Behind [] m
unfolding Behind
Behind-nothing m z = later_zero (find_header (m ++ z))

pub Behind-more : (before m chunk : List ℕ) → Behind before m → Behind before (m ++ chunk)
unfolding Behind
Behind-more before m chunk behind z = rw (append_assoc m chunk z) (behind (chunk ++ z))

later-add : (n k : ℕ) (o : Option ℕ) → later n (later k o) ≡ later (n + k) o
unfolding later
later-add n k none = refl
later-add n k (some i) = ap some (omega arith)

pub Behind-both :
    (before middle rest : List ℕ)
    → Behind before (middle ++ rest)
    → Behind middle rest
    → Behind (before ++ middle) rest
unfolding Behind
Behind-both before middle rest outer inner z =
    ap find_header (append_assoc before middle (rest ++ z))
    ∙ ap (λ m. find_header (before ++ m)) (sym (append_assoc middle rest z))
    ∙ outer z
    ∙ ap (later (length before)) (ap find_header (append_assoc middle rest z) ∙ inner z)
    ∙ later-add (length before) (length middle) (find_header (rest ++ z))
    ∙ ap (λ n. later n (find_header (rest ++ z))) (sym (length-append before middle))

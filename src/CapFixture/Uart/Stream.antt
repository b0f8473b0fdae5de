-- ===== src/CapFixture/Uart/Stream.antt =====
-- src/model/cap_fixture_test_model.cpp: read_uart_frame drops the bytes before a header while it reads.
-- Here: the frame that it finds is the first one of all bytes received.
use factory_test.Common.{
  ◌≡◌, ◌⊎◌, inl, inr, refl, sym, ap, ◌∙◌, subst, true, false, Bool-cases, Option-cases, ℕ, suc, ◌-◌,
  ltb, leb, List, [], ◌∷◌, ◌++◌, length, Option, none, some, arith,
}
use mathlib.Core.List.{append_assoc}
use factory_test.CapFixture.Frames.{prefix, suffix}
use factory_test.CapFixture.Uart.Headers.{
  complete_frame, complete_frame-append, find_header-append, Behind, Behind-nothing, Behind-more,
  Behind-both,
}
use factory_test.CapFixture.Uart.{frame, kept, find_header, keep_last, consume}

-- The chunks in the order in which they are read, from the bytes that are kept.
unfoldable pub receive_chunks : List ℕ → List (List ℕ) → Option (List ℕ)
receive_chunks received [] = none
receive_chunks received (chunk ∷ chunks) = elim (consume (received ++ chunk)) [
  | frame bytes ↦ some bytes
  | kept rest ↦ receive_chunks rest chunks
]

-- The reference keeps every byte.
unfoldable pub first_frame : List ℕ → List (List ℕ) → Option (List ℕ)
first_frame received [] = none
first_frame received (chunk ∷ chunks) = elim (complete_frame (received ++ chunk)) [
  | some bytes ↦ some bytes
  | none ↦ first_frame (received ++ chunk) chunks
]

last_split :
    (m : List ℕ)
    → ltb 1 (length m) ≡ true
    → (front : List ℕ) × (l : ℕ) × (m ≡ front ++ l ∷ []) × (suffix (length m - 1) m ≡ l ∷ [])
unfolding suffix
last_split [] h = absurd (let bad : false ≡ true = h in cc)
last_split (a ∷ []) h = absurd (let bad : false ≡ true = h in cc)
last_split (a ∷ b ∷ []) h = (a ∷ [], b, refl, refl)
last_split (a ∷ b ∷ c ∷ t) h =
    let (front, l, whole, last) = last_split (b ∷ c ∷ t) (ground arith) in
    let size : length (a ∷ b ∷ c ∷ t) - 1 ≡ suc (length (b ∷ c ∷ t) - 1) = omega arith in
    (a ∷ front, l, ap (λ rest. a ∷ rest) whole, ap (λ n. suffix n (a ∷ b ∷ c ∷ t)) size ∙ last)

Behind-last :
    (front : List ℕ) (l : ℕ) → find_header (front ++ l ∷ []) ≡ none → Behind front (l ∷ [])
unfolding Behind
Behind-last front l none_there z = find_header-append front l z none_there

-- What a round does with the bytes it has, beside the reference.
abbrev Outcome : List ℕ → Type 0
Outcome m =
    ((f : List ℕ) × (consume m ≡ frame f) × (complete_frame m ≡ some f))
    ⊎ ((before rest : List ℕ) × (consume m ≡ kept rest)
        × (complete_frame m ≡ none)
        × (m ≡ before ++ rest)
        × Behind before rest)

no_header-Outcome : (m : List ℕ) → find_header m ≡ none → Outcome m
unfolding complete_frame consume
no_header-Outcome m e = elim (Bool-cases (ltb 1 (length m))) [
  | inl long ↦
      (let (front, l, whole, last) = last_split m long in
        inr (
          front,
          l ∷ [],
          rw (e, consume, keep_last, long, last) refl,
          rw (e, complete_frame) refl,
          whole,
          Behind-last front l (ap find_header (sym whole) ∙ e),
        ))
  | inr short ↦ inr (
    [],
    m,
    rw (e, consume, keep_last, short) refl,
    rw (e, complete_frame) refl,
    refl,
    Behind-nothing m,
  )
]

outcome : (m : List ℕ) → Outcome m
unfolding consume complete_frame
outcome m = elim (Option-cases (find_header m)) [
  | inl e ↦ no_header-Outcome m e
  | inr (i, e) ↦ elim (Bool-cases (leb 16 (length m - i))) [
    | inl full ↦
        inl (prefix 16 (suffix i m), rw (e, consume, full) refl, rw (e, complete_frame, full) refl)
    | inr short ↦ inr (
      [],
      m,
      rw (e, consume, short) refl,
      rw (e, complete_frame, short) refl,
      refl,
      Behind-nothing m,
    )
  ]
]

-- What was received is what was dropped and what is kept.
abbrev Dropped : List ℕ → List ℕ → List ℕ → Type 0
Dropped before rest received = (received ≡ before ++ rest) × Behind before rest

receive_chunks-Dropped :
    (chunks : List (List ℕ)) (before rest received : List ℕ)
    → Dropped before rest received
    → receive_chunks rest chunks ≡ first_frame received chunks
unfolding receive_chunks first_frame Behind
receive_chunks-Dropped [] before rest received (same, behind) = refl
receive_chunks-Dropped (chunk ∷ chunks) before rest received (same, behind) =
    let whole : received ++ chunk ≡ before ++ (rest ++ chunk) =
      ap (λ x. x ++ chunk) same ∙ append_assoc before rest chunk in
    let reference : complete_frame (received ++ chunk) ≡ complete_frame (rest ++ chunk) =
      ap complete_frame whole ∙ complete_frame-append before (rest ++ chunk) (behind chunk) in
    elim (outcome (rest ++ chunk)) [
      | inl (f, found, expected) ↦ rw (found, reference, expected, receive_chunks, first_frame) refl
      | inr (front, left, keeps, nothing, split, behind') ↦
          rw (keeps, reference, nothing, receive_chunks, first_frame)
            (receive_chunks-Dropped chunks (before ++ front) left (received ++ chunk) (
              whole ∙ ap (λ m. before ++ m) split ∙ sym (append_assoc before front left),
              Behind-both before front left
                  (subst (Behind before) split (Behind-more before rest chunk behind)) behind',
            ))
    ]

-- However the bytes are split into chunks, dropping the bytes that no header begins in does not change
-- which frame is found after which chunk: it is the frame from the first header of all bytes received.
pub receive_chunks-first_frame :
    (chunks : List (List ℕ)) → receive_chunks [] chunks ≡ first_frame [] chunks
receive_chunks-first_frame chunks = receive_chunks-Dropped chunks [] [] [] (refl, Behind-nothing [])

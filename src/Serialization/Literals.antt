-- ===== src/Serialization/Literals.antt =====
-- src/serialization/serialization.cpp: a text that is printed as a JSON string can be read back.
use factory_test.Common.{
  ◌≡◌, refl, sym, ◌∙◌, ap, true, false, ◌==◌, ==_iff, Bool-cases, inl, inr, ◌⊎◌, ℕ, ltb, ◌≤◌, List,
  [], ◌∷◌, ◌++◌, All, Option, none, some, if◌then◌else◌, arith,
}
use mathlib.Core.List.{append_assoc}
use factory_test.Serialization.{escaped, escape_string}

-- The character that a backslash and a letter stand for in JSON; `u` with its digits is not read here.
abbrev unescaped : ℕ → Option ℕ
unescaped letter =
    if letter == 110
    then some 10
    else if letter == 114
    then some 13
    else if letter == 116
    then some 9
    else if letter == 98
    then some 8
    else if letter == 102
    then some 12
    else if letter == 34
    then some 34
    else if letter == 47
    then some 47
    else if letter == 92
    then some 92
    else none

abbrev put_front : ℕ → Option (List ℕ × List ℕ) → Option (List ℕ × List ℕ)
put_front ch none = none
put_front ch (some (value, rest)) = some (ch ∷ value, rest)

abbrev put_escape : Option ℕ → Option (List ℕ × List ℕ) → Option (List ℕ × List ℕ)
put_escape none read = none
put_escape (some ch) read = put_front ch read

-- A reader of what stands behind the opening quote: the text, and what follows the closing quote. As
-- JSON has it, a control character is no part of a literal and only eight letters follow a backslash.
unfoldable pub read_literal : List ℕ → Option (List ℕ × List ℕ)
read_literal [] = none
read_literal (ch ∷ []) = if ch == 34 then some ([], []) else none
read_literal (ch ∷ next ∷ rest) =
    let one = read_literal (next ∷ rest) in
    let two = read_literal rest in
    if ch == 34
    then some ([], next ∷ rest)
    else if ch == 92
    then put_escape (unescaped next) two
    else if ltb ch 32
    then none
    else put_front ch one

-- A character that is no control character, or one of those that have an escape of their own.
abbrev pub IsText : ℕ → Type 0
IsText ch = (32 ≤ ch) ⊎ (ch ≡ 9) ⊎ (ch ≡ 10) ⊎ (ch ≡ 13)

plain-read :
    (ch next : ℕ) (rest : List ℕ)
    → (ch == 34) ≡ false
    → (ch == 92) ≡ false
    → ltb ch 32 ≡ false
    → read_literal (ch ∷ next ∷ rest) ≡ put_front ch (read_literal (next ∷ rest))
unfolding read_literal
plain-read ch next rest q b c = rw (q, b, c)

-- A character whose escape was taken is the one that the escape stands for.
special-read :
    (ch letter next : ℕ) (rest : List ℕ)
    → (ch == letter) ≡ true
    → put_front letter (read_literal (next ∷ rest)) ≡ put_front ch (read_literal (next ∷ rest))
special-read ch letter next rest e =
    ap (λ c. put_front c (read_literal (next ∷ rest))) (sym ((==_iff ch letter).0 e))

not-control :
    (ch : ℕ)
    → IsText ch
    → (ch == 10) ≡ false
    → (ch == 13) ≡ false
    → (ch == 9) ≡ false
    → ltb ch 32 ≡ false
not-control ch (inl h) n r t = ground arith
not-control ch (inr (inl e)) n r t =
    absurd (let bad : true ≡ false = sym ((==_iff ch 9).1 e) ∙ t in cc)
not-control ch (inr (inr (inl e))) n r t =
    absurd (let bad : true ≡ false = sym ((==_iff ch 10).1 e) ∙ n in cc)
not-control ch (inr (inr (inr e))) n r t =
    absurd (let bad : true ≡ false = sym ((==_iff ch 13).1 e) ∙ r in cc)

escaped-read :
    (ch : ℕ) (next : ℕ) (rest : List ℕ)
    → IsText ch
    → read_literal (escaped ch ++ next ∷ rest) ≡ put_front ch (read_literal (next ∷ rest))
unfolding read_literal
escaped-read ch next rest text = elim (Bool-cases (ch == 92)) [
  | inl b ↦ rw b (special-read _ _ next rest b)
  | inr b ↦ elim (Bool-cases (ch == 34)) [
    | inl q ↦ rw (b, q) (special-read _ _ next rest q)
    | inr q ↦ elim (Bool-cases (ch == 10)) [
      | inl n ↦ rw (b, q, n) (special-read _ _ next rest n)
      | inr n ↦ elim (Bool-cases (ch == 13)) [
        | inl r ↦ rw (b, q, n, r) (special-read _ _ next rest r)
        | inr r ↦ elim (Bool-cases (ch == 9)) [
          | inl t ↦ rw (b, q, n, r, t) (special-read _ _ next rest t)
          | inr t ↦ rw (b, q, n, r, t) (plain-read ch next rest q b (not-control ch text n r t))
        ]
      ]
    ]
  ]
]

escaped-append :
    (ch : ℕ) (text : List ℕ) {value rest : List ℕ}
    → IsText ch
    → read_literal text ≡ some (value, rest)
    → read_literal (escaped ch ++ text) ≡ some (ch ∷ value, rest)
unfolding read_literal
escaped-append ch [] c e = absurd (let bad : none ≡ some _ = e in cc)
escaped-append ch (next ∷ text) c e = escaped-read ch next text c ∙ ap (put_front ch) e

quote-read : (rest : List ℕ) → read_literal (34 ∷ rest) ≡ some ([], rest)
unfolding read_literal
quote-read [] = refl
quote-read (next ∷ rest) = refl

-- Reading back the escaped text of a string literal whose characters are 32 or above, tabs, line
-- feeds or carriage returns, up to the closing quote that follows it, gives the text and what stands
-- behind the quote. The reader takes no control character and no unknown escape.
pub read_literal-escape_string :
    (value rest : List ℕ)
    → All IsText value
    → read_literal (escape_string value ++ 34 ∷ rest) ≡ some (value, rest)
unfolding escape_string
read_literal-escape_string [] rest text = quote-read rest
read_literal-escape_string (ch ∷ value) rest (here, more) =
    let tail = read_literal-escape_string value rest more in
    rw (append_assoc (escaped ch) (escape_string value) (34 ∷ rest)) (escaped-append ch _ here tail)

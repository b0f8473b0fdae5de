-- ===== src/Examples/Texts.antt =====
-- A text that is printed as a JSON string.
use factory_test.Common.{ℕ, List, [], ◌∷◌, ◌++◌, some, ◌≡◌, refl, inl, inr, arith}
use factory_test.Serialization.{escape_string}
use factory_test.Serialization.Literals.{read_literal, read_literal-escape_string}

-- A quote, a backslash, a line feed and a letter.
abbrev text : List ℕ
text = 34 ∷ 92 ∷ 10 ∷ 65 ∷ []

read_literal-escape_string_example :
    read_literal (escape_string text ++ 34 ∷ 93 ∷ []) ≡ some (text, 93 ∷ [])
read_literal-escape_string_example =
    read_literal-escape_string text (93 ∷ [])
      (inl (omega arith), (inl (omega arith), (inr (inr (inl refl)), (inl (omega arith), tt))))

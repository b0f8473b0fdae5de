-- ===== src/Common/Text.antt =====
-- Texts are compared whole: the native strings with their Boolean test.
use Prim.Native.Nat.{Ordering}
use Prim.Native.String.{String, compare, ◌++◌}
use mathlib.Core.Path.{◌≡◌, sym, ◌∙◌}
use mathlib.Core.Bool.{Bool, true, false}
use mathlib.Core.Logic.{◌↔◌, ◌≢◌}
use text.Mathlib.Text.{◌==◌}
use text.Mathlib.TextEquality.{eq_iff}
use text.Mathlib.TextLemmas.{append_cancel_left, append-nil, append-eq-nil_iff}

-- operator== of std::string.
abbrev pub str_eq : String → String → Bool
str_eq s t = s == t

pub str_eq_iff : (s t : String) → (str_eq s t ≡ true) ↔ (s ≡ t)
str_eq_iff s t = eq_iff s t

-- operator< of std::string.
abbrev pub str_lt : String → String → Bool
str_lt s t = elim (compare s t) [ Ordering.lt ↦ true | _ ↦ false ]

-- std::string::empty.
abbrev pub is_empty : String → Bool
is_empty s = str_eq s ""

-- operator+ of std::string.
abbrev pub concat : String → String → String
concat s t = s ++ t

pub concat-ne_self : (s t : String) → t ≢ "" → s ≢ concat s t
concat-ne_self s t h e = h (append_cancel_left s t "" (sym e ∙ sym (append-nil s)))

pub concat-empty : (s t : String) → concat s t ≡ "" → s ≡ ""
concat-empty s t e = (append-eq-nil_iff.0 e).0

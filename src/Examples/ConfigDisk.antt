-- ===== src/Examples/ConfigDisk.antt =====
-- A concrete system for the configuration: files of bytes by path, where a write takes at most 64 bytes.
use factory_test.Common.{
  Bool, true, false, ◌&&◌, ltb, ◌==◌, ==_iff, ℕ, zero, suc, ◌+◌, ◌/◌, ◌%◌, String, str_eq, concat,
  List, [], ◌∷◌, ◌++◌, take, Option, none, some, ◌≡◌, ◌≢◌, refl, ap, ◌∙◌, Bool-cases, inl, inr,
  if◌then◌else◌, arith,
}
use factory_test.Json.{Json}
use factory_test.Files.{ok}
use factory_test.AppConfig.Types.{ConfigHost, defaults}
use factory_test.AppConfig.Store.{config_text, config_to_output}
use factory_test.AppConfig.Validity.{DoubleLaws}
use factory_test.AppConfig.Replaced.{ConfigLaws}
use factory_test.Examples.Disk.{
  Files, find, moved, find-other, find-same, moved-to, moved-others, moved-fails,
}

abbrev decimal : ℕ → ℕ → List ℕ → List ℕ
decimal zero n digits = digits
decimal (suc fuel) n digits =
    let more = decimal fuel (n / 10) ((48 + n % 10) ∷ digits) in
    if n / 10 == 0 then (48 + n % 10) ∷ digits else more

abbrev same_text : List ℕ → List ℕ → Bool
same_text [] [] = true
same_text (a ∷ xs) (b ∷ ys) = (a == b) && same_text xs ys
same_text _ _ = false

abbrev readable : Option (List ℕ) → Bool
readable none = false
readable (some text) = true

abbrev appended : Option (List ℕ) → List ℕ → Option (List ℕ)
appended none text = none
appended (some before) text = some (before ++ text)

-- The system with a given parser.
abbrev system : (List ℕ → Option (Json ℕ)) → ConfigHost
system parse = record {
  World = Files (List ℕ);
  Double = ℕ;
  of_nat = λ n. n;
  is_finite = λ d. true;
  is_whole = λ d. true;
  below = λ d n. ltb d n;
  above = λ d n. ltb n d;
  to_long = λ d. d;
  fixed = λ d. decimal 20 d [];
  max_digits = λ d. decimal 20 d [];
  to_string = λ n. if n == 0 then "0" else "1";
  parse = parse;
  parse_error = λ text. "JSON parse error near: ";
  getenv = λ name. if str_eq name "HOME" then some "/root" else none;
  process_id = 1;
  join = λ p q. concat p (concat "/" q);
  parent_path = λ path. "/root/.config/factory-test";
  exists = λ w path. ok (readable (find w path));
  contents = λ w path. find w path;
  create_directories = λ path w. (none, w);
  permissions = λ path w. (none, w);
  open_new = λ path w.
      (if readable (find w path) then (some "File exists", w) else (none, (path, some []) ∷ w));
  open_directory = λ path w. (true, w);
  write = λ path text w. (64, (path, appended (find w path) (take 64 text)) ∷ w);
  sync = λ path w. (true, w);
  close = λ path w. w;
  remove = λ path w. (path, none) ∷ w;
  rename = λ from to w. moved from to w (find w from);
}

abbrev plain : ConfigHost
plain = system (λ text. none)

-- Its parser knows one text, that of the default configuration.
abbrev pub host : ConfigHost
host = system (λ text.
    if same_text text (config_text plain defaults)
    then some (config_to_output plain defaults)
    else none)

pub doubles : DoubleLaws host
doubles = record {
  in_range = λ d low high exact finite whole above below. (ground arith, ground arith);
  finite_nat = λ n exact. refl;
  whole_nat = λ n exact. refl;
  below_nat = λ n low exact le. ground arith;
  above_nat = λ n high exact le. ground arith;
  long_nat = λ n exact. refl;
}

exists-found : (o : Option (List ℕ)) {text : List ℕ} → o ≡ some text → ok (readable o) ≡ ok true
exists-found none e = absurd (cc)
exists-found (some text) e = refl

opened-empty :
    (q : String) (w : Files (List ℕ))
    → (host.open_new q w).0 ≡ none
    → find (host.open_new q w).1 q ≡ some []
opened-empty q w e = elim (Bool-cases (readable (find w q))) [
  | inl there ↦ absurd (let bad : some "File exists" ≡ none = rw there at e in cc)
  | inr free ↦ rw free (find-same q (some []) w)
]

opened-others :
    (q p : String) (w : Files (List ℕ)) → p ≢ q → find (host.open_new q w).1 p ≡ find w p
opened-others q p w apart = elim (Bool-cases (readable (find w q))) [
  | inl there ↦ rw there refl
  | inr free ↦ rw free (find-other q p (some []) w apart)
]

pub laws : ConfigLaws host
laws = record {
  exists_contents = λ w p e. exists-found (find w p) e;
  create_contents = λ w d p. refl;
  permissions_contents = λ w d p. refl;
  open_empty = λ w q e. opened-empty q w e;
  open_others = λ w q p apart. opened-others q p w apart;
  directory_contents = λ w d p. refl;
  write_appends = λ w q text before e. find-same q _ w ∙ ap (λ o. appended o (take 64 text)) e;
  write_others = λ w q p text apart. find-other q p _ w apart;
  sync_contents = λ w q p. refl;
  close_contents = λ w q p. refl;
  remove_others = λ w q p apart. find-other q p none w apart;
  rename_moves = λ w from to e. moved-to from to w (find w from) e;
  rename_others = λ w from to p a b. moved-others from to p w (find w from) a b;
  rename_fails = λ w from to p e. moved-fails from to p w (find w from) e;
}

same_text_refl : (text : List ℕ) → same_text text text ≡ true
same_text_refl [] = refl
same_text_refl (a ∷ xs) = simp ((==_iff a a).1 refl, same_text_refl xs)

pub host-parses : host.parse (config_text host defaults) ≡ some (config_to_output host defaults)
host-parses = rw (same_text_refl (config_text plain defaults)) refl

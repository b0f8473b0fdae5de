-- ===== src/Examples/Disk.antt =====
-- A concrete outside world: files by path, the newest write first, and a clock that counts instants.
use Prim.Native.String.{len, slice}
use factory_test.Common.{
  Bool, true, false, ℕ, ◌+◌, String, str_eq, str_eq_iff, concat, List, [], ◌∷◌, Option, none, some,
  ◌≡◌, ◌≢◌, refl, sym, ◌∙◌, Bool-cases, inl, inr, if◌then◌else◌,
}
use factory_test.Json.{object, find_field}
use factory_test.Host.{Host, FileLaws}

abbrev pub Files : Type 0 → Type 0
Files T = List (String × Option T)

abbrev pub Disk : Type 0
Disk = Files String

abbrev pub find : {T : Type 0} → Files T → String → Option T
find [] path = none
find ((p, text) ∷ disk) path = if str_eq p path then text else find disk path

abbrev pub moved : {T : Type 0} → String → String → Files T → Option T → Option String × Files T
moved from to disk none = (some "no such file", disk)
moved from to disk (some text) = (none, (to, some text) ∷ (from, none) ∷ disk)

abbrev pub directory : String
directory = "/root/.local/state/factory-test/sessions"

-- Whether there is room for what is written: without it a write leaves an empty file.
abbrev pub disk_host : Bool → Host
disk_host room = record {
  World = ℕ × Disk;
  Moment = ℕ;
  Double = ℕ;
  now = λ (time, disk). (time, (time + 1, disk));
  iso_timestamp = λ time. "2026-01-01T00:00:00.000Z";
  session_timestamp = λ time. "20260101-000000-000";
  epoch_milliseconds = λ time. 1767225600000 + time;
  of_nat = λ n. n;
  is_finite = λ d. true;
  is_nonneg = λ d. true;
  to_size = λ d. d;
  allocates = λ json. true;
  print = λ json formatted. if formatted then "{ }" else "{}";
  parse = λ text. none;
  get_item = λ json key. elim json [ object fields ↦ find_field key fields | _ ↦ none ];
  valueint_is = λ d n. true;
  getenv = λ name. if str_eq name "HOME" then some "/root" else none;
  join = λ p q. concat p (concat "/" q);
  parent_path = λ path. directory;
  filename = λ path. slice path (len directory + 1) (len path);
  is_directory = λ w path. true;
  entries = λ w path. [];
  contents = λ (time, disk) path. find disk path;
  create_directories = λ path w. (none, w);
  open_output = λ path (time, disk). (true, (time, (path, some "") ∷ disk));
  write_output =
      λ path text (time, disk). (room, (time, (path, some (if room then text else "")) ∷ disk));
  sync_file = λ path w. (true, w);
  rename_file = λ from to (time, disk).
      (let (error, disk') = moved from to disk (find disk from) in (error, (time, disk')));
}

pub find-other :
    {T : Type 0} (p q : String) (text : Option T) (disk : Files T)
    → q ≢ p
    → find ((p, text) ∷ disk) q ≡ find disk q
find-other p q text disk apart = elim (Bool-cases (str_eq p q)) [
  | inl e ↦ absurd (apart (sym ((str_eq_iff p q).0 e)))
  | inr e ↦ simp e
]

pub find-same :
    {T : Type 0} (p : String) (text : Option T) (disk : Files T) → find ((p, text) ∷ disk) p ≡ text
find-same p text disk = simp ((str_eq_iff p p).1 refl)

pub moved-to :
    {T : Type 0} (from to : String) (disk : Files T) (text : Option T)
    → (moved from to disk text).0 ≡ none
    → find (moved from to disk text).1 to ≡ text
moved-to from to disk none e = absurd (cc)
moved-to from to disk (some text) e = find-same to (some text) ((from, none) ∷ disk)

pub moved-others :
    {T : Type 0} (from to p : String) (disk : Files T) (text : Option T)
    → p ≢ from
    → p ≢ to
    → find (moved from to disk text).1 p ≡ find disk p
moved-others from to p disk none a b = refl
moved-others from to p disk (some text) a b =
    find-other to p (some text) ((from, none) ∷ disk) b ∙ find-other from p none disk a

pub moved-fails :
    {T : Type 0} (from to p : String) (disk : Files T) (text : Option T) {message : String}
    → (moved from to disk text).0 ≡ some message
    → find (moved from to disk text).1 p ≡ find disk p
moved-fails from to p disk none e = refl
moved-fails from to p disk (some text) e = absurd (cc)

written-text :
    (room : Bool) (path text : String) (disk : Disk)
    → room ≡ true
    → find ((path, some (if room then text else "")) ∷ disk) path ≡ some text
written-text true path text disk e = find-same path (some text) disk
written-text false path text disk e = absurd (cc)

pub room_laws : (room : Bool) → FileLaws (disk_host room)
room_laws room = record {
  now_contents = λ w p. refl;
  create_contents = λ w d p. refl;
  sync_contents = λ w q p. refl;
  open_others = λ w q p apart. find-other q p _ w.1 apart;
  write_others = λ w q t p apart. find-other q p _ w.1 apart;
  write_contents = λ w q t opened written. written-text room q t ((q, some "") ∷ w.1) written;
  rename_moves = λ w from to e. moved-to from to w.1 (find w.1 from) e;
  rename_others = λ w from to p a b. moved-others from to p w.1 (find w.1 from) a b;
  rename_fails = λ w from to p e. moved-fails from to p w.1 (find w.1 from) e;
}

abbrev pub host : Host
host = disk_host true

abbrev pub full_host : Host
full_host = disk_host false

pub disk_laws : FileLaws host
disk_laws = room_laws true

pub full_laws : FileLaws full_host
full_laws = room_laws false

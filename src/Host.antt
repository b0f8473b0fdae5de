-- ===== src/Host.antt =====
-- What model/test_session.cpp uses and does not implement: the clock, the doubles, the file system and
-- cJSON. `World` is the state of all that changes outside the program; a call that may change it, or
-- that depends on it, takes it and returns the next one.
use factory_test.Common.{Bool, true, ℕ, String, List, Option, none, some, ◌≡◌, ◌≢◌}
use factory_test.Json.{Json}

-- One entry of a directory; `none` for a file type or a write time that cannot be read.
pub record Entry : Type 0 where
  pub path : String
  pub filename : String
  pub is_regular_file : Option Bool
  pub last_write_time : Option ℕ

pub record Host : Type 1 where
  pub World : Type 0
  pub Moment : Type 0
  pub Double : Type 0
  -- std::chrono::system_clock, and the texts that gmtime_r and snprintf make of an instant.
  pub now : World → Moment × World
  pub iso_timestamp : Moment → String
  pub session_timestamp : Moment → String
  pub epoch_milliseconds : Moment → ℕ
  -- double: the conversion from std::size_t, std::isfinite, >= 0.0 and the conversion back.
  pub of_nat : ℕ → Double
  pub is_finite : Double → Bool
  pub is_nonneg : Double → Bool
  pub to_size : Double → ℕ
  -- cJSON: whether the nodes of a tree can be allocated, cJSON_Print and cJSON_PrintUnformatted (the
  -- empty text for a null result), cJSON_ParseWithLength, cJSON_GetObjectItemCaseSensitive, and
  -- whether a number's `valueint` is a given one.
  pub allocates : Json Double → Bool
  pub print : Json Double → Bool → String
  pub parse : String → Option (Json Double)
  pub get_item : Json Double → String → Option (Json Double)
  pub valueint_is : Double → ℕ → Bool
  -- std::getenv; `none` for a null pointer.
  pub getenv : String → Option String
  -- std::filesystem::path: operator/, parent_path and filename.
  pub join : String → String → String
  pub parent_path : String → String
  pub filename : String → String
  -- The file system. A text is an error's message; `false` is a failure.
  pub is_directory : World → String → Bool
  pub entries : World → String → List Entry
  pub contents : World → String → Option String
  pub create_directories : String → World → Option String × World
  pub open_output : String → World → Bool × World
  pub write_output : String → String → World → Bool × World
  pub sync_file : String → World → Bool × World
  pub rename_file : String → String → World → Option String × World

-- The documented behaviour of the file system: a call changes no file but those that it names, a
-- whole write to a file just truncated leaves the text in it, a rename that succeeds moves the file
-- over the target, and one that fails changes nothing.
pub record FileLaws (h : Host) : Type 0 where
  pub now_contents : (w : h.World) (p : String) → h.contents (h.now w).1 p ≡ h.contents w p
  pub create_contents :
      (w : h.World) (d p : String) → h.contents (h.create_directories d w).1 p ≡ h.contents w p
  pub sync_contents :
      (w : h.World) (q p : String) → h.contents (h.sync_file q w).1 p ≡ h.contents w p
  pub open_others :
      (w : h.World) (q p : String) → p ≢ q → h.contents (h.open_output q w).1 p ≡ h.contents w p
  pub write_others :
      (w : h.World) (q t p : String)
      → p ≢ q
      → h.contents (h.write_output q t w).1 p ≡ h.contents w p
  pub write_contents :
      (w : h.World) (q t : String)
      → (h.open_output q w).0 ≡ true
      → (h.write_output q t (h.open_output q w).1).0 ≡ true
      → h.contents (h.write_output q t (h.open_output q w).1).1 q ≡ some t
  pub rename_moves :
      (w : h.World) (from to : String)
      → (h.rename_file from to w).0 ≡ none
      → h.contents (h.rename_file from to w).1 to ≡ h.contents w from
  pub rename_others :
      (w : h.World) (from to p : String)
      → p ≢ from
      → p ≢ to
      → h.contents (h.rename_file from to w).1 p ≡ h.contents w p
  pub rename_fails :
      (w : h.World) (from to p : String) {message : String}
      → (h.rename_file from to w).0 ≡ some message
      → h.contents (h.rename_file from to w).1 p ≡ h.contents w p

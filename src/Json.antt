-- ===== src/Json.antt =====
-- JSON documents as trees, the values that model/test_session.cpp builds and reads with cJSON. `D` is
-- the type of the numbers. The library itself is a parameter (Host.antt).
use factory_test.Common.{Bool, String, List, [], ◌∷◌, Option, none, some, str_eq, if◌then◌else◌}

mutual
  pub data Json (D : Type 0) : Type 0 where
    null : Json D
    bool : Bool → Json D
    number : D → Json D
    string : String → Json D
    array : Items D → Json D
    object : Fields D → Json D

  pub data Items (D : Type 0) : Type 0 where
    nil : Items D
    cons : Json D → Items D → Items D

  pub data Fields (D : Type 0) : Type 0 where
    end : Fields D
    field : String → Json D → Fields D → Fields D

module _ {D : Type 0} where
  -- An array and an object from the values that are added to them one after the other.
  abbrev pub array_of : List (Json D) → Items D
  array_of [] = nil
  array_of (v ∷ vs) = cons v (array_of vs)

  abbrev pub object_of : List (String × Json D) → Fields D
  object_of [] = end
  object_of ((k, v) ∷ kvs) = field k v (object_of kvs)

  -- The first value under a key.
  abbrev pub find_field : String → Fields D → Option (Json D)
  find_field key end = none
  find_field key (field k v rest) = if str_eq k key then some v else find_field key rest

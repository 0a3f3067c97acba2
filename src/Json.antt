-- ===== src/Json.antt =====
-- The JSON values that the program writes and reads.
use model_route.Base.{String, ℕ, Bool, Option, none, some, str_eq, if◌then◌else◌}

-- `real` is any number that is not a natural number, by its text.
mutual
  pub data Json : Type 0 where
    null : Json
    bool : Bool → Json
    num : ℕ → Json
    real : String → Json
    str : String → Json
    arr : Items → Json
    obj : Fields → Json

  pub data Items : Type 0 where
    nil : Items
    cons : Json → Items → Items

  pub data Fields : Type 0 where
    end : Fields
    field : String → Json → Fields → Fields

-- `d[key]` on a parsed object, where the last of two equal keys counts; `none` is the `KeyError`.
unfoldable pub get_field : String → Fields → Option Json
get_field key end = none
get_field key (field k v rest) = elim (get_field key rest) [
  | some later ↦ some later
  | none ↦ if str_eq key k then some v else none
]

-- ===== src/Contract/Json.antt =====
-- Values of type `unknown` as JSON holds them (shared/execution.ts).
use infinite_kanban.Prelude.{
  ℕ, String, Bool, Option, none, some, List, [], ◌∷◌, ◌==◌, string_eq, if◌then◌else◌,
}

-- A number is a safe integer that is not negative, or any other one by its text. An object names
-- each of its keys once.
mutual
  pub data Json : Type 0 where
    null : Json
    bool : Bool → Json
    natural : ℕ → Json
    other_number : String → Json
    text : String → Json
    array : Items → Json
    object : Fields → Json

  pub data Items : Type 0 where
    no_items : Items
    item : Json → Items → Items

  pub data Fields : Type 0 where
    no_fields : Fields
    field : String → Json → Fields → Fields

abbrev pub items : Items → List Json
items no_items = []
items (item v rest) = v ∷ items rest

-- `record[key]`: undefined where there is no such key.
unfoldable pub lookup : String → Fields → Option Json
lookup key no_fields = none
lookup key (field k v rest) = if k == key then some v else lookup key rest

abbrev pub keys_of : Fields → List String
keys_of no_fields = []
keys_of (field k v rest) = k ∷ keys_of rest

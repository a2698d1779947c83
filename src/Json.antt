-- ===== src/Json.antt =====
-- `serde_json::Value`, with what the sources read of it. The parsing of a text is a parameter of the
-- models. A number is a natural number of 64 bits or some other number.
use spark_dashboard.Prelude.{
  ℕ, String, Bool, true, false, Option, none, some, List, [], ◌∷◌, ◌==◌, string_eq, if◌then◌else◌,
}

mutual
  pub data Json : Type 0 where
    null : Json
    boolean : Bool → Json
    uint : ℕ → Json
    other_number : Json
    text : String → Json
    array : Items → Json
    object : Fields → Json

  pub data Items : Type 0 where
    end : Items
    item : Json → Items → Items

  pub data Fields : Type 0 where
    closed : Fields
    field : String → Json → Fields → Fields

-- A key that stands twice has its last value, as in the map that serde builds.
unfoldable pub get_field : Fields → String → Option Json
get_field closed key = none
get_field (field name value fields) key = elim (get_field fields key) [
  | some later ↦ some later
  | none ↦ if name == key then some value else none
]

unfoldable pub get : Json → String → Option Json
unfolding get_field
get (object fields) key = get_field fields key
get _ key = none

abbrev pub items_of : Items → List Json
items_of end = []
items_of (item value items) = value ∷ items_of items

abbrev pub as_array : Json → Option (List Json)
as_array (array items) = some (items_of items)
as_array _ = none

abbrev pub as_text : Json → Option String
as_text (text t) = some t
as_text _ = none

abbrev pub as_bool : Json → Option Bool
as_bool (boolean b) = some b
as_bool _ = none

abbrev pub as_u64 : Json → Option ℕ
as_u64 (uint n) = some n
as_u64 _ = none

abbrev pub is_object : Json → Bool
is_object (object fields) = true
is_object _ = false

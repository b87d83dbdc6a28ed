-- ===== src/Partner/Json.antt =====
-- packages/partner-transport/contract.ts: the values that JSON.parse returns, and their fields.
use contactless_airlock_lab.Prelude.{
  ℕ, Bool, Option, none, some, List, [], ◌∷◌, Text, ◌==◌, text_Eq, if◌then◌else◌,
}

-- The values of JSON.parse; `integer` has the safe integers from zero on, `other_number` the rest.
mutual
  pub data Json : Type 0 where
    null : Json
    boolean : Bool → Json
    integer : ℕ → Json
    other_number : Json
    string : Text → Json
    array : Items → Json
    object : Fields → Json

  pub data Items : Type 0 where
    no_items : Items
    item : Json → Items → Items

  pub data Fields : Type 0 where
    no_fields : Fields
    field : Text → Json → Fields → Fields

abbrev pub get_field : Text → Fields → Option Json
get_field key no_fields = none
get_field key (field k v rest) = if k == key then some v else get_field key rest

abbrev pub field_names : Fields → List Text
field_names no_fields = []
field_names (field k v rest) = k ∷ field_names rest

-- The fields of an object; what is no object has none.
abbrev pub fields_of : Option Json → Option Fields
fields_of none = none
fields_of (some j) = elim j [ object fields ↦ some fields | _ ↦ none ]

abbrev pub string_or_empty : Option Json → Text
string_or_empty none = []
string_or_empty (some j) = elim j [ string s ↦ s | _ ↦ [] ]

-- ===== src/Json.antt =====
-- JSON values as apps/api/src sees them after parsing. A number is a double, by its 64-bit pattern;
-- an object is the list of its properties.
use moeen.Base.{
  ◌==◌, ◌∷◌, Bool, List, Option, Text, [], false, if◌then◌else◌, none, some, text_eq, ℕ,
}

mutual
  pub data Json : Type 0 where
    null : Json
    boolean : Bool → Json
    number : ℕ → Json
    text : Text → Json
    array : Items → Json
    object : Fields → Json

  pub data Items : Type 0 where
    no_items : Items
    item : Json → Items → Items

  pub data Fields : Type 0 where
    no_fields : Fields
    field : Text → Json → Fields → Fields

abbrev pub number_one : ℕ
number_one = 4607182418800017408

-- Object.keys.
abbrev pub keys : Fields → List Text
keys no_fields = []
keys (field k v rest) = k ∷ keys rest

abbrev pub get : Text → Fields → Option Json
get k no_fields = none
get k (field j v rest) = let later = get k rest in if text_eq j k then some v else later

abbrev pub as_object : Json → Option Fields
as_object (object fields) = some fields
as_object _ = none

abbrev pub as_text : Option Json → Option Text
as_text (some (text t)) = some t
as_text _ = none

abbrev pub is_number : ℕ → Option Json → Bool
is_number n (some (number m)) = m == n
is_number n _ = false

abbrev pub add_field : Text → Json → Fields → Fields
add_field k v no_fields = field k v no_fields
add_field k v (field j w rest) = field j w (add_field k v rest)

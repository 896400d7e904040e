-- ===== src/Core/Json.antt =====
-- `serde_json::Value` by its public constructors, and `Metadata` of crates/gravity-core/src/metadata.rs.
pub mod Members
use rasp_api_gravity.Base.Bytes.{Text, text_eq}
use rasp_api_gravity.Base.{
  ℕ, suc, Bool, true, false, List, [], ◌∷◌, Option, none, some, if◌then◌else◌,
}

-- A number is given by its JSON text.
mutual
  pub data Value : Type 0 where
    null : Value
    bool : Bool → Value
    number : Text → Value
    string : Text → Value
    array : Items → Value
    object : Fields → Value

  pub data Items : Type 0 where
    nil : Items
    cons : Value → Items → Items

  pub data Fields : Type 0 where
    end : Fields
    field : Text → Value → Fields → Fields

-- `Map::get`
unfoldable pub get_field : Text → Fields → Option Value
get_field k end = none
get_field k (field j v fs) = let rest = get_field k fs in if text_eq j k then some v else rest

-- `Map::insert`
unfoldable pub insert_field : Text → Value → Fields → Fields
insert_field k v end = field k v end
insert_field k v (field j w fs) =
    let rest = insert_field k v fs in if text_eq j k then field k v fs else field j w rest

-- `Map::len`
unfoldable pub count_fields : Fields → ℕ
count_fields end = 0
count_fields (field k v fs) = suc (count_fields fs)

-- `Value::as_str`
unfoldable pub as_text : Value → Option Text
as_text (string s) = some s
as_text _ = none

unfoldable pub as_bool : Value → Option Bool
as_bool (bool b) = some b
as_bool _ = none

unfoldable pub as_object : Value → Option Fields
as_object (object fs) = some fs
as_object _ = none

abbrev pub Metadata : Type 0
Metadata = Option Fields

unfoldable pub new : Metadata
new = none

unfoldable pub is_empty : Metadata → Bool
is_empty none = true
is_empty (some end) = true
is_empty (some (field k v fs)) = false

unfoldable pub get : Metadata → Text → Option Value
unfolding get_field text_eq
get none key = none
get (some m) key = get_field key m

unfoldable pub insert : Metadata → Text → Value → Metadata
unfolding insert_field text_eq
insert none key v = some (insert_field key v end)
insert (some m) key v = some (insert_field key v m)

-- The elements of an array.
unfoldable pub items : List Value → Items
items [] = nil
items (v ∷ vs) = cons v (items vs)

unfoldable pub values : Items → List Value
values nil = []
values (cons v vs) = v ∷ values vs

-- `Value::get` with a key: only an object has members.
unfoldable pub member : Text → Value → Option Value
unfolding get_field text_eq
member k (object fs) = get_field k fs
member k _ = none

-- `value[k] = v`, which the code does to objects only.
unfoldable pub set_member : Text → Value → Value → Value
unfolding insert_field text_eq
set_member k v (object fs) = object (insert_field k v fs)
set_member k v w = w

-- `value.get(k).and_then(Value::as_str)`
unfoldable pub text_member : Text → Value → Option Text
unfolding member as_text
text_member k v = elim (member k v) [ none ↦ none | some x ↦ as_text x ]

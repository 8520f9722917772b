-- ===== src/Json.antt =====
-- `serde_json::Value`: an object is a list of its members, in which the first one with a key counts.
-- A number is kept as its literal, since the code only copies it.
use simply_storage.Prelude.{
  String, Option, none, some, Bool, ◌≡◌, refl, arith, str_eq, eq_iff, if◌then◌else◌, is_some,
}

mutual
  pub data Value : Type 0 where
    object : Members → Value
    array : Elements → Value
    string number : String → Value
    boolean : Bool → Value
    null : Value

  pub data Members : Type 0 where
    member : (key : String) → (value : Value) → Members → Members
    no_members : Members

  pub data Elements : Type 0 where
    element : Value → Elements → Elements
    no_elements : Elements

-- `map.get(key)`
unfoldable pub get : String → Members → Option Value
get key no_members = none
get key (member k v rest) = if str_eq k key then some v else get key rest

-- `map.insert(key, value)`
unfoldable pub insert : String → Value → Members → Members
insert key value no_members = member key value no_members
insert key value (member k v rest) =
    if str_eq k key then member key value rest else member k v (insert key value rest)

unfoldable pub contains_key : String → Members → Bool
unfolding get
contains_key key fields = is_some (get key fields)

abbrev pub as_str : Option Value → Option String
as_str (some (string s)) = some s
as_str _ = none

-- A read after a write: the new value at its key, and nothing else changed.
pub get-insert :
    (key k : String) (value : Value) (fields : Members)
    → get k (insert key value fields) ≡ (if str_eq key k then some value else get k fields)
unfolding get insert
get-insert key k value no_members = refl
get-insert key k value (member j v rest) =
    ground (arith, eq_iff j key, eq_iff j k, eq_iff key k, get-insert key k value rest)

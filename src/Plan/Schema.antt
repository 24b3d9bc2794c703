-- ===== src/Plan/Schema.antt =====
-- The validator of src/plan-runtime/schema-validate.ts. A schema and the data are JSON values; an error is the
-- text that the code pushes. What JavaScript does with texts stands outside: `s.length`, `String(v)`,
-- `JSON.stringify(v)` and the order of `sort()`. A property that every object inherits, such as
-- `constructor`, counts as missing here.
pub mod Check
pub mod Laws
pub mod Meaning
use nano_symphony.Common.{
  ℕ, suc, String, Bool, true, false, ◌&&◌, ◌||◌, not, Option, none, some, List, [], ◌∷◌, ◌==◌, ltb,
  nat_eq, if◌then◌else◌, concat, show_nat,
}
use nano_symphony.Common.Int.{ℤ, pos, negsuc}
use nano_symphony.Json.{
  Number, Json, Items, Fields, null, bool, num, str, arr, obj, nil, cons, end, field, get_field,
}

pub record Texts : Type 0 where
  pub text_length : String → ℕ
  pub print : Json → String
  pub stringify : Json → String
  pub sort : List String → List String

abbrev int_lt : ℤ → ℤ → Bool
int_lt (pos a) (pos b) = ltb a b
int_lt (pos a) (negsuc b) = false
int_lt (negsuc a) (pos b) = true
int_lt (negsuc a) (negsuc b) = ltb b a

abbrev int_eq : ℤ → ℤ → Bool
int_eq (pos a) (pos b) = nat_eq a b
int_eq (negsuc a) (negsuc b) = nat_eq a b
int_eq _ _ = false

abbrev pub number_lt : Number → Number → Bool
number_lt a b = int_lt a.floor b.floor || (int_eq a.floor b.floor && ltb a.rest b.rest)

abbrev pub number_eq : Number → Number → Bool
number_eq a b = int_eq a.floor b.floor && nat_eq a.rest b.rest

abbrev pub number : ℕ → Number
number n = record { floor = pos n; rest = 0 }

abbrev pub is_truthy : Json → Bool
is_truthy null = false
is_truthy (bool b) = b
is_truthy (num n) = not (number_eq n (number 0))
is_truthy (str s) = not (s == "")
is_truthy _ = true

abbrev pub items_list : Items → List Json
items_list nil = []
items_list (cons x xs) = x ∷ items_list xs

abbrev keys_of_fields : Fields → List String
keys_of_fields end = []
keys_of_fields (field k v fs) = k ∷ keys_of_fields fs

abbrev keys_of_items : ℕ → Items → List String
keys_of_items i nil = []
keys_of_items i (cons x xs) = show_nat i ∷ keys_of_items (suc i) xs

-- `Object.keys(v)`, where an array has its indices
abbrev pub keys : Json → List String
keys (obj fs) = keys_of_fields fs
keys (arr xs) = keys_of_items 0 xs
keys _ = []

abbrev at : String → ℕ → Items → Option Json
at k i nil = none
at k i (cons x xs) = if show_nat i == k then some x else at k (suc i) xs

-- `v[k]`
abbrev pub own : String → Json → Option Json
own k (obj fs) = get_field k fs
own k (arr xs) = at k 0 xs
own k _ = none

abbrev pub join : String → List String → String
join sep [] = ""
join sep (s ∷ []) = s
join sep (s ∷ ss) = concat (s ∷ sep ∷ join sep ss ∷ [])

abbrev pub type_of : Json → String
type_of null = "object"
type_of (bool b) = "boolean"
type_of (num n) = "number"
type_of (str s) = "string"
type_of (arr xs) = "object"
type_of (obj fs) = "object"

abbrev pub is_array : Json → Bool
is_array (arr xs) = true
is_array _ = false

abbrev pub is_plain : Json → Bool
is_plain (obj fs) = true
is_plain _ = false

abbrev is_integer : Json → Bool
is_integer (num n) = nat_eq n.rest 0
is_integer _ = false

abbrev is_null : Json → Bool
is_null null = true
is_null _ = false

abbrev is_type_named : String → Json → Bool
is_type_named t v =
    if t == "string"
    then type_of v == "string"
    else if t == "number"
    then type_of v == "number"
    else if t == "integer"
    then is_integer v
    else if t == "boolean"
    then type_of v == "boolean"
    else if t == "array"
    then is_array v
    else if t == "object"
    then is_plain v
    else if t == "null"
    then is_null v
    else true

unfoldable pub matches_type : Json → Json → Bool
matches_type (str t) v = is_type_named t v
matches_type t v = true

-- a === b of two JSON values, where two objects are never one
abbrev same_value : Json → Json → Bool
same_value null null = true
same_value (bool a) (bool b) = (a && b) || (not a && not b)
same_value (num a) (num b) = number_eq a b
same_value (str a) (str b) = a == b
same_value _ _ = false

abbrev same_keys : Texts → Json → Json → Bool
same_keys texts a b = join "," (texts.sort (keys a)) == join "," (texts.sort (keys b))

unfoldable mutual
  pub deep_equal : Texts → Json → Json → Bool
  deep_equal texts (arr xs) b =
      (is_array b || is_plain b) && (same_keys texts (arr xs) b && each_item_equal texts 0 xs b)
  deep_equal texts (obj fs) b =
      (is_array b || is_plain b) && (same_keys texts (obj fs) b && each_field_equal texts fs b)
  deep_equal texts a b = same_value a b

  each_item_equal : Texts → ℕ → Items → Json → Bool
  each_item_equal texts i nil b = true
  each_item_equal texts i (cons x xs) b =
      (elim (own (show_nat i) b) [ none ↦ false | some y ↦ deep_equal texts x y ])
      && each_item_equal texts (suc i) xs b

  each_field_equal : Texts → Fields → Json → Bool
  each_field_equal texts end b = true
  each_field_equal texts (field k v fs) b =
      (elim (own k b) [ none ↦ false | some y ↦ deep_equal texts v y ])
      && each_field_equal texts fs b

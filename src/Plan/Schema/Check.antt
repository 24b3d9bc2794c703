-- ===== src/Plan/Schema/Check.antt =====
-- `validateNode` and `validateSchema` of src/plan-runtime/schema-validate.ts.
use nano_symphony.Common.{
  ℕ, suc, String, Bool, true, false, ◌||◌, Option, none, some, List, [], ◌∷◌, ◌++◌, map, ◌==◌,
  if◌then◌else◌, is_some, one_of, length, any, concat, show_nat,
}
use nano_symphony.Json.{
  Number, Json, Items, Fields, bool, num, str, arr, obj, nil, cons, end, field, get_field,
}
use nano_symphony.Plan.Schema.{
  Texts, number, number_lt, is_truthy, items_list, keys, join, type_of, is_array, is_plain,
  matches_type, deep_equal,
}

-- `Array.isArray(s.type) ? s.type : [s.type]`
abbrev pub types_of : Json → List Json
types_of (arr ts) = items_list ts
types_of t = t ∷ []

unfoldable pub type_fits : Option Json → Json → Bool
unfolding matches_type
type_fits none d = true
type_fits (some t) d = any (λ x. matches_type x d) (types_of t)

abbrev pub type_error : Texts → String → Option Json → Json → String
type_error texts path none d = ""
type_error texts path (some t) d = concat (
    path ∷ ": expected type " ∷ join "|" (map texts.print (types_of t)) ∷ ", got " ∷ type_of d ∷ [])

abbrev pub enum_error : Texts → String → Items → String
enum_error texts path vs =
    concat
      (path ∷ ": value not in enum [" ∷ join ", " (map texts.stringify (items_list vs)) ∷ "]" ∷ [])

-- a bound of the schema that is a number and is not kept, with its word
abbrev pub below : Texts → String → Number → Option Json → List String
below texts what n (some (num m)) =
    if number_lt n m then concat (what ∷ texts.print (num m) ∷ []) ∷ [] else []
below texts what n _ = []

abbrev pub above : Texts → String → Number → Option Json → List String
above texts what n (some (num m)) =
    if number_lt m n then concat (what ∷ texts.print (num m) ∷ []) ∷ [] else []
above texts what n _ = []

abbrev measure_text : Texts → String → String → Number → String
measure_text texts path what n = concat (path ∷ what ∷ texts.print (num n) ∷ [])

abbrev between : Texts → String → String → String → Number → Option Json → Option Json → List String
between texts text low high n least most =
    below texts (concat (text ∷ low ∷ [])) n least ++ above texts (concat (text ∷ high ∷ [])) n most

-- the bounds on a text or a number
unfoldable pub bound_errors : Texts → Fields → Json → String → List String
bound_errors texts s (str t) path =
    let n = number (texts.text_length t) in
    between texts (measure_text texts path ": string length " n) " < minLength " " > maxLength " n
      (get_field "minLength" s) (get_field "maxLength" s)
bound_errors texts s (num n) path =
    between texts (measure_text texts path ": " n) " < minimum " " > maximum " n
      (get_field "minimum" s) (get_field "maximum" s)
bound_errors texts s d path = []

unfoldable pub length_errors : Texts → Fields → Items → String → List String
length_errors texts s xs path =
    let n = number (length (items_list xs)) in
    between texts (measure_text texts path ": array length " n) " < minItems " " > maxItems " n
      (get_field "minItems" s) (get_field "maxItems" s)

-- `key in obj`, for a key that is turned into a text
abbrev pub missing : Texts → String → Fields → List Json → List String
missing texts path o [] = []
missing texts path o (k ∷ ks) =
    let rest = missing texts path o ks in
    if is_some (get_field (texts.print k) o)
    then rest
    else concat (path ∷ ": missing required property '" ∷ texts.print k ∷ "'" ∷ []) ∷ rest

unfoldable pub required_errors : Texts → Option Json → Json → String → List String
required_errors texts (some (arr ks)) (obj o) path = missing texts path o (items_list ks)
required_errors texts _ _ path = []

abbrev foreign : String → List String → List String → List String
foreign path allowed [] = []
foreign path allowed (k ∷ ks) =
    let rest = foreign path allowed ks in
    if one_of k allowed
    then rest
    else concat (path ∷ ": additional property '" ∷ k ∷ "' not allowed" ∷ []) ∷ rest

-- where `additionalProperties` is false and `properties` is an object or an array
unfoldable pub additional_errors : Option Json → Option Json → Json → String → List String
additional_errors (some (bool false)) (some props) (obj o) path =
    if is_array props || is_plain props then foreign path (keys props) (keys (obj o)) else []
additional_errors _ _ _ path = []

unfoldable pub each_item : (Json → String → List String) → ℕ → Items → String → List String
each_item check i nil path = []
each_item check i (cons x xs) path =
    check x (concat (path ∷ "[" ∷ show_nat i ∷ "]" ∷ [])) ++ each_item check (suc i) xs path

-- the errors of an enum that is an array, and the others where there is none
abbrev pub enum_or : List String → (Items → List String) → Option Json → List String
enum_or rest listed (some (arr vs)) = listed vs
enum_or rest listed _ = rest

-- an object's property, where it is there
unfoldable pub property_errors :
    (Json → String → List String) → String → Fields → String → List String
property_errors check k o path = elim (get_field k o) [
  | none ↦ []
  | some x ↦ check x (concat (path ∷ "." ∷ k ∷ []))
]

unfoldable mutual
  unfolding type_fits bound_errors deep_equal length_errors each_item required_errors
      additional_errors property_errors

  pub validate_node : Texts → Json → Json → String → List String
  validate_node texts (obj s) d path =
      let rest =
        bound_errors texts s d path
        ++ items_errors texts s s d path
        ++ required_errors texts (get_field "required" s) d path
        ++ properties_errors texts s d path
        ++ additional_errors (get_field "additionalProperties" s) (get_field "properties" s) d
            path in
      if type_fits (get_field "type" s) d
      then enum_or rest
          (λ vs.
            if any (λ v. deep_equal texts v d) (items_list vs)
            then []
            else enum_error texts path vs ∷ [])
          (get_field "enum" s)
      else type_error texts path (get_field "type" s) d ∷ []
  validate_node texts schema d path = []

  -- the items of an array; the first fields are those of the whole schema, the second ones those searched
  items_errors : Texts → Fields → Fields → Json → String → List String
  items_errors texts s (field k v fs) (arr xs) path =
      let here =
        length_errors texts s xs path ++ each_item (λ x p. validate_node texts v x p) 0 xs path in
      let rest = items_errors texts s fs (arr xs) path in
      if k == "items" then (if is_truthy v then here else []) else rest
  items_errors texts s fs d path = []

  properties_errors : Texts → Fields → Json → String → List String
  properties_errors texts (field k v fs) (obj o) path =
      let here = each_entry texts v o path in
      let rest = properties_errors texts fs (obj o) path in if k == "properties" then here else rest
  properties_errors texts fs d path = []

  -- `Object.entries(s.properties)`
  each_entry : Texts → Json → Fields → String → List String
  each_entry texts (obj ps) o path = each_property texts ps o path
  each_entry texts (arr ps) o path = each_position texts 0 ps o path
  each_entry texts _ o path = []

  each_property : Texts → Fields → Fields → String → List String
  each_property texts end o path = []
  each_property texts (field k v ps) o path =
      property_errors (λ x p. validate_node texts v x p) k o path ++ each_property texts ps o path

  each_position : Texts → ℕ → Items → Fields → String → List String
  each_position texts i nil o path = []
  each_position texts i (cons v ps) o path =
      property_errors (λ x p. validate_node texts v x p) (show_nat i) o path
      ++ each_position texts (suc i) ps o path

pub record ValidationResult : Type 0 where
  pub valid : Bool
  pub errors : List String

abbrev pub verdict : List String → ValidationResult
verdict [] = record { valid = true; errors = [] }
verdict (e ∷ es) = record { valid = false; errors = e ∷ es }

unfoldable pub validate_schema : Texts → Json → Json → ValidationResult
validate_schema texts schema d = verdict (validate_node texts schema d "$")

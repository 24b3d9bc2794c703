-- ===== src/Json.antt =====
-- JSON values as the program handles them: what JSON.parse gives and JSON.stringify takes. A number is
-- a finite double, written as its floor and the rest of it in units of 2 ^ -1074, so the order and the
-- test for a whole number are exact. A text column that only ever holds `JSON.stringify(v)` is
-- modelled by the value `v`.
use nano_symphony.Common.{List, [], ◌∷◌, ℕ, String, Bool, Option, none, some, ◌==◌, if◌then◌else◌}
use nano_symphony.Common.Int.{ℤ, pos}

pub record Number : Type 0 where
  pub floor : ℤ
  pub rest : ℕ

mutual
  pub data Json : Type 0 where
    null : Json
    bool : Bool → Json
    num : Number → Json
    str : String → Json
    arr : Items → Json
    obj : Fields → Json

  pub data Items : Type 0 where
    nil : Items
    cons : Json → Items → Items

  pub data Fields : Type 0 where
    end : Fields
    field : String → Json → Fields → Fields

abbrev pub whole : ℕ → Json
whole n = num (record { floor = pos n; rest = 0 })

-- The fields of an object are listed in the order in which they were set.
abbrev pub get_field : String → Fields → Option Json
get_field k end = none
get_field k (field j v fs) = if j == k then some v else get_field k fs

-- `v.k`, with nothing where `v` is no object or lacks the field
abbrev pub get : String → Json → Option Json
get k (obj fs) = get_field k fs
get k _ = none

abbrev pub get_text : String → Json → Option String
get_text k v = elim (get k v) [ some (str s) ↦ some s | _ ↦ none ]

-- an object given by its fields
abbrev pub fields_of : List (String × Json) → Fields
fields_of [] = end
fields_of ((k, v) ∷ rest) = field k v (fields_of rest)

abbrev pub object : List (String × Json) → Json
object fields = obj (fields_of fields)

-- a text that may be missing, or null
abbrev pub text_or_null : Option String → Json
text_or_null none = null
text_or_null (some s) = str s

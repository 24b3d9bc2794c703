-- ===== src/Mcp/Tools/Fields.antt =====
-- Reading a tool's parameters the way the Zod schemas of src/mcp/tools.ts and `nullishString` of
-- src/http/schemas.ts read them: what fails to parse is nothing. The length of a text stands outside.
use nano_symphony.Common.{
  ℕ, String, Bool, true, false, ◌&&◌, Option, none, some, List, [], ◌∷◌, ◌==◌, leb, nat_eq,
  if◌then◌else◌, length,
}
use nano_symphony.Common.Int.{pos}
use nano_symphony.Json.{Number, Json, Items, null, num, str, arr, obj, nil, cons, get}

infixl 5 ◌>>=◌ ◌>>◌
abbrev pub ◌>>=◌ {ℓ κ} : {A : Type ℓ} {B : Type κ} → Option A → (A → Option B) → Option B
none >>= f = none
some a >>= f = f a

abbrev pub ◌>>◌ {ℓ} : {B : Type ℓ} → Option (Unit {0}) → Option B → Option B
m >> k = m >>= λ _. k

abbrev pub guard : Bool → Option (Unit {0})
guard true = some tt
guard false = none

-- a schema: how a value is read
abbrev pub Reader {ℓ} : Type ℓ → Type ℓ
Reader A = Json → Option A

abbrev pub an_object : Reader (Unit {0})
an_object (obj fs) = some tt
an_object _ = none

abbrev pub a_text : Reader String
a_text (str s) = some s
a_text _ = none

abbrev pub a_number : Reader Number
a_number (num n) = some n
a_number _ = none

-- z.string().max(m)
abbrev pub at_most : (String → ℕ) → ℕ → Reader String
at_most text_length m v = do s ← a_text v; guard (leb (text_length s) m); some s

-- z.number().int().min(least)
abbrev pub whole_from : ℕ → Reader ℕ
whole_from least (num n) = elim n.floor [
  | pos k ↦ if nat_eq n.rest 0 && leb least k then some k else none
  | _ ↦ none
]
whole_from least _ = none

abbrev each_item {ℓ} : {A : Type ℓ} → Reader A → Items → Option (List A)
each_item read nil = some []
each_item read (cons v vs) = read v >>= λ x. each_item read vs >>= λ xs. some (x ∷ xs)

-- z.array(…)
abbrev pub an_array {ℓ} : {A : Type ℓ} → Reader A → Reader (List A)
an_array read (arr vs) = each_item read vs
an_array read _ = none

-- z.array(…).max(m)
abbrev pub an_array_to {ℓ} : {A : Type ℓ} → ℕ → Reader A → Reader (List A)
an_array_to m read v = an_array read v >>= λ xs. if leb (length xs) m then some xs else none

-- a field that must be there
abbrev pub field_of {ℓ} : {A : Type ℓ} → Reader A → String → Json → Option A
field_of read k v = get k v >>= read

abbrev maybe {ℓ} : {A : Type ℓ} → Reader A → Option Json → Option (Option A)
maybe read none = some none
maybe read (some v) = read v >>= λ x. some (some x)

-- .optional()
abbrev pub optional {ℓ} : {A : Type ℓ} → Reader A → String → Json → Option (Option A)
optional read k v = maybe read (get k v)

-- `nullishString()`: null and the empty text are nothing
abbrev pub nullish_string : Reader (Option String)
nullish_string null = some none
nullish_string (str s) = some (if s == "" then none else some s)
nullish_string _ = none

abbrev pub flat : Option (Option String) → Option String
flat none = none
flat (some s) = s

-- ===== src/Plan/Schema/Meaning.antt =====
-- What a schema demands of data, beside the code of src/plan-runtime/schema-validate.ts that tests it.
use nano_symphony.Common.{
  String, ◌≡◌, refl, subst, ◌≢◌, ◌⊎◌, inl, inr, Bool, true, false, Option, none, some, List, [],
  ◌∷◌, nat_eq, nat_eq_iff, if◌then◌else◌, Bool-cases, is_some, any, All,
}
use nano_symphony.Json.{Number, Json, Items, Fields, null, bool, num, str, arr, obj, get_field}
use nano_symphony.Plan.Schema.{Texts, number, number_lt, items_list, matches_type, is_type_named}
use nano_symphony.Plan.Schema.Check.{
  below, above, types_of, type_fits, bound_errors, validate_schema,
}
use nano_symphony.Plan.Schema.Laws.{left_empty, right_empty, validate_schema-accepts}

-- the names of the types that data is not of
abbrev pub foreign_names : Json → List String
foreign_names null = "object" ∷ "array" ∷ "string" ∷ "number" ∷ "integer" ∷ "boolean" ∷ []
foreign_names (bool b) = "object" ∷ "array" ∷ "string" ∷ "number" ∷ "integer" ∷ "null" ∷ []
foreign_names (str s) = "object" ∷ "array" ∷ "number" ∷ "integer" ∷ "boolean" ∷ "null" ∷ []
foreign_names (num n) = "object" ∷ "array" ∷ "string" ∷ "boolean" ∷ "null" ∷ []
foreign_names (arr xs) = "object" ∷ "string" ∷ "number" ∷ "integer" ∷ "boolean" ∷ "null" ∷ []
foreign_names (obj fs) = "array" ∷ "string" ∷ "number" ∷ "integer" ∷ "boolean" ∷ "null" ∷ []

-- A number that is called an integer is whole.
abbrev pub IsWhole : String → Json → Type 0
IsWhole t (num n) = (t ≢ "integer") ⊎ (n.rest ≡ 0)
IsWhole t _ = Unit

-- Data is of a named type. A name that JSON Schema does not know says nothing.
abbrev pub IsNamed : String → Json → Type 0
IsNamed t d = All (λ n. t ≢ n) (foreign_names d) × IsWhole t d

refuse :
    (t : String) (d : Json) (n : String)
    → is_type_named t d ≡ true
    → is_type_named n d ≡ false
    → t ≢ n
refuse t d n h unfit e = let yes = subst (λ x. is_type_named x d ≡ true) e h in cc

refuse_all :
    (t : String) (d : Json) (ns : List String)
    → is_type_named t d ≡ true
    → All (λ n. is_type_named n d ≡ false) ns
    → All (λ n. t ≢ n) ns
refuse_all t d [] h unfit = tt
refuse_all t d (n ∷ ns) h unfit = (refuse t d n h unfit.0, refuse_all t d ns h unfit.1)

foreign_refused : (d : Json) → All (λ n. is_type_named n d ≡ false) (foreign_names d)
foreign_refused null = (refl, (refl, (refl, (refl, (refl, (refl, tt))))))
foreign_refused (bool b) = (refl, (refl, (refl, (refl, (refl, (refl, tt))))))
foreign_refused (str s) = (refl, (refl, (refl, (refl, (refl, (refl, tt))))))
foreign_refused (num n) = (refl, (refl, (refl, (refl, (refl, tt)))))
foreign_refused (arr xs) = (refl, (refl, (refl, (refl, (refl, (refl, tt))))))
foreign_refused (obj fs) = (refl, (refl, (refl, (refl, (refl, (refl, tt))))))

whole : (t : String) (d : Json) → is_type_named t d ≡ true → IsWhole t d
whole t (num n) h = elim (Bool-cases (nat_eq n.rest 0)) [
  | inl e ↦ inr ((nat_eq_iff n.rest 0).0 e)
  | inr e ↦ inl (refuse t (num n) "integer" h e)
]
whole t null h = tt
whole t (bool b) h = tt
whole t (str s) h = tt
whole t (arr xs) h = tt
whole t (obj fs) h = tt

is_type_named-IsNamed : (t : String) (d : Json) → is_type_named t d ≡ true → IsNamed t d
is_type_named-IsNamed t d h = (refuse_all t d (foreign_names d) h (foreign_refused d), whole t d h)

-- One of the list at least has the property.
abbrev pub IsSome : {A : Type 0} → (A → Type 0) → List A → Type 0
IsSome P [] = ⊥
IsSome P (x ∷ xs) = P x ⊎ IsSome P xs

-- what a schema's `type` says: nothing where it is missing, and of several types one is enough
abbrev pub IsOne : Json → Json → Type 0
IsOne (str t) d = IsNamed t d
IsOne _ d = Unit

abbrev pub IsTyped : Option Json → Json → Type 0
IsTyped none d = Unit
IsTyped (some t) d = IsSome (λ x. IsOne x d) (types_of t)

IsOne-of : (t d : Json) → matches_type t d ≡ true → IsOne t d
unfolding matches_type
IsOne-of (str t) d h = is_type_named-IsNamed t d h
IsOne-of null d h = tt
IsOne-of (bool b) d h = tt
IsOne-of (num n) d h = tt
IsOne-of (arr xs) d h = tt
IsOne-of (obj fs) d h = tt

any-IsSome :
    {A : Type 0} (p : A → Bool) (P : A → Type 0)
    → ((x : A) → p x ≡ true → P x)
    → (xs : List A) → any p xs ≡ true
    → IsSome P xs
any-IsSome p P f [] h = cc
any-IsSome p P f (x ∷ xs) h = elim (Bool-cases (p x)) [
  | inl e ↦ inl (f x e)
  | inr e ↦ inr (any-IsSome p P f xs (rw e at h))
]

type_fits-IsTyped : (t : Option Json) (d : Json) → type_fits t d ≡ true → IsTyped t d
unfolding type_fits
type_fits-IsTyped none d h = tt
type_fits-IsTyped (some t) d h =
    any-IsSome (λ x. matches_type x d) (λ x. IsOne x d) (λ x e. IsOne-of x d e) (types_of t) h

-- A number is at least a bound, or at most one, where the bound is there and a number.
abbrev pub AtLeast : Option Json → Number → Type 0
AtLeast (some (num m)) n = number_lt n m ≡ false
AtLeast _ n = Unit

abbrev pub AtMost : Option Json → Number → Type 0
AtMost (some (num m)) n = number_lt m n ≡ false
AtMost _ n = Unit

-- A text keeps to the bounds on its length, and a number to those on itself.
abbrev pub IsBounded : Texts → Fields → Json → Type 0
IsBounded texts s (str t) =
    AtLeast (get_field "minLength" s) (number (texts.text_length t))
    × AtMost (get_field "maxLength" s) (number (texts.text_length t))
IsBounded texts s (num n) = AtLeast (get_field "minimum" s) n × AtMost (get_field "maximum" s) n
IsBounded texts s _ = Unit

no_error : (e : String) (b : Bool) → (if b then e ∷ [] else []) ≡ [] → b ≡ false
no_error e true h = cc
no_error e false h = refl

at_least :
    (texts : Texts) (what : String) (n : Number) (o : Option Json)
    → below texts what n o ≡ []
    → AtLeast o n
at_least texts what n none h = tt
at_least texts what n (some null) h = tt
at_least texts what n (some (bool b)) h = tt
at_least texts what n (some (num m)) h = no_error _ (number_lt n m) h
at_least texts what n (some (str t)) h = tt
at_least texts what n (some (arr xs)) h = tt
at_least texts what n (some (obj fs)) h = tt

at_most :
    (texts : Texts) (what : String) (n : Number) (o : Option Json)
    → above texts what n o ≡ []
    → AtMost o n
at_most texts what n none h = tt
at_most texts what n (some null) h = tt
at_most texts what n (some (bool b)) h = tt
at_most texts what n (some (num m)) h = no_error _ (number_lt m n) h
at_most texts what n (some (str t)) h = tt
at_most texts what n (some (arr xs)) h = tt
at_most texts what n (some (obj fs)) h = tt

bound_errors-IsBounded :
    (texts : Texts) (s : Fields) (d : Json) → bound_errors texts s d "$" ≡ [] → IsBounded texts s d
unfolding bound_errors
bound_errors-IsBounded texts s (str t) h = (
  at_least texts _ (number (texts.text_length t)) (get_field "minLength" s) (left_empty _ _ h),
  at_most texts _ (number (texts.text_length t)) (get_field "maxLength" s) (right_empty _ _ h),
)
bound_errors-IsBounded texts s (num n) h = (
  at_least texts _ n (get_field "minimum" s) (left_empty _ _ h),
  at_most texts _ n (get_field "maximum" s) (right_empty _ _ h),
)
bound_errors-IsBounded texts s null h = tt
bound_errors-IsBounded texts s (bool b) h = tt
bound_errors-IsBounded texts s (arr xs) h = tt
bound_errors-IsBounded texts s (obj fs) h = tt

-- An object has every property that an array of required ones lists.
abbrev pub HasRequired : Texts → Option Json → Json → Type 0
HasRequired texts (some (arr ks)) (obj o) =
    All (λ k. is_some (get_field (texts.print k) o) ≡ true) (items_list ks)
HasRequired texts _ _ = Unit

required-HasRequired :
    (texts : Texts) (q : Option Json) (d : Json)
    → ((o : Fields) (ks : Items)
        → d ≡ obj o
        → q ≡ some (arr ks)
        → All (λ k. is_some (get_field (texts.print k) o) ≡ true) (items_list ks))
    → HasRequired texts q d
required-HasRequired texts (some (arr ks)) (obj o) h = h o ks refl refl
required-HasRequired texts (some (arr ks)) null h = tt
required-HasRequired texts (some (arr ks)) (bool b) h = tt
required-HasRequired texts (some (arr ks)) (num n) h = tt
required-HasRequired texts (some (arr ks)) (str t) h = tt
required-HasRequired texts (some (arr ks)) (arr xs) h = tt
required-HasRequired texts none d h = tt
required-HasRequired texts (some null) d h = tt
required-HasRequired texts (some (bool b)) d h = tt
required-HasRequired texts (some (num n)) d h = tt
required-HasRequired texts (some (str t)) d h = tt
required-HasRequired texts (some (obj fs)) d h = tt

-- Data that a schema object without `enum` accepts is of its type, or of one of its types; a text keeps to minLength and maxLength, a number to minimum and maximum, and an object has every
-- property that the schema requires.
pub validate_schema-IsTyped :
    (texts : Texts) (s : Fields) (d : Json)
    → (validate_schema texts (obj s) d).valid ≡ true
    → get_field "enum" s ≡ none
    → IsTyped (get_field "type" s) d
      × IsBounded texts s d
      × HasRequired texts (get_field "required" s) d
validate_schema-IsTyped texts s d accepted free =
    let (typed, listed, rest) = validate_schema-accepts texts s d accepted in
    let (bounds, needs) = rest free in
    (
      type_fits-IsTyped (get_field "type" s) d typed,
      bound_errors-IsBounded texts s d bounds,
      required-HasRequired texts (get_field "required" s) d needs,
    )

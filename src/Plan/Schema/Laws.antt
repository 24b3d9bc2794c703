-- ===== src/Plan/Schema/Laws.antt =====
-- What the validator of src/plan-runtime/schema-validate.ts accepts.
use nano_symphony.Common.{
  String, ◌≡◌, refl, inl, inr, Bool, true, false, Option, none, some, List, [], ◌∷◌, ◌++◌,
  if◌then◌else◌, Bool-cases, is_some, any, All,
}
use nano_symphony.Json.{Json, Items, Fields, arr, obj, get_field}
use nano_symphony.Plan.Schema.{Texts, items_list, deep_equal}
use nano_symphony.Plan.Schema.Check.{
  type_fits, bound_errors, missing, required_errors, validate_node, verdict, validate_schema,
}

module _ {ℓ} {A : Type ℓ} where
  pub left_empty : (xs ys : List A) → xs ++ ys ≡ [] → xs ≡ []
  left_empty [] ys h = refl
  left_empty (x ∷ xs) ys h = cc

  pub right_empty : (xs ys : List A) → xs ++ ys ≡ [] → ys ≡ []
  right_empty [] ys h = h
  right_empty (x ∷ xs) ys h = cc

missing-All :
    (texts : Texts) (path : String) (o : Fields) (ks : List Json)
    → missing texts path o ks ≡ []
    → All (λ k. is_some (get_field (texts.print k) o) ≡ true) ks
missing-All texts path o [] h = tt
missing-All texts path o (k ∷ ks) h = elim (Bool-cases (is_some (get_field (texts.print k) o))) [
  | inl e ↦ (e, missing-All texts path o ks (rw e at h))
  | inr e ↦ let bad = rw e at h in cc
]

verdict-valid : (es : List String) → (verdict es).valid ≡ true → es ≡ []
verdict-valid [] h = refl
verdict-valid (e ∷ es) h = cc

if_empty :
    (b : Bool) (xs : List String) (e : String) (es : List String)
    → (if b then xs else e ∷ es) ≡ []
    → (b ≡ true) × (xs ≡ [])
if_empty true xs e es h = (refl, h)
if_empty false xs e es h = cc

if_else_empty : (b : Bool) (e : String) → (if b then [] else e ∷ []) ≡ [] → b ≡ true
if_else_empty true e h = refl
if_else_empty false e h = cc

required-All :
    (texts : Texts) (path : String) (q : Option Json) (d : Json) (o : Fields) (ks : Items)
    → required_errors texts q d path ≡ []
    → d ≡ obj o
    → q ≡ some (arr ks)
    → All (λ k. is_some (get_field (texts.print k) o) ≡ true) (items_list ks)
unfolding required_errors
required-All texts path q d o ks h is_o needs =
    missing-All texts path o (items_list ks) (rw (needs, is_o) at h)

-- Data that a schema object accepts has the type of the schema, is one of the values of its enum, and, where it has
-- no enum, is within the schema's bounds and has every property that the schema requires.
pub validate_schema-accepts :
    (texts : Texts) (s : Fields) (d : Json)
    → (validate_schema texts (obj s) d).valid ≡ true
    → (type_fits (get_field "type" s) d ≡ true)
      × ((vs : Items)
          → get_field "enum" s ≡ some (arr vs)
          → any (λ v. deep_equal texts v d) (items_list vs) ≡ true)
      × (get_field "enum" s ≡ none
          → (bound_errors texts s d "$" ≡ [])
            × ((o : Fields) (ks : Items)
                → d ≡ obj o
                → get_field "required" s ≡ some (arr ks)
                → All (λ k. is_some (get_field (texts.print k) o) ≡ true) (items_list ks)))
unfolding validate_schema validate_node
validate_schema-accepts texts s d accepted =
    let none_wrong : validate_node texts (obj s) d "$" ≡ [] = verdict-valid _ accepted in
    let by_type = if_empty (type_fits (get_field "type" s) d) _ _ [] none_wrong in
    (
      by_type.0,
      λ vs e. if_else_empty (any (λ v. deep_equal texts v d) (items_list vs)) _ (rw e at by_type.1),
      λ e.
          let free = rw e at by_type.1 in
          (
            left_empty (bound_errors texts s d "$") _
                (left_empty _ _ (left_empty _ _ (left_empty _ _ free))),
            λ o ks is_o needs.
                required-All texts "$" (get_field "required" s) d o ks
                  (right_empty _ (required_errors texts (get_field "required" s) d "$")
                    (left_empty _ _ (left_empty _ _ free)))
                  is_o needs,
          ),
    )

-- ===== src/Plan/Diff/Steps/Laws.antt =====
-- What diffSteps of src/http/plan-diff.ts does not miss.
use nano_symphony.Common.{
  String, ◌≡◌, refl, sym, ap, ◌∙◌, inl, inr, Bool, true, false, Option, none, some, List, [], ◌∷◌,
  ◌++◌, arith, ◌==◌, eq_iff, if◌then◌else◌, Bool-cases, Option-cases, or_else, is_some,
}
use nano_symphony.Plan.Diff.Steps.{
  PlanStep, step_of, same_description, changed_fields, change_if, change_of, step_changes,
  steps_not_in, diff_steps, shown_step,
}

append_nil_parts {ℓ} : {A : Type ℓ} (xs ys : List A) → xs ++ ys ≡ [] → (xs ≡ []) × (ys ≡ [])
append_nil_parts [] ys h = (refl, h)
append_nil_parts (x ∷ xs) ys h = cc

none-some : (s : PlanStep) → none ≡ some s → ⊥
none-some s h = cc

-- A step with the id of one that is looked up is found under the id as well.
not_in_complete :
    (others steps : List PlanStep) (id : String)
    → steps_not_in others steps ≡ []
    → is_some (step_of steps id) ≡ true
    → is_some (step_of others id) ≡ true
unfolding steps_not_in step_of
not_in_complete others [] id h k = cc
not_in_complete others (s ∷ ss) id h k =
    ground (arith, eq_iff s.id id, not_in_complete others ss id)

missing :
    (others steps : List PlanStep) (id : String) (s : PlanStep)
    → steps_not_in others steps ≡ []
    → step_of steps id ≡ some s
    → step_of others id ≡ none
    → ⊥
missing others steps id s h k l =
    let found = not_in_complete others steps id h (ap is_some k) in
    false_true (sym (ap is_some l) ∙ found)
  where
    false_true : false ≡ true → ⊥
    false_true e = cc

same_description_eq : (a b : Option String) → same_description a b ≡ true → a ≡ b
same_description_eq none none h = refl
same_description_eq none (some t) h = cc
same_description_eq (some s) none h = cc
same_description_eq (some s) (some t) h = ap some ((eq_iff s t).0 h)

no_fields :
    (old step : PlanStep) (a b : Bool)
    → change_if old step
        ((if a then [] else "title" ∷ []) ++ (if b then [] else "description" ∷ []))
      ≡ []
    → (a ≡ true) × (b ≡ true)
no_fields old step true true h = (refl, refl)
no_fields old step true false h = cc
no_fields old step false b h = cc

-- No entry for a step means that its title and description are the old ones.
change_if-nil :
    (old step : PlanStep)
    → change_if old step (changed_fields old step) ≡ []
    → shown_step (some old) ≡ shown_step (some step)
change_if-nil old step h =
    let same =
      no_fields old step (old.title == step.title)
        (same_description old.description step.description) h in
    let titles = (eq_iff old.title step.title).0 same.0 in
    let descriptions = same_description_eq old.description step.description same.1 in
    ap (λ t. some (t, old.description)) titles ∙ ap (λ d. some (step.title, d)) descriptions

step_changes_complete :
    (old_steps steps : List PlanStep) (id : String) (o s : PlanStep)
    → step_changes old_steps steps ≡ []
    → step_of steps id ≡ some s
    → step_of old_steps id ≡ some o
    → shown_step (some o) ≡ shown_step (some s)
unfolding step_changes change_of step_of
step_changes_complete old_steps [] id o s h k l = cc
step_changes_complete old_steps (t ∷ ts) id o s h k l =
    let parts =
      append_nil_parts (change_of (step_of old_steps t.id) t) (step_changes old_steps ts) h in
    elim (Option-cases (step_of ts id)) [
      | inr (u, f) ↦
          step_changes_complete old_steps ts id o s parts.1
            (f ∙ ap (λ x. or_else x (if t.id == id then some t else none)) (sym f) ∙ k) l
      | inl n ↦ elim (Bool-cases (t.id == id)) [
        | inl e ↦
            let same_id = (eq_iff t.id id).0 e in
            let same_step : some t ≡ some s = rw (n, e) at k in
            let old : step_of old_steps t.id ≡ some o = ap (step_of old_steps) same_id ∙ l in
            change_if-nil o t (ap (λ x. change_of x t) (sym old) ∙ parts.0)
            ∙ ap shown_step same_step
        | inr e ↦ absurd (none-some s (rw (n, e) at k))
      ]
    ]

-- When diffSteps finds no step added, removed or changed, the two lists of steps show the same
-- title and description under every id, and have the same ids.
pub diff_steps_complete :
    (old_steps new_steps : List PlanStep) (id : String)
    → (diff_steps old_steps new_steps).added ≡ []
    → (diff_steps old_steps new_steps).removed ≡ []
    → (diff_steps old_steps new_steps).changed ≡ []
    → shown_step (step_of old_steps id) ≡ shown_step (step_of new_steps id)
unfolding diff_steps
diff_steps_complete old_steps new_steps id added removed changed =
    elim (Option-cases (step_of old_steps id)) [
      | inl n ↦ elim (Option-cases (step_of new_steps id)) [
        | inl m ↦ ap shown_step (n ∙ sym m)
        | inr (s, f) ↦ absurd (missing old_steps new_steps id s added f n)
      ]
      | inr (o, e) ↦ elim (Option-cases (step_of new_steps id)) [
        | inl m ↦ absurd (missing new_steps old_steps id o removed e m)
        | inr (s, f) ↦
            ap shown_step e
            ∙ step_changes_complete old_steps new_steps id o s changed f e
            ∙ ap shown_step (sym f)
      ]
    ]

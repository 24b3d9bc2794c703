-- ===== src/Plan/Diff/Steps.antt =====
-- The steps and the estimates of two revisions, and the whole comparison: diffSteps, diffEstimates and
-- computePlanDiff of src/http/plan-diff.ts. A map of steps is the list that it is built from, where
-- the last step with an id counts. JSON.stringify is an argument.
pub mod Laws
use nano_symphony.Common.{
  ℕ, String, Bool, true, false, not, Option, none, some, List, [], ◌∷◌, ◌++◌, map, ◌==◌,
  if◌then◌else◌, get_or, or_else, is_some, keep,
}
use nano_symphony.Json.{Json}
use nano_symphony.Plan.Diff.Hunks.{LineDiffHunk, diff_markdown}

pub record PlanStep : Type 0 where
  pub id : String
  pub title : String
  pub description : Option String
  pub after : Option (List String)

-- `new Map(steps.map((s) => [s.id, s])).get(id)`
unfoldable pub step_of : List PlanStep → String → Option PlanStep
step_of [] id = none
step_of (s ∷ ss) id = or_else (step_of ss id) (if s.id == id then some s else none)

pub record StepChange : Type 0 where
  pub from : PlanStep
  pub to : PlanStep
  pub changed_fields : List String

pub record StepsDiff : Type 0 where
  pub added : List PlanStep
  pub removed : List PlanStep
  pub changed : List StepChange

abbrev pub same_description : Option String → Option String → Bool
same_description none none = true
same_description (some s) (some t) = s == t
same_description _ _ = false

abbrev pub changed_fields : PlanStep → PlanStep → List String
changed_fields old step =
    (if old.title == step.title then [] else "title" ∷ [])
    ++ (if same_description old.description step.description then [] else "description" ∷ [])

-- no entry where no field has changed
abbrev pub change_if : PlanStep → PlanStep → List String → List StepChange
change_if old step [] = []
change_if old step (f ∷ fs) = record { from = old; to = step; changed_fields = f ∷ fs } ∷ []

unfoldable pub change_of : Option PlanStep → PlanStep → List StepChange
change_of none step = []
change_of (some old) step = change_if old step (changed_fields old step)

unfoldable pub step_changes : List PlanStep → List PlanStep → List StepChange
unfolding step_of change_of
step_changes old_steps [] = []
step_changes old_steps (s ∷ ss) = change_of (step_of old_steps s.id) s ++ step_changes old_steps ss

-- the steps of the second list whose ids the first does not have
unfoldable pub steps_not_in : List PlanStep → List PlanStep → List PlanStep
unfolding step_of
steps_not_in others = keep (λ s. not (is_some (step_of others s.id)))

unfoldable pub diff_steps : List PlanStep → List PlanStep → StepsDiff
unfolding steps_not_in step_changes
diff_steps old_steps new_steps = record {
  added = steps_not_in old_steps new_steps;
  removed = steps_not_in new_steps old_steps;
  changed = step_changes old_steps new_steps;
}

-- The own properties of the estimates, in their order.
abbrev Estimates : Type 0
Estimates = List (String × Json)

unfoldable pub estimate : String → Estimates → Option Json
estimate k [] = none
estimate k ((j, v) ∷ rest) = if j == k then some v else estimate k rest

pub record EstimatesDiff : Type 0 where
  pub added : List (String × Json)
  pub removed : List (String × Json)
  pub changed : List (String × Json × Json)

abbrev no_difference : EstimatesDiff
no_difference = record { added = []; removed = []; changed = [] }

-- what the key adds to the three
unfoldable pub note_estimate :
    (Json → String) → String → Option Json → Option Json → EstimatesDiff → EstimatesDiff
note_estimate stringify k none none d = d
note_estimate stringify k none (some v) d = record d { added = (k, v) ∷ d.added }
note_estimate stringify k (some v) none d = record d { removed = (k, v) ∷ d.removed }
note_estimate stringify k (some v) (some w) d =
    if stringify v == stringify w then d else record d { changed = (k, v, w) ∷ d.changed }

unfoldable pub note_estimates :
    (Json → String) → Estimates → Estimates → List String → EstimatesDiff
unfolding estimate note_estimate
note_estimates stringify old_estimates new_estimates [] = no_difference
note_estimates stringify old_estimates new_estimates (k ∷ ks) =
    note_estimate stringify k (estimate k old_estimates) (estimate k new_estimates)
      (note_estimates stringify old_estimates new_estimates ks)

-- `allKeys`, each key once
unfoldable pub all_keys : Estimates → Estimates → List String
unfolding estimate
all_keys old_estimates new_estimates =
    map (λ e. e.0) old_estimates
    ++ map (λ e. e.0)
        (keep (λ (e : String × Json). not (is_some (estimate e.0 old_estimates))) new_estimates)

unfoldable pub diff_estimates :
    (Json → String) → Option Estimates → Option Estimates → EstimatesDiff
unfolding note_estimates all_keys
diff_estimates stringify old_estimates new_estimates =
    let old = get_or old_estimates [] in
    let new = get_or new_estimates [] in note_estimates stringify old new (all_keys old new)

pub record PlanPayload : Type 0 where
  pub markdown : String
  pub revision : ℕ
  pub steps : Option (List PlanStep)
  pub estimates : Option Estimates

pub record PlanDiff : Type 0 where
  pub from_revision : ℕ
  pub to_revision : ℕ
  pub markdown : List LineDiffHunk
  pub steps : StepsDiff
  pub estimates : EstimatesDiff

unfoldable pub compute_plan_diff :
    (String → List String) → (Json → String) → PlanPayload → PlanPayload → PlanDiff
unfolding diff_steps diff_estimates
compute_plan_diff split stringify from_payload to_payload = record {
  from_revision = from_payload.revision;
  to_revision = to_payload.revision;
  markdown = diff_markdown split from_payload.markdown to_payload.markdown;
  steps = diff_steps (get_or from_payload.steps []) (get_or to_payload.steps []);
  estimates = diff_estimates stringify from_payload.estimates to_payload.estimates;
}

-- what the page shows of a step under an id
abbrev pub shown_step : Option PlanStep → Option (String × Option String)
shown_step none = none
shown_step (some s) = some (s.title, s.description)

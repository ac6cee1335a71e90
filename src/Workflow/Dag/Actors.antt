-- ===== src/Workflow/Dag/Actors.antt =====
-- Actor resolution of dag.ts: the member that a step waits for.
pub mod Waiting
pub mod Sorting
use octeam.Prelude.{
  ℕ, String, Bool, true, false, not, ◌&&◌, ◌||◌, Option, none, some, List, [], ◌∷◌, ◌++◌, leb,
  get_or, or_else, is_some, get_elem?, str_eq, eq_string, if◌then◌else◌,
}
use octeam.Prelude.Assoc.{lookup, insert}
use octeam.Prelude.Member.{includes}
use octeam.Workflow.Types.{
  invalid, EnsembleResult, JoinPolicy, reduce, select, JoinMetadata, GateFields, StepKind, task,
  gate, fanout, join, Step, TaskView,
}

-- `[...indices].sort((left, right) => left - right)`
insert_sorted : ℕ → List ℕ → List ℕ
insert_sorted i [] = i ∷ []
insert_sorted i (j ∷ js) = if leb i j then i ∷ j ∷ js else j ∷ insert_sorted i js

unfoldable pub sorted_workflow_indices : List ℕ → List ℕ
unfolding insert_sorted
sorted_workflow_indices [] = []
sorted_workflow_indices (i ∷ is) = insert_sorted i (sorted_workflow_indices is)

-- `policy === "reduce" || policy === "select"`
abbrev pub has_reducer : Option JoinPolicy → Bool
has_reducer (some reduce) = true
has_reducer (some select) = true
has_reducer _ = false

abbrev pub is_name : Option String → String → Bool
is_name none name = false
is_name (some actor) name = str_eq actor name

abbrev singleton : Option String → List String
singleton none = []
singleton (some name) = name ∷ []

module _ {F : Type 0} where
  -- `step.ensembleResults?.[name]`
  abbrev pub ensemble_result : GateFields F → String → Option (EnsembleResult F)
  ensemble_result g name = lookup name (get_or g.ensemble_results [])

  join_actor : Step F → Option (JoinMetadata F) → Option String
  join_actor step none = none
  join_actor step (some j) =
      if not (is_some step.dispatched_at) || not (has_reducer j.join_policy)
      then none
      else or_else step.dispatched_actor j.reducer_member

  kind_actor : StepKind F → Step F → Option String
  unfolding join_actor
  kind_actor (task t) step = or_else step.dispatched_actor (some t.member)
  kind_actor (gate g) step = or_else step.dispatched_actor g.verifier
  kind_actor (join m) step = join_actor step m
  kind_actor (fanout m) step = none

  unfoldable pub workflow_step_actor : Option (Step F) → Option String
  unfolding kind_actor
  workflow_step_actor none = none
  workflow_step_actor (some step) = kind_actor step.kind step

  unfoldable pub get_active_workflow_step_indices : TaskView F → List ℕ
  get_active_workflow_step_indices t = get_or t.active_step_indices (t.current_stage_index ∷ [])

  -- A verifier of an ensemble gate whose result is still pending.
  unfoldable pub is_pending_verifier : GateFields F → List String → String → Bool
  unfolding includes
  is_pending_verifier g names name = includes names name && not (is_some (ensemble_result g name))

  -- The verifiers of an ensemble gate, `none` for any other step.
  abbrev pub ensemble : StepKind F → Option (GateFields F × List String)
  ensemble (gate g) = elim g.verifiers [ none ↦ none | some names ↦ some (g, names) ]
  ensemble _ = none

  -- The body of the loop: is the member dispatched to this step?
  unfoldable pub waits_for : Option (Step F) → String → Bool
  unfolding workflow_step_actor is_pending_verifier
  waits_for none name = false
  waits_for (some step) name = if step.completed then false else elim (ensemble step.kind) [
    | some (g, names) ↦ is_pending_verifier g names name
    | none ↦ is_name (workflow_step_actor (some step)) name
  ]

  unfoldable pub find_waiting : List (Step F) → String → List ℕ → Option ℕ
  unfolding waits_for
  find_waiting steps name [] = none
  find_waiting steps name (i ∷ is) =
      if waits_for (get_elem? steps i) name then some i else find_waiting steps name is

  unfoldable pub find_active_workflow_step_index_for_member : TaskView F → String → Option ℕ
  unfolding find_waiting get_active_workflow_step_indices
  find_active_workflow_step_index_for_member t name =
      find_waiting (get_or t.steps []) name (get_active_workflow_step_indices t)

  pending_verifiers : GateFields F → List String → List String
  pending_verifiers g [] = []
  pending_verifiers g (name ∷ names) =
      let rest = pending_verifiers g names in
      if is_some (ensemble_result g name) then rest else name ∷ rest

  unfoldable pub step_actors : Option (Step F) → List String
  unfolding pending_verifiers workflow_step_actor
  step_actors none = []
  step_actors (some step) = elim (ensemble step.kind) [
    | some (g, names) ↦ pending_verifiers g names
    | none ↦ singleton (workflow_step_actor (some step))
  ]

  unfoldable pub collect_actors : List (Step F) → List ℕ → List String
  unfolding step_actors
  collect_actors steps [] = []
  collect_actors steps (i ∷ is) = step_actors (get_elem? steps i) ++ collect_actors steps is

  unfoldable pub get_active_workflow_step_actors : TaskView F → List String
  unfolding collect_actors get_active_workflow_step_indices
  get_active_workflow_step_actors t =
      collect_actors (get_or t.steps []) (get_active_workflow_step_indices t)

  abbrev pub unavailable : EnsembleResult F
  unavailable = record {
    verdict = invalid;
    score = none;
    confidence = none;
    issues = none;
    rationale = some "verifier unavailable";
    diff = none;
    parse_failed = some false;
  }

  record_vote : GateFields F → String → GateFields F
  record_vote g name = record g {
    ensemble_results = some (insert name unavailable (get_or g.ensemble_results []));
  }

  -- The step after the call, and what the call returns.
  unfoldable pub record_unavailable_ensemble_verifier :
      Option (Step F) → String → Option (Step F) × Bool
  unfolding is_pending_verifier record_vote
  record_unavailable_ensemble_verifier none name = (none, false)
  record_unavailable_ensemble_verifier (some step) name = elim (ensemble step.kind) [
    | none ↦ (some step, false)
    | some (g, names) ↦
        if is_pending_verifier g names name
        then (some (record step { kind = gate (record_vote g name) }), true)
        else (some step, false)
  ]

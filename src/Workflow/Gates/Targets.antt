-- ===== src/Workflow/Gates/Targets.antt =====
-- src/orchestration/workflow/gate-targets.ts: the steps whose output a gate verifies.
pub mod Found
use octeam.Prelude.{
  ℕ, zero, suc, Bool, true, false, not, Option, none, some, List, [], ◌∷◌, get_elem?, is_some,
  if◌then◌else◌,
}
use octeam.Workflow.Types.{BranchMetadata, GateFields, StepKind, task, gate, join, Step}
use octeam.Workflow.Dag.Actors.{sorted_workflow_indices}
use octeam.Workflow.Dag.Joins.{is_same_workflow_branch}

abbrev pub nearest_target : Option ℕ → List ℕ
nearest_target none = []
nearest_target (some i) = i ∷ []

module _ {F : Type 0} where
  -- In the gate's branch, or outside of all branches if the gate is.
  unfoldable pub in_scope : Option BranchMetadata → Step F → Bool
  unfolding is_same_workflow_branch
  in_scope none target = not (is_some target.branch)
  in_scope (some branch) target = is_same_workflow_branch target branch

  abbrev pub gate_fields : StepKind F → Option (GateFields F)
  gate_fields (gate g) = some g
  gate_fields _ = none

  -- `steps[index]` where it is a gate
  abbrev pub gate_at : List (Step F) → ℕ → Option (Step F × GateFields F)
  gate_at steps index = elim (get_elem? steps index) [
    | none ↦ none
    | some step ↦ elim (gate_fields step.kind) [ none ↦ none | some g ↦ some (step, g) ]
  ]

  abbrev pub is_referenceable : Option BranchMetadata → StepKind F → Step F → Bool
  is_referenceable scope (join m) target = true
  is_referenceable scope (task t) target = in_scope scope target
  is_referenceable scope _ target = false

  unfoldable pub can_gate_reference_task : List (Step F) → ℕ → ℕ → Bool
  unfolding in_scope
  can_gate_reference_task steps gate_index target_index = elim (gate_at steps gate_index) [
    | none ↦ false
    | some (own, g) ↦ elim (get_elem? steps target_index) [
      | none ↦ false
      | some target ↦ is_referenceable own.branch target.kind target
    ]
  ]

  -- The loop from `i - 1` down; `none` stands for -1.
  unfoldable pub preceding_from : List (Step F) → ℕ → ℕ → Option ℕ
  unfolding can_gate_reference_task
  preceding_from steps gate_index zero = none
  preceding_from steps gate_index (suc i) =
      let rest = preceding_from steps gate_index i in
      if can_gate_reference_task steps gate_index i then some i else rest

  unfoldable pub preceding_task_index : List (Step F) → ℕ → Option ℕ
  unfolding preceding_from
  preceding_task_index steps gate_index = preceding_from steps gate_index gate_index

  unfoldable pub keep_referenceable : List (Step F) → ℕ → List ℕ → List ℕ
  unfolding can_gate_reference_task
  keep_referenceable steps gate_index [] = []
  keep_referenceable steps gate_index (i ∷ is) =
      let rest = keep_referenceable steps gate_index is in
      if can_gate_reference_task steps gate_index i then i ∷ rest else rest

  -- One target index, or the nearest step.
  unfoldable pub single_target : List (Step F) → ℕ → Option ℕ → List ℕ
  unfolding can_gate_reference_task preceding_task_index
  single_target steps gate_index (some i) =
      if can_gate_reference_task steps gate_index i then i ∷ [] else []
  single_target steps gate_index none = nearest_target (preceding_task_index steps gate_index)

  unfoldable pub target_indices_of : List (Step F) → ℕ → GateFields F → Option (List ℕ) → List ℕ
  unfolding keep_referenceable sorted_workflow_indices single_target
  target_indices_of steps gate_index g (some (i ∷ is)) =
      sorted_workflow_indices (keep_referenceable steps gate_index (i ∷ is))
  target_indices_of steps gate_index g (some []) =
      single_target steps gate_index g.target_step_index
  target_indices_of steps gate_index g none = single_target steps gate_index g.target_step_index

  unfoldable pub gate_target_indices : List (Step F) → ℕ → List ℕ
  unfolding target_indices_of
  gate_target_indices steps gate_index = elim (gate_at steps gate_index) [
    | none ↦ []
    | some (step, g) ↦ target_indices_of steps gate_index g g.target_step_indices
  ]

  -- `none` stands for -1.
  unfoldable pub gate_target_index : List (Step F) → ℕ → Option ℕ
  unfolding gate_target_indices
  gate_target_index steps gate_index = get_elem? (gate_target_indices steps gate_index) 0

-- ===== src/Workflow/Dag/Ready.antt =====
-- The ready set of dag.ts. `collectReadyWorkflowStepIndices` and `collectWorkflowSuccessors` call
-- each other and share three mutable objects: the steps, the result, and the visited indices.
pub mod Induction
pub mod Total
pub mod Sound
use octeam.Prelude.{
  ℕ, zero, suc, ◌+◌, Option, none, some, List, [], ◌∷◌, get_elem?, length, map, eq_nat, get_or,
  if◌then◌else◌,
}
use octeam.Prelude.Member.{includes, push_unique}
use octeam.Workflow.Types.{
  BranchRange, FanoutMetadata, StepKind, task, gate, fanout, join, Step, TaskView,
}
use octeam.Workflow.JoinPolicy.Ieee.{Fraction}
use octeam.Workflow.Dag.Actors.{get_active_workflow_step_indices}
use octeam.Workflow.Dag.Joins.{is_same_workflow_branch, is_workflow_join_satisfied}

pub record Walk (F : Type 0) : Type 0 where
  pub steps : List (Step F)
  pub ready : List ℕ
  pub visited : List ℕ

module _ {F : Type 0} where
  -- One call after another; `none` is a walk that ran out of fuel.
  unfoldable pub visit_all : (ℕ → Walk F → Option (Walk F)) → List ℕ → Walk F → Option (Walk F)
  visit_all go [] w = some w
  visit_all go (i ∷ is) w = elim (go i w) [ none ↦ none | some v ↦ visit_all go is v ]

  -- `fanoutBranchHeadIndices`
  unfoldable pub branch_heads : Option (FanoutMetadata F) → List ℕ
  branch_heads none = []
  branch_heads (some m) = map (λ (r : BranchRange). r.start_index) m.branch_ranges

  -- The index that `collectWorkflowSuccessors` goes on to.
  unfoldable pub successor : List (Step F) → ℕ → Step F → ℕ
  unfolding is_same_workflow_branch
  successor steps i step = elim step.branch [
    | none ↦ i + 1
    | some branch ↦ elim (get_elem? steps (i + 1)) [
      | none ↦ branch.join_index
      | some next ↦ if is_same_workflow_branch next branch then i + 1 else branch.join_index
    ]
  ]

  unfoldable pub push_ready : ℕ → Walk F → Walk F
  unfolding push_unique includes
  push_ready i w = record w { ready = push_unique w.ready i }

module _ {F : Type 0} ⦃fr : Fraction F⦄ where
  unfoldable pub visit_join : ℕ → Step F → Walk F → Walk F
  unfolding push_ready is_workflow_join_satisfied
  visit_join i step w =
      let (steps, opens) = is_workflow_join_satisfied w.steps step in
      let v : Walk F = record w { steps = steps } in if opens then push_ready i v else v

  unfoldable pub visit_kind :
      (ℕ → Walk F → Option (Walk F)) → ℕ → Step F → StepKind F → Walk F → Option (Walk F)
  unfolding push_ready visit_all branch_heads successor visit_join
  visit_kind go i step (fanout m) w = visit_all go (branch_heads m) w
  visit_kind go i step (task t) w =
      if step.completed then go (successor w.steps i step) w else some (push_ready i w)
  visit_kind go i step (gate g) w =
      if step.completed then go (successor w.steps i step) w else some (push_ready i w)
  visit_kind go i step (join m) w =
      if step.completed then go (successor w.steps i step) w else some (visit_join i step w)

  unfoldable pub visit : (ℕ → Walk F → Option (Walk F)) → ℕ → Walk F → Option (Walk F)
  unfolding visit_kind includes
  visit go i w = if includes w.visited i then some w else elim (get_elem? w.steps i) [
    | none ↦ some (record w { visited = i ∷ w.visited })
    | some step ↦ visit_kind go i step step.kind (record w { visited = i ∷ w.visited })
  ]

  -- `collectReadyWorkflowStepIndices`, with fuel for the depth of the calls.
  unfoldable pub collect : ℕ → ℕ → Walk F → Option (Walk F)
  unfolding visit
  collect zero i w = none
  collect (suc fuel) i w = visit (collect fuel) i w

  -- The loop over the active indices, each with a visited set of its own.
  unfoldable pub collect_active : ℕ → List ℕ → Walk F → Option (Walk F)
  unfolding collect
  collect_active fuel [] w = some w
  collect_active fuel (i ∷ is) w = elim (collect fuel i (record w { visited = [] })) [
    | none ↦ none
    | some v ↦ collect_active fuel is v
  ]

  -- The steps as the call leaves them, and the indices that it returns.
  unfoldable pub ready_workflow_step_indices : TaskView F → Option (List (Step F) × List ℕ)
  unfolding collect_active get_active_workflow_step_indices
  ready_workflow_step_indices t =
      let steps = get_or t.steps [] in
      let start : Walk F = record { steps = steps; ready = []; visited = [] } in
      elim (collect_active (suc (length steps)) (get_active_workflow_step_indices t) start) [
        | none ↦ none
        | some w ↦ some (w.steps, w.ready)
      ]

-- ===== src/Workflow/Dispatch/Verifiers.antt =====
-- src/orchestration/workflow/engine.ts: `dispatchGateStep`, `dispatchEnsembleGate` and
-- `settleEnsembleGate`, up to the prompts. For an ensemble `send` says which of its verifiers the
-- prompt reaches.
use octeam.Prelude.{
  ℕ, String, Bool, not, ◌||◌, none, some, List, [], ◌∷◌, get_or, or_else, str_eq, is_some,
  if◌then◌else◌,
}
use octeam.Prelude.Assoc.{lookup}
use octeam.Workflow.Types.{GateFields, Step}
use octeam.Workflow.JoinPolicy.Ieee.{Fraction}
use octeam.Workflow.Dag.Actors.{record_unavailable_ensemble_verifier}
use octeam.Workflow.Gates.Targets.{gate_at, gate_target_indices}
use octeam.Workflow.Gates.Ensemble.{aggregate_ensemble_verdict}
use octeam.Workflow.Engine.State.{
  WorkflowRun, Next, halt, steps_of_run, erase_all, mark_workflow_step_dispatched,
}
use octeam.Workflow.Verdicts.Settle.{update_step}
use octeam.Workflow.Verdicts.Collect.{of_aggregate, route_verdict}
use octeam.Modes.Signoff.{Reviewer}
use octeam.Workflow.Dispatch.Send.{
  find_live, live_workflow_actor, keep_names, last_name, reaches, missing_inputs, clear_last_output,
  prompted, refuse_or, prompt_one, Dispatched, not_dispatched, sends, settled,
}

module _ {F : Type 0} where
  abbrev pub has_result : GateFields F → String → Bool
  unfolding lookup
  has_result g name = is_some (lookup name (get_or g.ensemble_results []))

  -- The verifiers that cannot answer count as INVALID.
  unfoldable pub record_unavailable_names : List String → Step F → Step F
  unfolding record_unavailable_ensemble_verifier
  record_unavailable_names [] step = step
  record_unavailable_names (name ∷ names) step =
      record_unavailable_names names
        (get_or (record_unavailable_ensemble_verifier (some step) name).0 step)

  abbrev pub ensemble_prompted : ℕ → String → List String → Step F → Step F
  ensemble_prompted now uuid asked step =
      let marked = mark_workflow_step_dispatched now (clear_last_output step) in
      record marked {
        runtime = record marked.runtime {
          dispatched_actor = last_name marked.dispatched_actor asked;
          correlation_id = elim asked [
            | [] ↦ marked.correlation_id
            | name ∷ names ↦ or_else marked.correlation_id (some uuid)
          ];
        };
      }

  -- Every verifier without a result is asked that has a session.
  unfoldable pub prompt_verifiers :
      List Reviewer
      → (String → Bool)
      → ℕ
      → String
      → WorkflowRun F
      → ℕ
      → GateFields F
      → List String
      → WorkflowRun F × Dispatched
  unfolding keep_names find_live has_result lookup erase_all mark_workflow_step_dispatched
      record_unavailable_names
  prompt_verifiers members send now uuid run index g names =
      let open_names = keep_names (λ name. not (has_result g name)) names in
      let asked = keep_names (λ name. is_some (find_live members (some name))) open_names in
      let failed = keep_names (λ name. not (reaches members send name)) open_names in
      let after =
        update_step index (ensemble_prompted now uuid asked)
          (record run { responses = erase_all asked run.responses }) in
      elim (keep_names (reaches members send) open_names) [
        | [] ↦ (after, not_dispatched)
        | name ∷ sent ↦
            (update_step index (record_unavailable_names failed) after, sends (name ∷ sent))
      ]

module _ {F : Type 0} ⦃fr : Fraction F⦄ where
  unfoldable pub settle_ensemble_gate :
      ℕ → WorkflowRun F → ℕ → Step F → GateFields F → String → WorkflowRun F × Next
  unfolding aggregate_ensemble_verdict route_verdict
  settle_ensemble_gate now run index step g name =
      if not (is_some g.ensemble_results) || is_some g.verdict
      then (run, halt)
      else elim (aggregate_ensemble_verdict g) [
        | none ↦ (run, halt)
        | some a ↦ route_verdict now run index step g name (of_aggregate a)
      ]

  abbrev pub as_settled : WorkflowRun F × Next → WorkflowRun F × Dispatched
  as_settled out = (out.0, settled out.1)

  -- `name` is the first of the verifiers.
  unfoldable pub dispatch_ensemble_gate :
      List Reviewer
      → (String → Bool)
      → ℕ
      → String
      → WorkflowRun F
      → ℕ
      → Step F
      → GateFields F
      → String
      → List String
      → WorkflowRun F × Dispatched
  unfolding keep_names has_result lookup settle_ensemble_gate prompt_verifiers
  dispatch_ensemble_gate members send now uuid run index step g name names =
      elim (keep_names (λ n. not (has_result g n)) (name ∷ names)) [
        | [] ↦ as_settled (
            settle_ensemble_gate now (update_step index clear_last_output run) index
              (clear_last_output step) g name)
        | n ∷ ns ↦ prompt_verifiers members send now uuid run index g (name ∷ names)
      ]

  -- No target is `false`.
  unfoldable pub guard_targets :
      ℕ → List ℕ → WorkflowRun F → WorkflowRun F × Dispatched → WorkflowRun F × Dispatched
  unfolding missing_inputs
  guard_targets index [] run next = (run, not_dispatched)
  guard_targets index (k ∷ ks) run next =
      refuse_or index (missing_inputs (steps_of_run run) (k ∷ ks)) run next

  unfoldable pub dispatch_single_gate :
      List Reviewer
      → ℕ
      → String
      → WorkflowRun F
      → ℕ
      → GateFields F
      → List ℕ
      → WorkflowRun F × Dispatched
  unfolding prompted live_workflow_actor guard_targets
  dispatch_single_gate members now uuid run index g targets =
      if str_eq (get_or g.verifier "") ""
      then (run, not_dispatched)
      else elim (live_workflow_actor members g.verifier g.fallback_verifier) [
        | none ↦ (run, not_dispatched)
        | some actor ↦ guard_targets index targets run (prompt_one now uuid run index actor)
      ]

  -- By the gate's `verifiers`
  unfoldable pub dispatch_gate :
      List String
      → List Reviewer
      → (String → Bool)
      → ℕ
      → String
      → WorkflowRun F
      → ℕ
      → Step F
      → GateFields F
      → List ℕ
      → WorkflowRun F × Dispatched
  unfolding guard_targets dispatch_ensemble_gate dispatch_single_gate
  dispatch_gate [] members send now uuid run index step g targets =
      dispatch_single_gate members now uuid run index g targets
  dispatch_gate (name ∷ names) members send now uuid run index step g targets =
      guard_targets index targets run
        (dispatch_ensemble_gate members send now uuid run index step g name names)

  unfoldable pub dispatch_gate_step :
      List Reviewer → (String → Bool) → ℕ → String → WorkflowRun F → ℕ → WorkflowRun F × Dispatched
  unfolding gate_target_indices dispatch_gate
  dispatch_gate_step members send now uuid run index = elim (gate_at (steps_of_run run) index) [
    | none ↦ (run, not_dispatched)
    | some (step, g) ↦
        dispatch_gate (get_or g.verifiers []) members send now uuid run index step g
          (gate_target_indices (steps_of_run run) index)
  ]

-- ===== src/Workflow/Invariants/Gotos.antt =====
-- What a clean check of invariants.ts says of the gates' jumps at run time.
use octeam.Prelude.{
  ℕ, zero, suc, ◌+◌, ◌≡◌, ◌≢◌, ◌⊎◌, inl, inr, ap, sym, ◌∙◌, true, false, not, ◌&&◌, Option, none,
  some, List, [], ◌∷◌, ◌++◌, arith, get_or, get_elem?, is_some, Option-cases,
}
use octeam.Workflow.Types.{BranchMetadata, GateFields, Step, TaskView}
use octeam.Workflow.JoinPolicy.{is_true}
use octeam.Workflow.JoinPolicy.Ieee.{Fraction}
use octeam.Workflow.Dag.Joins.{is_same_workflow_branch}
use octeam.Workflow.Gates.Targets.{gate_at, gate_target_indices, in_scope}
use octeam.Workflow.Gates.Targets.Found.{gate_at-kind}
use octeam.Workflow.Gates.Conditions.{can_gate_goto_step}
use octeam.Workflow.Invariants.{
  GotoField, skipped_incomplete, both_verifiers, pass_goto, fail_goto, invalid_goto, report,
  check_active_step_indices,
}
use octeam.Workflow.Invariants.Active.{append-empty, get_elem?-none}
use octeam.Workflow.Invariants.GateChecks.{
  check_explicit_targets, goto_leaves_scope, check_goto, check_gotos, check_counters,
  check_gate_step, check_targets,
}
use octeam.Workflow.Invariants.StepChecks.{
  check_own_branch, check_kind, check_step, check_steps_from, check_workflow_invariants,
}

module _ {F : Type 0} where
  scope_kept :
      (own : Option BranchMetadata) (target : Step F)
      → goto_leaves_scope own target.branch ≡ false
      → in_scope own target ≡ true
  unfolding in_scope is_same_workflow_branch
  scope_kept none target kept = ground (arith, kept)
  scope_kept (some own) target kept = elim (Option-cases target.branch) [
    | inl e ↦ absurd (ground (arith, e, kept))
    | inr (b, e) ↦ ground (arith, e, kept)
  ]

  -- A jump that is checked is one that the gate may make.
  goto_checked :
      (steps : List (Step F)) (index t : ℕ) (own : Step F) (g : GateFields F) (field : GotoField)
      → gate_at steps index ≡ some (own, g)
      → check_goto steps index own.branch field (some t) ≡ []
      → (can_gate_goto_step steps index t ≡ true) × (t ≢ index)
  unfolding check_goto can_gate_goto_step
  goto_checked steps index t own g field at clean = elim (Option-cases (get_elem? steps t)) [
    | inl e ↦ absurd (ground (arith, e, clean, get_elem?-none steps t e))
    | inr (target, e) ↦
        (ground (arith, e, at, clean, scope_kept own.branch target), ground (arith, clean))
  ]

  gate_checked :
      (steps : List (Step F)) (index : ℕ) (own : Step F) (g : GateFields F)
      → check_gate_step steps index own g ≡ []
      → check_gotos steps index own g ≡ []
  unfolding check_gate_step
  gate_checked steps index own g clean =
      let targets = gate_target_indices steps index in
      let before =
        check_explicit_targets index g targets
        ++ check_targets steps index g targets
        ++ report (is_some g.verifier && is_some g.verifiers) (both_verifiers index) in
      let gotos = check_gotos steps index own g in
      (append-empty before gotos
        (append-empty (before ++ gotos) (check_counters index own g) clean).0).1

  field_checked :
      (steps : List (Step F)) (index t : ℕ) (own : Step F) (g : GateFields F)
      → check_gotos steps index own g ≡ []
      → (g.on_pass_goto ≡ some t) ⊎ (g.on_fail_goto ≡ some t) ⊎ (g.on_invalid_goto ≡ some t)
      → (field : GotoField) × (check_goto steps index own.branch field (some t) ≡ [])
  field_checked steps index t own g clean h =
      let checks = check_goto steps index own.branch in
      let passes = checks pass_goto g.on_pass_goto in
      let fails = checks fail_goto g.on_fail_goto in
      let (first, on_invalid) =
        append-empty (passes ++ fails) (checks invalid_goto g.on_invalid_goto) clean in
      let (on_pass, on_fail) = append-empty passes fails first in
      elim h [
        | inl e ↦ (pass_goto, ap (check_goto steps index own.branch pass_goto) (sym e) ∙ on_pass)
        | inr (inl e) ↦
            (fail_goto, ap (check_goto steps index own.branch fail_goto) (sym e) ∙ on_fail)
        | inr (inr e) ↦
            (invalid_goto, ap (check_goto steps index own.branch invalid_goto) (sym e) ∙ on_invalid)
      ]

module _ {F : Type 0} ⦃fr : Fraction F⦄ where
  kind_checked :
      (steps : List (Step F)) (index : ℕ) (step : Step F)
      → check_step steps index step ≡ []
      → check_kind steps index step step.kind ≡ []
  unfolding check_step
  kind_checked steps index step clean =
      let of_branch = check_own_branch steps index step.branch in
      let of_kind = check_kind steps index step step.kind in
      let skipped =
        report (is_true step.skipped && not step.completed) (skipped_incomplete index) in
      (append-empty (skipped ++ of_branch) of_kind clean).1

  steps_checked :
      (steps rest : List (Step F)) (start i k : ℕ) (step : Step F)
      → check_steps_from steps start rest ≡ []
      → get_elem? rest i ≡ some step
      → start + i ≡ k
      → check_step steps k step ≡ []
  unfolding check_steps_from
  steps_checked steps [] start i k step clean at at_k = absurd (ground (arith, at))
  steps_checked steps (x ∷ xs) start zero k step clean at at_k =
      let first =
        (append-empty (check_step steps start x) (check_steps_from steps (suc start) xs) clean).0 in
      let same : start ≡ k = omega (arith, at_k) in cc
  steps_checked steps (x ∷ xs) start (suc i) k step clean at at_k =
      let later =
        (append-empty (check_step steps start x) (check_steps_from steps (suc start) xs) clean).1 in
      steps_checked steps xs (suc start) i k step later at (omega (arith, at_k))

  -- If the check of a workflow finds nothing, then each jump that a gate of it is configured for leads
  -- to another step that the gate may jump to: a task or a gate in the gate's own scope. So no jump of
  -- the workflow is dropped at run time because of its target.
  pub checked_gotos :
      (t : TaskView F) (index target : ℕ) (own : Step F) (g : GateFields F)
      → check_workflow_invariants t ≡ []
      → gate_at (get_or t.steps []) index ≡ some (own, g)
      → (g.on_pass_goto ≡ some target)
        ⊎ (g.on_fail_goto ≡ some target)
        ⊎ (g.on_invalid_goto ≡ some target)
      → (can_gate_goto_step (get_or t.steps []) index target ≡ true) × (target ≢ index)
  unfolding check_workflow_invariants check_step check_kind
  checked_gotos t index target own g clean at configured =
      let steps = get_or t.steps [] in
      let (here, kind) = gate_at-kind steps index own g at in
      let every =
        (append-empty (check_active_step_indices steps t.active_step_indices)
          (check_steps_from steps 0 steps) clean).1 in
      let of_kind =
        kind_checked steps index own
          (steps_checked steps steps 0 index index own every here (omega arith)) in
      let of_gate : check_gate_step steps index own g ≡ [] =
        ap (check_kind steps index own) (sym kind) ∙ of_kind in
      let (field, found) =
        field_checked steps index target own g (gate_checked steps index own g of_gate)
          configured in
      goto_checked steps index target own g field at found

-- ===== src/Workflow/Dispatch/Inputs.antt =====
-- What engine.ts guards before it dispatches a step: every output that the step reads is there.
use octeam.Prelude.{
  ℕ, ◌≡◌, ◌≢◌, inl, inr, refl, subst, String, Bool, true, ◌||◌, some, List, [], ◌∷◌, arith, get_or,
  get_elem?, str_eq, nat_eq, nat_eq_iff, eq_nat, Option-cases, Bool-cases,
}
use octeam.Prelude.Member.{includes}
use octeam.Workflow.Types.{GateFields, TaskFields, Step}
use octeam.Workflow.JoinPolicy.Ieee.{Fraction}
use octeam.Workflow.Gates.Targets.{gate_at, gate_target_indices}
use octeam.Workflow.Engine.State.{WorkflowRun, steps_of_run}
use octeam.Modes.Signoff.{Reviewer}
use octeam.Workflow.Dispatch.Send.{
  Dispatched, not_dispatched, live_workflow_actor, is_supplied, missing_inputs, refuse_or,
  prompt_one, task_at, dispatch_task_step,
}
use octeam.Workflow.Dispatch.Verifiers.{
  dispatch_ensemble_gate, guard_targets, dispatch_single_gate, dispatch_gate, dispatch_gate_step,
}

module _ {F : Type 0} where
  none_missing :
      (steps : List (Step F)) (inputs : List ℕ)
      → missing_inputs steps inputs ≡ []
      → (i : ℕ) → includes inputs i ≡ true
      → is_supplied (get_elem? steps i) ≡ true
  unfolding missing_inputs includes
  none_missing steps [] clean i h = absurd (cc)
  none_missing steps (x ∷ xs) clean i h = elim (Bool-cases (is_supplied (get_elem? steps x))) [
    | inl there ↦
        let later = none_missing steps xs (ground (arith, clean, there)) i in
        elim (Bool-cases (nat_eq x i)) [
          | inl same ↦
              subst (λ k. is_supplied (get_elem? steps k) ≡ true) ((nat_eq_iff x i).0 same) there
          | inr other ↦ later (ground (arith, h, other))
        ]
    | inr gone ↦ absurd (ground (arith, clean, gone))
  ]

  -- A dispatch that is not refused leaves no input missing.
  refuse_or-clean :
      (index : ℕ) (missing : List ℕ) (run : WorkflowRun F) (next : WorkflowRun F × Dispatched)
      → (refuse_or index missing run next).1 ≢ not_dispatched
      → missing ≡ []
  refuse_or-clean index [] run next goes = refl
  refuse_or-clean index (i ∷ is) run next goes = absurd (goes refl)

  -- A task is prompted only when each step that it declares as an input is completed and was not
  -- skipped.
  task_inputs_supplied :
      (members : List Reviewer) (now : ℕ) (uuid : String) (run : WorkflowRun F) (index : ℕ)
      (step : Step F) (t : TaskFields) (i : ℕ)
      → task_at (steps_of_run run) index ≡ some (step, t)
      → (dispatch_task_step members now uuid run index).1 ≢ not_dispatched
      → includes (get_or step.inputs []) i ≡ true
      → is_supplied (get_elem? (steps_of_run run) i) ≡ true
  unfolding dispatch_task_step
  task_inputs_supplied members now uuid run index step t i at =
      rw (dispatch_task_step, at)
        (elim (Bool-cases (str_eq t.member "" || str_eq t.task "")) [
          | inl blank ↦ rw blank (λ goes. absurd (goes refl))
          | inr full ↦
              rw full
                (elim (Option-cases
                  (live_workflow_actor members (some t.member) t.fallback_member)) [
                    | inl e ↦ rw e (λ goes. absurd (goes refl))
                    | inr (actor, e) ↦ rw e (λ goes.
                        none_missing (steps_of_run run) (get_or step.inputs [])
                          (refuse_or-clean index
                            (missing_inputs (steps_of_run run) (get_or step.inputs [])) run
                            (prompt_one now uuid run index actor) goes)
                          i)
                  ])
        ])

module _ {F : Type 0} ⦃fr : Fraction F⦄ where
  guard-clean :
      (index : ℕ) (targets : List ℕ) (run : WorkflowRun F) (next : WorkflowRun F × Dispatched)
      (k : ℕ)
      → (guard_targets index targets run next).1 ≢ not_dispatched
      → includes targets k ≡ true
      → is_supplied (get_elem? (steps_of_run run) k) ≡ true
  unfolding guard_targets
  guard-clean index [] run next k goes = absurd (goes refl)
  guard-clean index (x ∷ xs) run next k goes =
      none_missing (steps_of_run run) (x ∷ xs)
        (refuse_or-clean index (missing_inputs (steps_of_run run) (x ∷ xs)) run next goes) k

  single-clean :
      (members : List Reviewer) (now : ℕ) (uuid : String) (run : WorkflowRun F) (index : ℕ)
      (g : GateFields F) (targets : List ℕ) (k : ℕ)
      → (dispatch_single_gate members now uuid run index g targets).1 ≢ not_dispatched
      → includes targets k ≡ true
      → is_supplied (get_elem? (steps_of_run run) k) ≡ true
  unfolding dispatch_single_gate
  single-clean members now uuid run index g targets k =
      elim (Bool-cases (str_eq (get_or g.verifier "") "")) [
        | inl blank ↦ rw (dispatch_single_gate, blank) (λ goes. absurd (goes refl))
        | inr full ↦
            rw (dispatch_single_gate, full)
              (elim (Option-cases (live_workflow_actor members g.verifier g.fallback_verifier)) [
                | inl e ↦ rw e (λ goes. absurd (goes refl))
                | inr (actor, e) ↦
                    rw e (guard-clean index targets run (prompt_one now uuid run index actor) k)
              ])
      ]

  by_verifiers :
      (names : List String) (members : List Reviewer) (send : String → Bool) (now : ℕ)
      (uuid : String) (run : WorkflowRun F) (index : ℕ) (step : Step F) (g : GateFields F)
      (targets : List ℕ) (k : ℕ)
      → (dispatch_gate names members send now uuid run index step g targets).1 ≢ not_dispatched
      → includes targets k ≡ true
      → is_supplied (get_elem? (steps_of_run run) k) ≡ true
  unfolding dispatch_gate
  by_verifiers [] members send now uuid run index step g targets k =
      single-clean members now uuid run index g targets k
  by_verifiers (name ∷ names) members send now uuid run index step g targets k =
      guard-clean index targets run
        (dispatch_ensemble_gate members send now uuid run index step g name names) k

  -- The dispatch of a gate prompts its verifiers, or acts on the verdict of an ensemble that has all
  -- its answers already, only when each step that the gate verifies is completed and was not skipped.
  pub gate_targets_supplied :
      (members : List Reviewer) (send : String → Bool) (now : ℕ) (uuid : String)
      (run : WorkflowRun F) (index k : ℕ)
      → (dispatch_gate_step members send now uuid run index).1 ≢ not_dispatched
      → includes (gate_target_indices (steps_of_run run) index) k ≡ true
      → is_supplied (get_elem? (steps_of_run run) k) ≡ true
  unfolding dispatch_gate_step
  gate_targets_supplied members send now uuid run index k =
      let targets = gate_target_indices (steps_of_run run) index in
      elim (Option-cases (gate_at (steps_of_run run) index)) [
        | inl e ↦ rw (dispatch_gate_step, e) (λ goes. absurd (goes refl))
        | inr ((step, g), e) ↦
            rw (dispatch_gate_step, e)
              (by_verifiers (get_or g.verifiers []) members send now uuid run index step g targets
                k)
      ]

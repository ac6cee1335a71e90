-- ===== src/Workflow/Dispatch/Open.antt =====
-- What a dispatch of engine.ts may end a run as.
use octeam.Prelude.{
  ℕ, ◌≡◌, ◌⊎◌, inl, inr, refl, String, Bool, true, false, not, ◌||◌, Option, none, some, List, [],
  ◌∷◌, get_or, or_else, str_eq, Bool-cases, Option-cases, eq_nat,
}
use octeam.Workflow.Types.{GateFields, Step}
use octeam.Workflow.JoinPolicy.Ieee.{Fraction}
use octeam.Workflow.Gates.Targets.{gate_at, gate_target_indices}
use octeam.Workflow.Engine.State.{
  WorkflowRun, RunReason, workflow_complete, frontier_deadlock, steps_of_run,
}
use octeam.Modes.Signoff.{Reviewer}
use octeam.Workflow.Dispatch.Send.{
  Dispatched, not_dispatched, sends, settled, live_workflow_actor, missing_inputs, refuse_or,
  prompt_one, task_at, dispatch_task_step, keep_names, reaches,
}
use octeam.Workflow.Dispatch.Verifiers.{
  has_result, prompt_verifiers, dispatch_ensemble_gate, guard_targets, dispatch_single_gate,
  dispatch_gate, dispatch_gate_step,
}

-- Not ended as complete or as a deadlock.
abbrev pub is_open : Option RunReason → Bool
is_open (some workflow_complete) = false
is_open (some frontier_deadlock) = false
is_open _ = true

pub List-cases {ℓ} :
    {A : Type ℓ} (xs : List A) → (xs ≡ []) ⊎ ((x : A) × (rest : List A) × (xs ≡ x ∷ rest))
List-cases [] = inl refl
List-cases (x ∷ rest) = inr (x, rest, refl)

pub or_else-is_open :
    (a b : Option RunReason) → is_open a ≡ true → is_open b ≡ true → is_open (or_else a b) ≡ true
or_else-is_open none b ha hb = hb
or_else-is_open (some a) b ha hb = ha

module _ {F : Type 0} where
  -- A dispatch that acts on no verdict leaves the run open.
  abbrev pub DispatchOpen : WorkflowRun F × Dispatched → Type 0
  DispatchOpen (run, settled next) = Unit
  DispatchOpen (run, not_dispatched) = is_open run.finished ≡ true
  DispatchOpen (run, sends names) = is_open run.finished ≡ true

  refuse_or-Open :
      (index : ℕ) (missing : List ℕ) (run : WorkflowRun F) (next : WorkflowRun F × Dispatched)
      → DispatchOpen next
      → DispatchOpen (refuse_or index missing run next)
  refuse_or-Open index [] run next h = h
  refuse_or-Open index (k ∷ ks) run next h = refl

  pub dispatch_task-Open :
      (members : List Reviewer) (now : ℕ) (uuid : String) (run : WorkflowRun F) (index : ℕ)
      → is_open run.finished ≡ true
      → DispatchOpen (dispatch_task_step members now uuid run index)
  unfolding dispatch_task_step
  dispatch_task-Open members now uuid run index open_run =
      elim (Option-cases (task_at (steps_of_run run) index)) [
        | inl e ↦ rw (dispatch_task_step, e) open_run
        | inr ((step, t), e) ↦ elim (Bool-cases (str_eq t.member "" || str_eq t.task "")) [
          | inl blank ↦ rw (dispatch_task_step, e, blank) open_run
          | inr full ↦
              elim (Option-cases (live_workflow_actor members (some t.member) t.fallback_member)) [
                | inl gone ↦ rw (dispatch_task_step, e, full, gone) open_run
                | inr (actor, live) ↦
                    rw (dispatch_task_step, e, full, live)
                      (refuse_or-Open index
                        (missing_inputs (steps_of_run run) (get_or step.inputs [])) run
                        (prompt_one now uuid run index actor) open_run)
              ]
        ]
      ]

module _ {F : Type 0} ⦃fr : Fraction F⦄ where
  guard_targets-Open :
      (index : ℕ) (targets : List ℕ) (run : WorkflowRun F) (next : WorkflowRun F × Dispatched)
      → is_open run.finished ≡ true
      → DispatchOpen next
      → DispatchOpen (guard_targets index targets run next)
  unfolding guard_targets
  guard_targets-Open index [] run next open_run h = open_run
  guard_targets-Open index (x ∷ xs) run next open_run h =
      refuse_or-Open index (missing_inputs (steps_of_run run) (x ∷ xs)) run next h

  prompt_verifiers-Open :
      (members : List Reviewer) (send : String → Bool) (now : ℕ) (uuid : String)
      (run : WorkflowRun F) (index : ℕ) (g : GateFields F) (names : List String)
      → is_open run.finished ≡ true
      → DispatchOpen (prompt_verifiers members send now uuid run index g names)
  unfolding prompt_verifiers
  prompt_verifiers-Open members send now uuid run index g names h =
      elim (List-cases
        (keep_names (reaches members send) (keep_names (λ name. not (has_result g name)) names))) [
          | inl e ↦ rw (prompt_verifiers, e) h
          | inr (n, ns, e) ↦ rw (prompt_verifiers, e) h
        ]

  ensemble-Open :
      (members : List Reviewer) (send : String → Bool) (now : ℕ) (uuid : String)
      (run : WorkflowRun F) (index : ℕ) (step : Step F) (g : GateFields F) (name : String)
      (names : List String)
      → is_open run.finished ≡ true
      → DispatchOpen (dispatch_ensemble_gate members send now uuid run index step g name names)
  unfolding dispatch_ensemble_gate
  ensemble-Open members send now uuid run index step g name names h =
      elim (List-cases (keep_names (λ n. not (has_result g n)) (name ∷ names))) [
        | inl e ↦ rw (dispatch_ensemble_gate, e) tt
        | inr (n, ns, e) ↦
            rw (dispatch_ensemble_gate, e)
              (prompt_verifiers-Open members send now uuid run index g (name ∷ names) h)
      ]

  single-Open :
      (members : List Reviewer) (now : ℕ) (uuid : String) (run : WorkflowRun F) (index : ℕ)
      (g : GateFields F) (targets : List ℕ)
      → is_open run.finished ≡ true
      → DispatchOpen (dispatch_single_gate members now uuid run index g targets)
  unfolding dispatch_single_gate
  single-Open members now uuid run index g targets h =
      elim (Bool-cases (str_eq (get_or g.verifier "") "")) [
        | inl blank ↦ rw (dispatch_single_gate, blank) h
        | inr full ↦
            elim (Option-cases (live_workflow_actor members g.verifier g.fallback_verifier)) [
              | inl e ↦ rw (dispatch_single_gate, full, e) h
              | inr (actor, e) ↦
                  rw (dispatch_single_gate, full, e)
                    (guard_targets-Open index targets run (prompt_one now uuid run index actor) h h)
            ]
      ]

  by_verifiers-Open :
      (names : List String) (members : List Reviewer) (send : String → Bool) (now : ℕ)
      (uuid : String) (run : WorkflowRun F) (index : ℕ) (step : Step F) (g : GateFields F)
      (targets : List ℕ)
      → is_open run.finished ≡ true
      → DispatchOpen (dispatch_gate names members send now uuid run index step g targets)
  unfolding dispatch_gate
  by_verifiers-Open [] members send now uuid run index step g targets h =
      single-Open members now uuid run index g targets h
  by_verifiers-Open (name ∷ names) members send now uuid run index step g targets h =
      guard_targets-Open index targets run
        (dispatch_ensemble_gate members send now uuid run index step g name names) h
        (ensemble-Open members send now uuid run index step g name names h)

  pub dispatch_gate-Open :
      (members : List Reviewer) (send : String → Bool) (now : ℕ) (uuid : String)
      (run : WorkflowRun F) (index : ℕ)
      → is_open run.finished ≡ true
      → DispatchOpen (dispatch_gate_step members send now uuid run index)
  unfolding dispatch_gate_step
  dispatch_gate-Open members send now uuid run index h =
      elim (Option-cases (gate_at (steps_of_run run) index)) [
        | inl e ↦ rw (dispatch_gate_step, e) h
        | inr ((step, g), e) ↦
            rw (dispatch_gate_step, e)
              (by_verifiers-Open (get_or g.verifiers []) members send now uuid run index step g
                (gate_target_indices (steps_of_run run) index) h)
      ]

-- ===== src/Workflow/Advance/Loop/Done.antt =====
-- `advanceWorkflowStep` of engine.ts when every step is completed.
use mathlib.Core.Bool.{false≢true}
use octeam.Prelude.{
  ℕ, zero, suc, ◌≡◌, inl, inr, refl, ap, sym, ◌∙◌, Bool, true, false, Option, none, some, List, [],
  ◌∷◌, arith, get_or, get_elem?, length, is_some, Bool-cases, Option-cases, if◌then◌else◌,
}
use octeam.Workflow.Types.{Step, TaskView}
use octeam.Workflow.JoinPolicy.Ieee.{Fraction}
use octeam.Workflow.Dag.Actors.{sorted_workflow_indices, get_active_workflow_step_indices}
use octeam.Workflow.Dag.Ready.{Walk, ready_workflow_step_indices, collect_active}
use octeam.Workflow.Dag.Ready.Induction.{Keeps, collect_active-Holds}
use octeam.Workflow.Dag.Ready.Total.{ready_workflow_step_indices_total}
use octeam.Workflow.Engine.State.{WorkflowRun, Next, workflow_complete, steps_of_run, with_steps}
use octeam.Workflow.Verdicts.Settle.{has_incomplete}
use octeam.Workflow.Advance.Sweep.{Host}
use octeam.Workflow.Advance.Loop.{
  complete_run, first_incomplete, advance_frontier, advance_linear, advance_workflow_step,
}

module _ {F : Type 0} where
  abbrev is_done : Option (Step F) → Bool
  is_done none = true
  is_done (some step) = step.completed

  done-completed :
      (steps : List (Step F)) (i : ℕ) (step : Step F)
      → has_incomplete steps ≡ false
      → get_elem? steps i ≡ some step
      → step.completed ≡ true
  unfolding has_incomplete
  done-completed [] i step h at = absurd (cc)
  done-completed (s ∷ steps) zero step h at = elim (Bool-cases s.completed) [
    | inl done ↦ sym (ap is_done at) ∙ done
    | inr still ↦ absurd (ground (arith, h, still))
  ]
  done-completed (s ∷ steps) (suc i) step h at = elim (Bool-cases s.completed) [
    | inl done ↦ done-completed steps i step (ground (arith, h, done)) at
    | inr still ↦ absurd (ground (arith, h, still))
  ]

  first_incomplete-done :
      (steps : List (Step F)) (i : ℕ)
      → has_incomplete steps ≡ false
      → first_incomplete steps i ≡ none
  unfolding first_incomplete has_incomplete
  first_incomplete-done [] i h = refl
  first_incomplete-done (step ∷ steps) i h = elim (Bool-cases step.completed) [
    | inl done ↦ ground (arith, h, done, first_incomplete-done steps (suc i))
    | inr still ↦ absurd (ground (arith, h, still))
  ]

module _ {F : Type 0} ⦃fr : Fraction F⦄ where
  -- The walk has found nothing and changed nothing.
  abbrev IsIdle : List (Step F) → Walk F → Type 0
  IsIdle steps w = (w.steps ≡ steps) × (w.ready ≡ [])

  Keeps-IsIdle : (steps : List (Step F)) → has_incomplete steps ≡ false → Keeps (IsIdle steps)
  Keeps-IsIdle steps h = record {
    visited = λ w is p. p;
    pushed = λ w i step found todo kind p. absurd (
        false≢true
          (sym todo ∙ done-completed steps i step h (ap (λ xs. get_elem? xs i) (sym p.0) ∙ found)));
    joined = λ w i step found todo kind p. absurd (
        false≢true
          (sym todo ∙ done-completed steps i step h (ap (λ xs. get_elem? xs i) (sym p.0) ∙ found)));
  }

  ready-done :
      (t : TaskView F)
      → has_incomplete (get_or t.steps []) ≡ false
      → ready_workflow_step_indices t ≡ some (get_or t.steps [], [])
  unfolding ready_workflow_step_indices
  ready-done t h =
      let before = get_or t.steps [] in
      let start : Walk F = record { steps = before; ready = []; visited = [] } in
      let indices = get_active_workflow_step_indices t in
      let walk = collect_active (suc (length before)) indices start in
      elim (Option-cases walk) [
        | inl e ↦
            let (r, total) = ready_workflow_step_indices_total t in
            absurd (ground (arith, e, total))
        | inr (w, e) ↦
            let idle : IsIdle before w = rw e at (
              collect_active-Holds (Keeps-IsIdle before h) (suc (length before)) indices start
                (refl, refl)) in
            rw (ready_workflow_step_indices, e) (rw (idle.0, idle.1) refl)
      ]

  complete_run-lem :
      (host : Host) (run : WorkflowRun F)
      → (steps_of_run (complete_run host run) ≡ steps_of_run run)
        × ((complete_run host run).finished
            ≡ (if host.signs_off then run.finished else some workflow_complete))
  unfolding complete_run
  complete_run-lem host run = elim (Bool-cases host.signs_off) [
    | inl signs ↦ rw (complete_run, signs) (refl, refl)
    | inr plain ↦ rw (complete_run, plain) (refl, refl)
  ]

  module _ (host : Host) (follow : Next → WorkflowRun F → Option (WorkflowRun F)) where
    -- When every step is completed, the call returns in its first round with the steps as they are;
    -- the run is finished as complete, or not at all where a signoff takes over.
    pub advance_done :
        (fuel : ℕ) (run : WorkflowRun F)
        → has_incomplete (steps_of_run run) ≡ false
        → (after : WorkflowRun F) × (advance_workflow_step host follow (suc fuel) run ≡ some after)
          × (steps_of_run after ≡ steps_of_run run)
          × (after.finished ≡ (if host.signs_off then run.finished else some workflow_complete))
    unfolding advance_workflow_step advance_frontier advance_linear sorted_workflow_indices
    advance_done fuel run h = elim (Bool-cases (is_some run.view.active_step_indices)) [
      | inl frontier ↦
          let here = with_steps run (steps_of_run run) in
          let (steps, finished) = complete_run-lem host here in
          (
            complete_run host here,
            rw (advance_workflow_step, frontier, advance_frontier, ready-done run.view h, h) refl,
            steps,
            finished,
          )
      | inr linear ↦
          let (steps, finished) = complete_run-lem host run in
          (
            complete_run host run,
            rw
                (
                  advance_workflow_step,
                  linear,
                  advance_linear,
                  first_incomplete-done (steps_of_run run) 0 h,
                )
                refl,
            steps,
            finished,
          )
    ]

-- ===== src/Workflow/Verdicts/Tries.antt =====
-- The counts of what verdict.ts dispatches again, and how a verdict that cannot be evaluated counts.
use octeam.Prelude.{
  ℕ, suc, ◌≤◌, ◌≡◌, ◌≢◌, ◌⊎◌, inl, inr, ap, ◌∙◌, String, Bool, true, false, Option, none, some,
  List, arith, get_or, get_elem?, get_elem?-modify_self, Bool-cases,
}
use octeam.Workflow.Types.{OnMalformed, GateFields, StepKind, gate, Step, StepRuntime}
use octeam.Workflow.Gates.Conditions.{Goto, stay, jump}
use octeam.Workflow.Engine.State.{
  WorkflowRun, RunReason, retry, steps_of_run, with_steps, drop_response,
}
use octeam.Workflow.Engine.Goto.{update_gate, on_gate, goto_workflow_step}
use octeam.Workflow.Verdicts.Settle.{
  needs_approval_before, update_step, force_approval_request, maybe_request_approval,
  maybe_pause_before_workflow_step, maybe_pause_after_workflow_step, advance_after_review,
  continue_after,
}
use octeam.Workflow.Verdicts.Invalid.{
  policy_of, uses_malformed, forget_results, count_unevaluated, retries_exhausted, reset_timing,
  goto_or_finish, pause_or, retry_the_verifier, by_invalid_policy, handle_invalid_verdict,
}
use octeam.Workflow.Verdicts.Routes.{complete, pass_to, is_task}

-- The counts that bound what a gate asks for again, with their caps.
pub record Tries : Type 0 where
  pub attempts : ℕ
  pub attempts_cap : ℕ
  pub invalid : ℕ
  pub invalid_cap : ℕ
  pub malformed : ℕ
  pub malformed_cap : ℕ

module _ {F : Type 0} where
  abbrev pub gate_tries : GateFields F → Tries
  gate_tries g = record {
    attempts = get_or g.attempts 0;
    attempts_cap = get_or g.max_retries 0;
    invalid = get_or g.invalid_attempts 0;
    invalid_cap = get_or g.max_invalid_retries 0;
    malformed = get_or g.malformed_attempts 0;
    malformed_cap = get_or g.max_malformed_retries 0;
  }

  abbrev pub kind_tries : StepKind F → Option Tries
  kind_tries (gate g) = some (gate_tries g)
  kind_tries _ = none

  -- The counts of the gate at an index.
  abbrev pub tries_at : WorkflowRun F → ℕ → Option Tries
  tries_at run k = elim (get_elem? (steps_of_run run) k) [
    | none ↦ none
    | some step ↦ kind_tries step.kind
  ]

  -- The verifier of the gate is asked again, and one of the two counts of its bad answers has grown
  -- within its cap.
  abbrev pub RetriesVerifier : Tries → ℕ → ℕ → WorkflowRun F → Type 0
  RetriesVerifier old index k run =
      (k ≡ index)
      × ((new : Tries) × (tries_at run index ≡ some new)
          × (((new.invalid ≡ suc old.invalid) × (new.invalid ≤ old.invalid_cap))
              ⊎ ((new.malformed ≡ suc old.malformed) × (new.malformed ≤ old.malformed_cap))))

  -- A task runs again, and the count of the gate's failures has grown within its cap.
  abbrev pub RetriesProducer : Tries → ℕ → ℕ → WorkflowRun F → Type 0
  RetriesProducer old index k run =
      (is_task (get_elem? (steps_of_run run) k) ≡ true)
      × ((new : Tries) × (tries_at run index ≡ some new)
          × (new.attempts ≡ suc old.attempts)
          × (new.attempts ≤ old.attempts_cap))

  pub goto-no_retry :
      (now : ℕ) (run : WorkflowRun F) (gi t : ℕ) (on_fail : Bool) (k : ℕ)
      → (goto_workflow_step now run gi t on_fail).1 ≢ retry k
  unfolding goto_workflow_step
  goto-no_retry now run gi t on_fail k = ground arith

  goto_or_finish-no_retry :
      (now : ℕ) (run : WorkflowRun F) (index : ℕ) (target : Option ℕ) (reason : RunReason) (k : ℕ)
      → (goto_or_finish now run index target reason).1 ≢ retry k
  unfolding goto_or_finish
  goto_or_finish-no_retry now run index none reason k = ground arith
  goto_or_finish-no_retry now run index (some t) reason k = goto-no_retry now run index t false k

  pub review-no_retry :
      (index : ℕ) (step : Step F) (run : WorkflowRun F) (k : ℕ)
      → (advance_after_review index step run).1 ≢ retry k
  unfolding advance_after_review maybe_request_approval
  review-no_retry index step run k = ground arith

  pub continue-no_retry :
      (index : ℕ) (step : Step F) (run : WorkflowRun F) (k : ℕ)
      → (continue_after index step run).1 ≢ retry k
  unfolding continue_after maybe_pause_after_workflow_step
  continue-no_retry index step run k = ground (
    arith,
    review-no_retry index step run k,
    review-no_retry index step (force_approval_request index run) k,
  )

  -- What is dispatched again where no approval of it is missing.
  pause_or-retry :
      (index : ℕ) (run : WorkflowRun F) (k : ℕ)
      → (pause_or index (retry index) run).1 ≡ retry k
      → (k ≡ index) × ((pause_or index (retry index) run).0 ≡ run)
  unfolding pause_or maybe_pause_before_workflow_step
  pause_or-retry index run k again =
      elim (Bool-cases (needs_approval_before (get_elem? (steps_of_run run) index))) [
        | inl pauses ↦ ground (arith, again, pauses)
        | inr goes_on ↦ ground (arith, again, goes_on)
      ]

  counted_tries :
      (own : Bool) (runtime : StepRuntime) (h : GateFields F) (steps : List (Step F)) (index : ℕ)
      (run : WorkflowRun F)
      → get_elem? steps index ≡ some (record { runtime = runtime; kind = gate h })
      → tries_at
          (update_step index reset_timing (
            with_steps run
              (update_gate index (λ x. forget_results (count_unevaluated own x)) steps)))
          index
        ≡ some (gate_tries (count_unevaluated own h))
  unfolding update_gate
  counted_tries own runtime h steps index run at =
      let counted =
        get_elem?-modify_self steps index (on_gate (λ x. forget_results (count_unevaluated own x)))
          _ at in
      let reset =
        get_elem?-modify_self
          (update_gate index (λ x. forget_results (count_unevaluated own x)) steps) index
          reset_timing _ counted in
      ground (arith, reset)

  -- `g` is the gate before the counts of its own failures, `h` the gate as it stands.
  verifier-retry :
      (now : ℕ) (run : WorkflowRun F) (index : ℕ) (runtime : StepRuntime) (g h : GateFields F)
      (name : String) (m : Bool) (k : ℕ)
      → get_elem? (steps_of_run run) index ≡ some (record { runtime = runtime; kind = gate h })
      → h.invalid_attempts ≡ g.invalid_attempts
      → h.malformed_attempts ≡ g.malformed_attempts
      → (retry_the_verifier now run index g name m).1 ≡ retry k
      → RetriesVerifier (gate_tries g) index k (retry_the_verifier now run index g name m).0
  unfolding retry_the_verifier
  verifier-retry now run index runtime g h name m k at same_invalid same_malformed =
      let own = uses_malformed m g in
      let counted =
        with_steps run
          (update_gate index (λ x. forget_results (count_unevaluated own x)) (steps_of_run run)) in
      let next = update_step index reset_timing (drop_response counted name) in
      elim (Bool-cases (retries_exhausted own g)) [
        | inl over ↦ rw over (λ again.
            elim (goto_or_finish-no_retry now counted index g.on_invalid_goto _ k again) [ ])
        | inr within ↦ rw within (λ again.
            let (here, same) = pause_or-retry index next k again in
            (
              here,
              (
                gate_tries (count_unevaluated own h),
                ap (λ r. tries_at r index) same
                    ∙ counted_tries own runtime h (steps_of_run run) index run at,
                elim (Bool-cases own) [
                  | inl o ↦ inr (ground (arith, o, within, same_malformed))
                  | inr o ↦ inl (ground (arith, o, within, same_invalid))
                ],
              ),
            ))
      ]

  pub invalid-retry :
      (policy : OnMalformed) (now : ℕ) (run : WorkflowRun F) (index : ℕ) (step : Step F)
      (runtime : StepRuntime) (g h : GateFields F) (name : String) (m : Bool) (k : ℕ)
      → get_elem? (steps_of_run run) index ≡ some (record { runtime = runtime; kind = gate h })
      → h.invalid_attempts ≡ g.invalid_attempts
      → h.malformed_attempts ≡ g.malformed_attempts
      → (by_invalid_policy policy now run index step g name m).1 ≡ retry k
      → RetriesVerifier
          (gate_tries g)
          index
          k
          (by_invalid_policy policy now run index step g name m).0
  unfolding by_invalid_policy
  invalid-retry OnMalformed.skip now run index step runtime g h name m k at si sm again =
      elim (continue-no_retry index step (complete now index true (drop_response run name)) k
        again) [ ]
  invalid-retry OnMalformed.retry_verifier now run index step runtime g h name m k at si sm again =
      verifier-retry now run index runtime g h name m k at si sm again
  invalid-retry OnMalformed.escalate now run index step runtime g h name m k at si sm again =
      absurd (ground (arith, again))
  invalid-retry OnMalformed.fail_run now run index step runtime g h name m k at si sm again =
      elim (goto_or_finish-no_retry now run index g.on_invalid_goto _ k again) [ ]

  -- The record of a step, from its kind.
  pub gate_record :
      (step : Step F) (g : GateFields F)
      → step.kind ≡ gate g
      → step ≡ record { runtime = step.runtime; kind = gate g }
  gate_record step g kind = ground (arith, kind)

  pub pass_to-retry :
      (goto : Goto) (now : ℕ) (run : WorkflowRun F) (index : ℕ) (step : Step F)
      (runtime : StepRuntime) (g h : GateFields F) (name : String) (k : ℕ)
      → get_elem? (steps_of_run run) index ≡ some (record { runtime = runtime; kind = gate h })
      → h.invalid_attempts ≡ g.invalid_attempts
      → h.malformed_attempts ≡ g.malformed_attempts
      → (pass_to goto now run index step g name).1 ≡ retry k
      → RetriesVerifier (gate_tries g) index k (pass_to goto now run index step g name).0
  unfolding pass_to handle_invalid_verdict
  pass_to-retry stay now run index step runtime g h name k at si sm again =
      elim (review-no_retry index step (complete now index false run) k again) [ ]
  pass_to-retry (jump t) now run index step runtime g h name k at si sm again =
      elim (goto-no_retry now run index t false k again) [ ]
  pass_to-retry Goto.invalid now run index step runtime g h name k at si sm again =
      invalid-retry (policy_of false g) now run index step runtime g h name false k at si sm again

-- ===== src/Workflow/Verdicts/Retries.antt =====
-- The bounds on what verdict.ts dispatches again: the verifier, or the step that a gate verifies.
use octeam.Prelude.{
  ℕ, ◌≡◌, ◌⊎◌, inl, inr, refl, ap, ◌∙◌, String, true, false, Option, none, some, arith, get_or,
  get_elem?, get_elem?-modify_self, if◌then◌else◌, Bool-cases, Option-cases,
}
use octeam.Workflow.JoinPolicy.{is_true}
use octeam.Workflow.JoinPolicy.Ieee.{Fraction}
use octeam.Workflow.Types.{
  Verdict, pass, fail, invalid, OnFail, GateFields, gate, Step, StepRuntime,
}
use octeam.Workflow.Gates.Targets.{gate_at, gate_target_index}
use octeam.Workflow.Gates.Targets.Found.{gate_at-kind}
use octeam.Workflow.Gates.Conditions.{gated_goto_index}
use octeam.Workflow.Engine.State.{
  WorkflowRun, retry, steps_of_run, with_steps, drop_response, mark_workflow_step_completed,
}
use octeam.Workflow.Engine.Goto.{update_gate, on_gate}
use octeam.Workflow.Verdicts.Settle.{
  needs_approval_after, reset_step_after_completion, maybe_pause_after_workflow_step,
}
use octeam.Workflow.Verdicts.Invalid.{policy_of, handle_invalid_verdict}
use octeam.Workflow.Verdicts.Routes.{
  complete, skip_gate, count_attempt, retries_used_up, leave_gate, handle_gate_pass,
  handle_gate_fail, fail_unless_skipped, handle_gate_retry,
}
use octeam.Workflow.Verdicts.Collect.{
  Reading, record_verdict, handle_fail, by_verdict, route_verdict,
}
use octeam.Workflow.Verdicts.Tries.{
  gate_tries, RetriesVerifier, RetriesProducer, continue-no_retry, invalid-retry, gate_record,
  pass_to-retry,
}
use octeam.Workflow.Verdicts.Again.{fail_to-retry, give_up_to-retry, retry_from-retry}

module _ {F : Type 0} ⦃fr : Fraction F⦄ where
  gate_retry-retry :
      (now : ℕ) (run : WorkflowRun F) (index : ℕ) (step : Step F) (runtime : StepRuntime)
      (g : GateFields F) (name : String) (k : ℕ)
      → get_elem? (steps_of_run run) index ≡ some (record { runtime = runtime; kind = gate g })
      → (handle_gate_retry now run index step g name).1 ≡ retry k
      → RetriesVerifier (gate_tries g) index k (handle_gate_retry now run index step g name).0
        ⊎ RetriesProducer (gate_tries g) index k (handle_gate_retry now run index step g name).0
  unfolding handle_gate_retry update_gate
  gate_retry-retry now run index step runtime g name k at =
      let counted =
        with_steps (drop_response run name) (update_gate index count_attempt (steps_of_run run)) in
      let here = get_elem?-modify_self (steps_of_run run) index (on_gate count_attempt) _ at in
      elim (Bool-cases (retries_used_up g)) [
        | inl used ↦ rw used (λ again. inl (
            give_up_to-retry (gated_goto_index (steps_of_run counted) index g.on_fail_goto) now
              counted index step runtime g (count_attempt g) name k here refl refl again))
        | inr left ↦ rw left (elim (Option-cases (gate_target_index (steps_of_run counted) index)) [
          | inl e ↦ rw e (λ again. absurd (ground (arith, again)))
          | inr (p, e) ↦ rw e (λ again.
              let (produces, own) =
                retry_from-retry p counted index runtime (count_attempt g) name k here again in
              inr
                (produces, (gate_tries (count_attempt g), own, ground arith, ground (arith, left))))
        ])
      ]

  leave_gate-retry :
      (now : ℕ) (run : WorkflowRun F) (index : ℕ) (step : Step F) (runtime : StepRuntime)
      (g : GateFields F) (name : String) (k : ℕ)
      → get_elem? (steps_of_run run) index ≡ some (record { runtime = runtime; kind = gate g })
      → (leave_gate now run index step g name).1 ≡ retry k
      → RetriesVerifier (gate_tries g) index k (leave_gate now run index step g name).0
  unfolding leave_gate maybe_pause_after_workflow_step
  leave_gate-retry now run index step runtime g name k at =
      elim (Bool-cases (needs_approval_after (get_elem? (steps_of_run run) index))) [
        | inl pauses ↦ rw pauses (λ again. absurd (ground (arith, again)))
        | inr goes_on ↦ rw goes_on (
            pass_to-retry (gated_goto_index (steps_of_run run) index g.on_pass_goto) now run index
              step runtime g g name k at refl refl)
      ]

  pass-retry :
      (now : ℕ) (run : WorkflowRun F) (index : ℕ) (step : Step F) (runtime : StepRuntime)
      (g : GateFields F) (name : String) (k : ℕ)
      → get_elem? (steps_of_run run) index ≡ some (record { runtime = runtime; kind = gate g })
      → (handle_gate_pass now run index step g name).1 ≡ retry k
      → RetriesVerifier (gate_tries g) index k (handle_gate_pass now run index step g name).0
  unfolding handle_gate_pass reset_step_after_completion mark_workflow_step_completed
  pass-retry now run index step runtime g name k at =
      let dropped = drop_response run name in
      let reset = reset_step_after_completion now true false in
      let done = get_elem?-modify_self (steps_of_run run) index reset _ at in
      elim (Bool-cases (is_true step.approval_after)) [
        | inl marks ↦ rw marks (
            leave_gate-retry now (complete now index false dropped) index step
              (reset (record { runtime = runtime; kind = gate g })).runtime g name k done)
        | inr no_mark ↦ rw no_mark (leave_gate-retry now dropped index step runtime g name k at)
      ]

  fail-retry :
      (policy : OnFail) (now : ℕ) (run : WorkflowRun F) (index : ℕ) (step : Step F)
      (runtime : StepRuntime) (g : GateFields F) (name : String) (k : ℕ)
      → get_or g.on_fail OnFail.fail_run ≡ policy
      → get_elem? (steps_of_run run) index ≡ some (record { runtime = runtime; kind = gate g })
      → (handle_fail policy now run index step g name).1 ≡ retry k
      → RetriesVerifier (gate_tries g) index k (handle_fail policy now run index step g name).0
        ⊎ RetriesProducer (gate_tries g) index k (handle_fail policy now run index step g name).0
  unfolding handle_fail handle_gate_fail fail_unless_skipped skip_gate
  fail-retry OnFail.retry now run index step runtime g name k is at =
      gate_retry-retry now run index step runtime g name k at
  fail-retry OnFail.fail_run now run index step runtime g name k is at = rw is (λ again. inl (
      fail_to-retry (gated_goto_index (steps_of_run run) index g.on_fail_goto) now run index step
        runtime g g name k at refl refl again))
  fail-retry OnFail.skip now run index step runtime g name k is at = rw is (λ again.
      elim (continue-no_retry index step (complete now index true (drop_response run name)) k
        again) [ ])

  by_verdict-retry :
      (v : Option Verdict) (now : ℕ) (run : WorkflowRun F) (index : ℕ) (step : Step F)
      (runtime : StepRuntime) (g : GateFields F) (name : String) (k : ℕ)
      → get_elem? (steps_of_run run) index ≡ some (record { runtime = runtime; kind = gate g })
      → (by_verdict v now run index step g name).1 ≡ retry k
      → RetriesVerifier (gate_tries g) index k (by_verdict v now run index step g name).0
        ⊎ RetriesProducer (gate_tries g) index k (by_verdict v now run index step g name).0
  unfolding by_verdict handle_invalid_verdict
  by_verdict-retry none now run index step runtime g name k at again = inl (
      invalid-retry (policy_of true g) now run index step runtime g g name true k at refl refl
        again)
  by_verdict-retry (some invalid) now run index step runtime g name k at again = inl (
      invalid-retry (policy_of false g) now run index step runtime g g name false k at refl refl
        again)
  by_verdict-retry (some pass) now run index step runtime g name k at again =
      inl (pass-retry now run index step runtime g name k at again)
  by_verdict-retry (some fail) now run index step runtime g name k at again =
      fail-retry (get_or g.on_fail OnFail.fail_run) now run index step runtime g name k refl at
        again

  -- What a verdict dispatches again, at a step that is a gate, is bounded. Either it is the verifier of
  -- the gate, and the gate's count of invalid or of malformed verdicts has grown by one within its
  -- cap; or it is a task, and the gate's count of failed attempts has grown by one within its cap.
  pub retry_bounded :
      (now : ℕ) (run : WorkflowRun F) (index : ℕ) (step : Step F) (g : GateFields F) (name : String)
      (v : Reading F) (k : ℕ)
      → gate_at (steps_of_run run) index ≡ some (step, g)
      → (route_verdict now run index step g name v).1 ≡ retry k
      → RetriesVerifier (gate_tries g) index k (route_verdict now run index step g name v).0
        ⊎ RetriesProducer (gate_tries g) index k (route_verdict now run index step g name v).0
  unfolding route_verdict update_gate
  retry_bounded now run index step g name v k at =
      let (here, kind) = gate_at-kind (steps_of_run run) index step g at in
      by_verdict-retry (if is_true v.parse_failed then none else v.verdict) now
        (with_steps run (update_gate index (record_verdict v) (steps_of_run run))) index step
        (on_gate (record_verdict v) step).runtime (record_verdict v g) name k
        (get_elem?-modify_self (steps_of_run run) index (on_gate (record_verdict v)) step here
          ∙ ap some (
              gate_record (on_gate (record_verdict v) step) (record_verdict v g)
                (ground (arith, kind))))

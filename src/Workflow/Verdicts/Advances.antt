-- ===== src/Workflow/Verdicts/Advances.antt =====
-- When a verdict lets the run of verdict.ts go on to the next steps.
use octeam.Prelude.{
  ℕ, ◌≡◌, ◌≢◌, inl, inr, refl, ap, sym, ◌∙◌, String, true, false, Option, none, some, arith, get_or,
  get_elem?, get_elem?-modify_self, if◌then◌else◌, Bool-cases, Option-cases,
}
use octeam.Workflow.JoinPolicy.{is_true}
use octeam.Workflow.JoinPolicy.Ieee.{Fraction}
use octeam.Workflow.Types.{Verdict, pass, fail, invalid, OnFail, GateFields, Step}
use octeam.Workflow.Gates.Targets.{gate_at, gate_target_index}
use octeam.Workflow.Gates.Targets.Found.{gate_at-kind}
use octeam.Workflow.Gates.Conditions.{gated_goto_index}
use octeam.Workflow.Engine.State.{WorkflowRun, advance, steps_of_run, with_steps, drop_response}
use octeam.Workflow.Engine.Goto.{update_gate, on_gate}
use octeam.Workflow.Verdicts.Settle.{
  reset_step_after_completion, maybe_pause_after_workflow_step, needs_approval_after,
}
use octeam.Workflow.Verdicts.Routes.{
  complete, skip_gate, leave_gate, handle_gate_pass, handle_gate_fail, fail_unless_skipped,
  handle_gate_retry, count_attempt, retries_used_up,
}
use octeam.Workflow.Verdicts.Collect.{
  Reading, record_verdict, handle_fail, by_verdict, route_verdict,
}
use octeam.Workflow.Verdicts.Stops.{
  is_settled, settled_at, passes_over_fail, may_advance, complete-settled, continue_after-steps,
  invalid-advances, invalid-stops, pass_to-advances, fail_to-advances, give_up-stops,
  retry_from-stops,
}

module _ {F : Type 0} ⦃fr : Fraction F⦄ where
  leave_gate-advances :
      (now : ℕ) (run : WorkflowRun F) (index : ℕ) (step here : Step F) (g : GateFields F)
      (name : String)
      → get_elem? (steps_of_run run) index ≡ some here
      → (leave_gate now run index step g name).1 ≡ advance
      → settled_at (leave_gate now run index step g name).0 index ≡ true
  unfolding leave_gate maybe_pause_after_workflow_step
  leave_gate-advances now run index step here g name at goes =
      elim (Bool-cases (needs_approval_after (get_elem? (steps_of_run run) index))) [
        | inl pauses ↦ ground (arith, goes, pauses)
        | inr goes_on ↦ ground (
          arith,
          goes,
          goes_on,
          pass_to-advances (gated_goto_index (steps_of_run run) index g.on_pass_goto) now run index
              step here g name at,
        )
      ]

  pass-advances :
      (now : ℕ) (run : WorkflowRun F) (index : ℕ) (step here : Step F) (g : GateFields F)
      (name : String)
      → get_elem? (steps_of_run run) index ≡ some here
      → (handle_gate_pass now run index step g name).1 ≡ advance
      → settled_at (handle_gate_pass now run index step g name).0 index ≡ true
  unfolding handle_gate_pass
  pass-advances now run index step here g name at =
      let dropped = drop_response run name in
      let done =
        get_elem?-modify_self (steps_of_run run) index (reset_step_after_completion now true false)
          here at in
      elim (Bool-cases (is_true step.approval_after)) [
        | inl marks ↦ rw marks (
            leave_gate-advances now (complete now index false dropped) index step
              (reset_step_after_completion now true false here) g name done)
        | inr no_mark ↦ rw no_mark (leave_gate-advances now dropped index step here g name at)
      ]

  retry-stops :
      (now : ℕ) (run : WorkflowRun F) (index : ℕ) (step here : Step F) (g : GateFields F)
      (name : String)
      → get_elem? (steps_of_run run) index ≡ some here
      → (handle_gate_retry now run index step g name).1 ≢ advance
  unfolding handle_gate_retry update_gate
  retry-stops now run index step here g name at =
      let counted =
        with_steps (drop_response run name) (update_gate index count_attempt (steps_of_run run)) in
      elim (Bool-cases (retries_used_up g)) [
        | inl used ↦ rw used (
            give_up-stops (gated_goto_index (steps_of_run counted) index g.on_fail_goto) now counted
              index step (on_gate count_attempt here) g name
              (get_elem?-modify_self (steps_of_run run) index (on_gate count_attempt) here at))
        | inr left ↦ rw left (elim (Option-cases (gate_target_index (steps_of_run counted) index)) [
          | inl e ↦ ground (arith, e)
          | inr (p, e) ↦ ground (arith, e, retry_from-stops p counted index name)
        ])
      ]

  fail-advances :
      (policy : OnFail) (now : ℕ) (run : WorkflowRun F) (index : ℕ) (step here : Step F)
      (g : GateFields F) (name : String)
      → get_or g.on_fail OnFail.fail_run ≡ policy
      → get_elem? (steps_of_run run) index ≡ some here
      → (handle_fail policy now run index step g name).1 ≡ advance
      → (settled_at (handle_fail policy now run index step g name).0 index ≡ true)
        × (passes_over_fail policy g ≡ true)
  unfolding handle_fail handle_gate_fail fail_unless_skipped skip_gate
  fail-advances OnFail.retry now run index step here g name is at =
      λ goes. elim (retry-stops now run index step here g name at goes) [ ]
  fail-advances OnFail.fail_run now run index step here g name is at = rw is (
      fail_to-advances (gated_goto_index (steps_of_run run) index g.on_fail_goto) now run index step
        here g name at)
  fail-advances OnFail.skip now run index step here g name is at = rw is (λ goes. (
    ap (λ xs. is_settled (get_elem? xs index))
          (continue_after-steps index step (complete now index true (drop_response run name)))
        ∙ complete-settled now index true (drop_response run name) here at,
    refl,
  ))

  by_verdict-advances :
      (v : Option Verdict) (now : ℕ) (run : WorkflowRun F) (index : ℕ) (step here : Step F)
      (g : GateFields F) (name : String)
      → get_elem? (steps_of_run run) index ≡ some here
      → (by_verdict v now run index step g name).1 ≡ advance
      → (settled_at (by_verdict v now run index step g name).0 index ≡ true)
        × (may_advance v g ≡ true)
  unfolding by_verdict
  by_verdict-advances none now run index step here g name at goes =
      let (settled, own, skips) = invalid-advances now run index step here g name true at goes in
      (settled, skips)
  by_verdict-advances (some invalid) now run index step here g name at goes =
      ground (arith, goes, invalid-stops now run index step here g name at)
  by_verdict-advances (some pass) now run index step here g name at goes =
      (pass-advances now run index step here g name at goes, refl)
  by_verdict-advances (some fail) now run index step here g name at goes =
      fail-advances (get_or g.on_fail OnFail.fail_run) now run index step here g name refl at goes

  passes_over_fail-record :
      (policy : OnFail) (v : Reading F) (g : GateFields F)
      → passes_over_fail policy (record_verdict v g) ≡ passes_over_fail policy g
  passes_over_fail-record OnFail.retry v g = refl
  passes_over_fail-record OnFail.fail_run v g = refl
  passes_over_fail-record OnFail.skip v g = refl

  may_advance-record :
      (o : Option Verdict) (v : Reading F) (g : GateFields F)
      → may_advance o (record_verdict v g) ≡ may_advance o g
  may_advance-record none v g = refl
  may_advance-record (some pass) v g = refl
  may_advance-record (some fail) v g =
      passes_over_fail-record (get_or g.on_fail OnFail.fail_run) v g
  may_advance-record (some invalid) v g = refl

  -- The run goes on from a gate to the next ready steps only when the gate is completed and waits for
  -- no answer, and only for a PASS, for a FAIL that `on_fail=skip` passes over or whose loop has no
  -- iteration left and `on_exhaust=continue`, or for a verdict that cannot be read where
  -- `on_malformed` is `skip`. An INVALID verdict never lets the run go on.
  pub advance_settles :
      (now : ℕ) (run : WorkflowRun F) (index : ℕ) (step : Step F) (g : GateFields F) (name : String)
      (v : Reading F)
      → gate_at (steps_of_run run) index ≡ some (step, g)
      → (route_verdict now run index step g name v).1 ≡ advance
      → (settled_at (route_verdict now run index step g name v).0 index ≡ true)
        × (may_advance (if is_true v.parse_failed then none else v.verdict) g ≡ true)
  unfolding route_verdict update_gate
  advance_settles now run index step g name v at goes =
      let read = if is_true v.parse_failed then none else v.verdict in
      let (settled, allowed) =
        by_verdict-advances read now
          (with_steps run (update_gate index (record_verdict v) (steps_of_run run))) index step
          (on_gate (record_verdict v) step) (record_verdict v g) name
          (get_elem?-modify_self (steps_of_run run) index (on_gate (record_verdict v)) step
            (gate_at-kind (steps_of_run run) index step g at).0)
          goes in
      (settled, sym (may_advance-record read v g) ∙ allowed)

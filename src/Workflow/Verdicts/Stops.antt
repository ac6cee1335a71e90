-- ===== src/Workflow/Verdicts/Stops.antt =====
-- Which parts of verdict.ts let the run go on, and which stop or send it elsewhere.
use octeam.Prelude.{
  ℕ, ◌+◌, ◌≡◌, ◌≢◌, refl, ap, ◌∙◌, String, Bool, true, false, not, ◌&&◌, Option, none, some, arith,
  get_or, get_elem?, get_elem?-modify_self, ltb, is_some,
}
use octeam.Workflow.Types.{
  Verdict, pass, fail, invalid, OnFail, OnMalformed, OnExhaust, LoopConfig, GateFields, Step,
}
use octeam.Workflow.Gates.Conditions.{Goto, stay, jump}
use octeam.Workflow.Engine.State.{
  WorkflowRun, RunReason, advance, steps_of_run, with_steps, drop_response,
  mark_workflow_step_completed,
}
use octeam.Workflow.Engine.Goto.{update_gate, on_gate, goto_workflow_step}
use octeam.Workflow.Verdicts.Settle.{
  reset_step_after_completion, force_approval_request, maybe_request_approval,
  maybe_pause_before_workflow_step, maybe_pause_after_workflow_step, advance_after_review,
  continue_after,
}
use octeam.Workflow.Verdicts.Invalid.{
  policy_of, goto_or_finish, pause_or, retry_the_verifier, by_invalid_policy,
  handle_invalid_verdict,
}
use octeam.Workflow.Verdicts.Routes.{
  complete, pass_to, count_loop, exhausted, loop_or_goto, fail_to, give_up_to, retry_from,
}

abbrev pub skips_malformed : Option OnMalformed → Bool
skips_malformed (some OnMalformed.skip) = true
skips_malformed _ = false

module _ {F : Type 0} where
  -- `completed`, and waiting for no answer
  abbrev pub is_settled : Option (Step F) → Bool
  is_settled none = false
  is_settled (some step) = step.completed && not (is_some step.dispatched_at)

  abbrev pub settled_at : WorkflowRun F → ℕ → Bool
  settled_at run index = is_settled (get_elem? (steps_of_run run) index)

  -- The loop of a gate has no iteration left, and the gate goes on then.
  abbrev pub loop_gives_way : GateFields F → Bool
  loop_gives_way g = elim g.loop [
    | none ↦ false
    | some loop ↦ elim loop.on_exhaust [
      | OnExhaust.go_on ↦ ltb loop.max_iterations (get_or g.loop_iterations 0 + 1)
      | OnExhaust.fail_run ↦ false
    ]
  ]

  abbrev pub passes_over_fail : OnFail → GateFields F → Bool
  passes_over_fail OnFail.skip g = true
  passes_over_fail OnFail.fail_run g = loop_gives_way g
  passes_over_fail OnFail.retry g = false

  -- The verdicts with which a gate may be left for the next steps; `none` is one that cannot be read.
  abbrev pub may_advance : Option Verdict → GateFields F → Bool
  may_advance (some pass) g = true
  may_advance (some fail) g = passes_over_fail (get_or g.on_fail OnFail.fail_run) g
  may_advance (some invalid) g = false
  may_advance none g = skips_malformed g.on_malformed

  pub complete-settled :
      (now index : ℕ) (skipped : Bool) (run : WorkflowRun F) (step : Step F)
      → get_elem? (steps_of_run run) index ≡ some step
      → settled_at (complete now index skipped run) index ≡ true
  unfolding reset_step_after_completion mark_workflow_step_completed
  complete-settled now index skipped run step at = ap is_settled (
      get_elem?-modify_self (steps_of_run run) index (reset_step_after_completion now true skipped)
        step at)

  advance_after_review-steps :
      (index : ℕ) (step : Step F) (run : WorkflowRun F)
      → steps_of_run (advance_after_review index step run).0 ≡ steps_of_run run
  unfolding advance_after_review maybe_request_approval force_approval_request
  advance_after_review-steps index step run = ground arith

  pub continue_after-steps :
      (index : ℕ) (step : Step F) (run : WorkflowRun F)
      → steps_of_run (continue_after index step run).0 ≡ steps_of_run run
  unfolding continue_after maybe_pause_after_workflow_step force_approval_request
  continue_after-steps index step run = ground (arith, advance_after_review-steps index step run)

  goto-stops :
      (now : ℕ) (run : WorkflowRun F) (gi t : ℕ) (on_fail : Bool)
      → (goto_workflow_step now run gi t on_fail).1 ≢ advance
  unfolding goto_workflow_step
  goto-stops now run gi t on_fail = ground arith

  goto_or_finish-stops :
      (now : ℕ) (run : WorkflowRun F) (index : ℕ) (target : Option ℕ) (reason : RunReason)
      → (goto_or_finish now run index target reason).1 ≢ advance
  unfolding goto_or_finish
  goto_or_finish-stops now run index none reason = ground arith
  goto_or_finish-stops now run index (some t) reason = goto-stops now run index t false

  retry_the_verifier-stops :
      (now : ℕ) (run : WorkflowRun F) (index : ℕ) (g : GateFields F) (name : String)
      (malformed : Bool)
      → (retry_the_verifier now run index g name malformed).1 ≢ advance
  unfolding retry_the_verifier pause_or maybe_pause_before_workflow_step
  retry_the_verifier-stops now run index g name malformed =
      ground (arith, goto_or_finish-stops now _ index g.on_invalid_goto _)

  policy_of-skip :
      (malformed : Bool) (g : GateFields F)
      → policy_of malformed g ≡ OnMalformed.skip
      → (malformed ≡ true) × (skips_malformed g.on_malformed ≡ true)
  policy_of-skip true g skips = ground (arith, skips)
  policy_of-skip false g skips = ground (arith, skips)

  invalid_policy-advances :
      (policy : OnMalformed) (now : ℕ) (run : WorkflowRun F) (index : ℕ) (step here : Step F)
      (g : GateFields F) (name : String) (malformed : Bool)
      → get_elem? (steps_of_run run) index ≡ some here
      → (by_invalid_policy policy now run index step g name malformed).1 ≡ advance
      → (settled_at (by_invalid_policy policy now run index step g name malformed).0 index ≡ true)
        × (policy ≡ OnMalformed.skip)
  unfolding by_invalid_policy
  invalid_policy-advances OnMalformed.skip now run index step here g name malformed at goes = (
    ap (λ xs. is_settled (get_elem? xs index))
          (continue_after-steps index step (complete now index true (drop_response run name)))
        ∙ complete-settled now index true (drop_response run name) here at,
    refl,
  )
  invalid_policy-advances OnMalformed.retry_verifier now run index step here g name malformed at
        goes =
      ground (arith, goes, retry_the_verifier-stops now run index g name malformed)
  invalid_policy-advances OnMalformed.escalate now run index step here g name malformed at goes =
      ground (arith, goes)
  invalid_policy-advances OnMalformed.fail_run now run index step here g name malformed at goes =
      ground (arith, goes, goto_or_finish-stops now run index g.on_invalid_goto _)

  pub invalid-advances :
      (now : ℕ) (run : WorkflowRun F) (index : ℕ) (step here : Step F) (g : GateFields F)
      (name : String) (malformed : Bool)
      → get_elem? (steps_of_run run) index ≡ some here
      → (handle_invalid_verdict now run index step g name malformed).1 ≡ advance
      → (settled_at (handle_invalid_verdict now run index step g name malformed).0 index ≡ true)
        × (malformed ≡ true)
        × (skips_malformed g.on_malformed ≡ true)
  unfolding handle_invalid_verdict
  invalid-advances now run index step here g name malformed at goes =
      let (settled, skips) =
        invalid_policy-advances (policy_of malformed g) now run index step here g name malformed at
          goes in
      let (own, written) = policy_of-skip malformed g skips in (settled, own, written)

  -- INVALID itself never lets the run go on.
  pub invalid-stops :
      (now : ℕ) (run : WorkflowRun F) (index : ℕ) (step here : Step F) (g : GateFields F)
      (name : String)
      → get_elem? (steps_of_run run) index ≡ some here
      → (handle_invalid_verdict now run index step g name false).1 ≢ advance
  invalid-stops now run index step here g name at goes =
      ground (arith, invalid-advances now run index step here g name false at goes)

  -- The review after the gate is completed leaves it settled.
  completed-settled :
      (now index : ℕ) (skipped : Bool) (run : WorkflowRun F) (step here : Step F)
      → get_elem? (steps_of_run run) index ≡ some here
      → settled_at (advance_after_review index step (complete now index skipped run)).0 index ≡ true
  completed-settled now index skipped run step here at =
      ap (λ xs. is_settled (get_elem? xs index))
        (advance_after_review-steps index step (complete now index skipped run))
      ∙ complete-settled now index skipped run here at

  pub pass_to-advances :
      (goto : Goto) (now : ℕ) (run : WorkflowRun F) (index : ℕ) (step here : Step F)
      (g : GateFields F) (name : String)
      → get_elem? (steps_of_run run) index ≡ some here
      → (pass_to goto now run index step g name).1 ≡ advance
      → settled_at (pass_to goto now run index step g name).0 index ≡ true
  unfolding pass_to
  pass_to-advances stay now run index step here g name at goes =
      completed-settled now index false run step here at
  pass_to-advances (jump t) now run index step here g name at goes =
      ground (arith, goes, goto-stops now run index t false)
  pass_to-advances Goto.invalid now run index step here g name at goes =
      ground (arith, goes, invalid-stops now run index step here g name at)

  exhausted-advances :
      (policy : OnExhaust) (now : ℕ) (run : WorkflowRun F) (index : ℕ) (step here : Step F)
      (name : String)
      → get_elem? (steps_of_run run) index ≡ some here
      → (exhausted policy now run index step name).1 ≡ advance
      → (settled_at (exhausted policy now run index step name).0 index ≡ true)
        × (policy ≡ OnExhaust.go_on)
  unfolding exhausted
  exhausted-advances OnExhaust.go_on now run index step here name at goes =
      (completed-settled now index false (drop_response run name) step here at, refl)
  exhausted-advances OnExhaust.fail_run now run index step here name at goes = ground (arith, goes)

  loop-advances :
      (o : Option LoopConfig) (now : ℕ) (run : WorkflowRun F) (index t : ℕ) (step here : Step F)
      (g : GateFields F) (name : String)
      → g.loop ≡ o
      → get_elem? (steps_of_run run) index ≡ some here
      → (loop_or_goto o now run index t step g name).1 ≡ advance
      → (settled_at (loop_or_goto o now run index t step g name).0 index ≡ true)
        × (loop_gives_way g ≡ true)
  unfolding loop_or_goto update_gate
  loop-advances none now run index t step here g name is at goes =
      ground (arith, goes, goto-stops now run index t true)
  loop-advances (some loop) now run index t step here g name is at goes =
      let counted = with_steps run (update_gate index count_loop (steps_of_run run)) in
      ground (
        arith,
        goes,
        is,
        goto-stops now run index t true,
        goto-stops now counted index t true,
        exhausted-advances loop.on_exhaust now counted index step (on_gate count_loop here) name
            (get_elem?-modify_self (steps_of_run run) index (on_gate count_loop) here at),
      )

  pub fail_to-advances :
      (goto : Goto) (now : ℕ) (run : WorkflowRun F) (index : ℕ) (step here : Step F)
      (g : GateFields F) (name : String)
      → get_elem? (steps_of_run run) index ≡ some here
      → (fail_to goto now run index step g name).1 ≡ advance
      → (settled_at (fail_to goto now run index step g name).0 index ≡ true)
        × (loop_gives_way g ≡ true)
  unfolding fail_to
  fail_to-advances stay now run index step here g name at goes = ground (arith, goes)
  fail_to-advances (jump t) now run index step here g name at goes =
      loop-advances g.loop now run index t step here g name refl at goes
  fail_to-advances Goto.invalid now run index step here g name at goes =
      ground (arith, goes, invalid-stops now run index step here g name at)

  pub give_up-stops :
      (goto : Goto) (now : ℕ) (run : WorkflowRun F) (index : ℕ) (step here : Step F)
      (g : GateFields F) (name : String)
      → get_elem? (steps_of_run run) index ≡ some here
      → (give_up_to goto now run index step g name).1 ≢ advance
  unfolding give_up_to
  give_up-stops stay now run index step here g name at = ground arith
  give_up-stops (jump t) now run index step here g name at = goto-stops now run index t true
  give_up-stops Goto.invalid now run index step here g name at =
      invalid-stops now run index step here g name at

  pub retry_from-stops :
      (producer : ℕ) (run : WorkflowRun F) (index : ℕ) (name : String)
      → (retry_from producer run index name).1 ≢ advance
  unfolding retry_from maybe_pause_before_workflow_step
  retry_from-stops producer run index name = ground arith

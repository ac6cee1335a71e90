-- ===== src/Workflow/Verdicts/Again.antt =====
-- What the parts of verdict.ts after a verdict dispatch again.
use octeam.Prelude.{
  ℕ, suc, ◌-◌, ◌≡◌, ◌≢◌, inl, inr, refl, ap, ◌∙◌, String, true, false, Option, none, some, List, [],
  arith, get_or, get_elem?, modify, nat_eq_iff, Bool-cases, Option-cases,
}
use octeam.Prelude.Ranges.{get_elem?-modify, get_elem?-modify_range}
use octeam.Workflow.Types.{OnExhaust, LoopConfig, GateFields, gate, Step, StepRuntime}
use octeam.Workflow.Gates.Conditions.{Goto, stay, jump}
use octeam.Workflow.Engine.State.{
  WorkflowRun, retry, steps_of_run, with_steps, drop_response, move_active_workflow_step,
}
use octeam.Workflow.Engine.Rerun.{rerun_step}
use octeam.Workflow.Engine.Jumps.{steps-move}
use octeam.Workflow.Engine.Goto.{update_gate}
use octeam.Workflow.Verdicts.Settle.{
  needs_approval_before, update_step, maybe_pause_before_workflow_step,
}
use octeam.Workflow.Verdicts.Invalid.{policy_of, handle_invalid_verdict}
use octeam.Workflow.Verdicts.Routes.{
  complete, count_loop, exhausted, loop_or_goto, fail_to, give_up_to, retry_from, rerun_before,
  retry_steps, is_task, clear_actor,
}
use octeam.Workflow.Verdicts.Tries.{
  gate_tries, kind_tries, tries_at, RetriesVerifier, goto-no_retry, review-no_retry, invalid-retry,
}

module _ {F : Type 0} where
  exhausted-no_retry :
      (policy : OnExhaust) (now : ℕ) (run : WorkflowRun F) (index : ℕ) (step : Step F)
      (name : String) (k : ℕ)
      → (exhausted policy now run index step name).1 ≢ retry k
  unfolding exhausted
  exhausted-no_retry OnExhaust.go_on now run index step name k =
      review-no_retry index step (complete now index false (drop_response run name)) k
  exhausted-no_retry OnExhaust.fail_run now run index step name k = ground arith

  loop-no_retry :
      (o : Option LoopConfig) (now : ℕ) (run : WorkflowRun F) (index t : ℕ) (step : Step F)
      (g : GateFields F) (name : String) (k : ℕ)
      → (loop_or_goto o now run index t step g name).1 ≢ retry k
  unfolding loop_or_goto
  loop-no_retry none now run index t step g name k = goto-no_retry now run index t true k
  loop-no_retry (some loop) now run index t step g name k =
      let counted = with_steps run (update_gate index count_loop (steps_of_run run)) in
      ground (
        arith,
        goto-no_retry now run index t true k,
        goto-no_retry now counted index t true k,
        exhausted-no_retry loop.on_exhaust now counted index step name k,
      )

  pub fail_to-retry :
      (goto : Goto) (now : ℕ) (run : WorkflowRun F) (index : ℕ) (step : Step F)
      (runtime : StepRuntime) (g h : GateFields F) (name : String) (k : ℕ)
      → get_elem? (steps_of_run run) index ≡ some (record { runtime = runtime; kind = gate h })
      → h.invalid_attempts ≡ g.invalid_attempts
      → h.malformed_attempts ≡ g.malformed_attempts
      → (fail_to goto now run index step g name).1 ≡ retry k
      → RetriesVerifier (gate_tries g) index k (fail_to goto now run index step g name).0
  unfolding fail_to handle_invalid_verdict
  fail_to-retry stay now run index step runtime g h name k at si sm again =
      absurd (ground (arith, again))
  fail_to-retry (jump t) now run index step runtime g h name k at si sm again =
      elim (loop-no_retry g.loop now run index t step g name k again) [ ]
  fail_to-retry Goto.invalid now run index step runtime g h name k at si sm again =
      invalid-retry (policy_of false g) now run index step runtime g h name false k at si sm again

  pub give_up_to-retry :
      (goto : Goto) (now : ℕ) (run : WorkflowRun F) (index : ℕ) (step : Step F)
      (runtime : StepRuntime) (g h : GateFields F) (name : String) (k : ℕ)
      → get_elem? (steps_of_run run) index ≡ some (record { runtime = runtime; kind = gate h })
      → h.invalid_attempts ≡ g.invalid_attempts
      → h.malformed_attempts ≡ g.malformed_attempts
      → (give_up_to goto now run index step g name).1 ≡ retry k
      → RetriesVerifier (gate_tries g) index k (give_up_to goto now run index step g name).0
  unfolding give_up_to handle_invalid_verdict
  give_up_to-retry stay now run index step runtime g h name k at si sm again =
      absurd (ground (arith, again))
  give_up_to-retry (jump t) now run index step runtime g h name k at si sm again =
      elim (goto-no_retry now run index t true k again) [ ]
  give_up_to-retry Goto.invalid now run index step runtime g h name k at si sm again =
      invalid-retry (policy_of false g) now run index step runtime g h name false k at si sm again

  rerun_own :
      (r : StepRuntime) (h : GateFields F)
      → kind_tries (rerun_step true (gate h) r).kind ≡ some (gate_tries h)
  unfolding rerun_step
  rerun_own r h = refl

  retry_steps-own :
      (producer index : ℕ) (steps : List (Step F)) (runtime : StepRuntime) (h : GateFields F)
      (run : WorkflowRun F)
      → get_elem? steps index ≡ some (record { runtime = runtime; kind = gate h })
      → tries_at
          (update_step index clear_actor (with_steps run (retry_steps producer index steps)))
          index
        ≡ some (gate_tries h)
  unfolding retry_steps
  retry_steps-own producer index steps runtime h run at = ground (
    arith,
    at,
    rerun_own runtime h,
    nat_eq_iff index index,
    get_elem?-modify_range (rerun_before index) (suc index - producer) producer index steps,
    get_elem?-modify (retry_steps producer index steps) index index clear_actor,
  )

  is_task-clear :
      (steps : List (Step F)) (index k : ℕ)
      → is_task (get_elem? (modify steps index clear_actor) k) ≡ is_task (get_elem? steps k)
  is_task-clear steps index k = elim (Option-cases (get_elem? steps k)) [
    | inl e ↦ ground (arith, e, get_elem?-modify steps index k clear_actor)
    | inr (s, e) ↦ ground (arith, e, get_elem?-modify steps index k clear_actor)
  ]

  pub retry_from-retry :
      (producer : ℕ) (run : WorkflowRun F) (index : ℕ) (runtime : StepRuntime) (h : GateFields F)
      (name : String) (k : ℕ)
      → get_elem? (steps_of_run run) index ≡ some (record { runtime = runtime; kind = gate h })
      → (retry_from producer run index name).1 ≡ retry k
      → (is_task (get_elem? (steps_of_run (retry_from producer run index name).0) k) ≡ true)
        × (tries_at (retry_from producer run index name).0 index ≡ some (gate_tries h))
  unfolding retry_from maybe_pause_before_workflow_step
  retry_from-retry producer run index runtime h name k at =
      let steps = retry_steps producer index (steps_of_run run) in
      let again_view = record run.view { steps = some steps } in
      let moved = record run { view = move_active_workflow_step again_view index producer } in
      let same = ap (λ o. get_or o []) (steps-move again_view index producer) in
      elim (Bool-cases (is_task (get_elem? steps producer))) [
        | inl produces ↦
            rw produces
              (elim (Bool-cases (needs_approval_before (get_elem? (steps_of_run moved) producer))) [
                | inl pauses ↦ rw pauses (λ again. absurd (ground (arith, again)))
                | inr goes_on ↦ rw goes_on (λ again. (
                  ground (arith, again, produces, same, is_task-clear steps index k),
                  ap
                        (λ xs. elim (get_elem? (modify xs index clear_actor) index) [
                          | none ↦ none
                          | some step ↦ kind_tries step.kind
                        ])
                        same
                      ∙ retry_steps-own producer index (steps_of_run run) runtime h run at,
                ))
              ])
        | inr other ↦ rw other (λ again. absurd (ground (arith, again)))
      ]

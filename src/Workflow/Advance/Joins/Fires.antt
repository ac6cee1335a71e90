-- ===== src/Workflow/Advance/Joins/Fires.antt =====
-- When a join of fanout.ts fires, and with what.
use octeam.Prelude.{
  ℕ, ◌≡◌, ◌≢◌, inl, inr, refl, ap, ◌∙◌, String, Bool, true, not, ◌&&◌, Option, some, List, [], ◌∷◌,
  arith, get_or, get_elem?, get_elem?-modify_self, is_some, eq_iff, eq_string, str_eq, Bool-cases,
}
use octeam.Prelude.Member.{includes}
use octeam.Workflow.Types.{JoinMetadata, Step}
use octeam.Workflow.Dag.Actors.{has_reducer}
use octeam.Workflow.Fanout.{without, join_of, set_join, branch_ids_for_join}
use octeam.Workflow.Fanout.Marking.{includes-without}
use octeam.Workflow.Engine.State.{WorkflowRun, steps_of_run}
use octeam.Modes.Signoff.{Reviewer}
use octeam.Workflow.Dispatch.Send.{keep_names}
use octeam.Workflow.Verdicts.Settle.{update_step}
use octeam.Workflow.Advance.Truncate.{Texts}
use octeam.Workflow.Advance.Outputs.{build_joined_workflow_output}
use octeam.Workflow.Advance.Joins.{
  JoinAdvance, is_unskipped, survivor_branch_ids_for_join, join_with_branch_status, ask_reducer,
  fire_join, complete_workflow_join_step,
}

pub includes-keep_names :
    (test : String → Bool) (names : List String) (a : String)
    → includes (keep_names test names) a ≡ (includes names a && test a)
unfolding keep_names includes
includes-keep_names test [] a = refl
includes-keep_names test (x ∷ xs) a = elim (Bool-cases (str_eq x a)) [
  | inl same ↦
      let e = ap test ((eq_iff x a).0 same) in
      ground (arith, same, e, includes-keep_names test xs a)
  | inr other ↦ ground (arith, other, includes-keep_names test xs a)
]

module _ {F : Type 0} where
  -- The join of a fired step, as it was before and as it is now.
  pub record Fires (texts : Texts) (steps : List (Step F)) (index : ℕ) (old new : JoinMetadata F)
      : Type 0 where
    pub output :
        new.joined_output
        ≡ some (get_or old.joined_output (build_joined_workflow_output texts steps index))
    pub answered : has_reducer old.join_policy ≡ true → is_some old.joined_output ≡ true
    pub survivors :
        (id : String)
        → includes (get_or new.survivor_branch_ids []) id ≡ (
            includes (branch_ids_for_join steps old) id
            && not (includes (get_or old.errored_branch_ids []) id)
            && is_unskipped steps old id)

  -- The step is a completed join that has fired.
  abbrev pub IsFired : Texts → List (Step F) → ℕ → JoinMetadata F → Option (Step F) → Type 0
  IsFired texts steps index old o =
      (step : Step F) × (new : JoinMetadata F) × (o ≡ some step)
      × (step.completed ≡ true)
      × (join_of (some step) ≡ some new)
      × Fires texts steps index old new

  pub survivors-includes :
      (steps : List (Step F)) (j : JoinMetadata F) (id : String)
      → includes (survivor_branch_ids_for_join steps j) id ≡ (
          includes (branch_ids_for_join steps j) id
          && not (includes (get_or j.errored_branch_ids []) id)
          && is_unskipped steps j id)
  unfolding survivor_branch_ids_for_join
  survivors-includes steps j id =
      includes-keep_names (is_unskipped steps j)
        (without (get_or j.errored_branch_ids []) (branch_ids_for_join steps j)) id
      ∙ ap (λ b. b && is_unskipped steps j id)
          (includes-without (get_or j.errored_branch_ids []) (branch_ids_for_join steps j) id)

  asks :
      (members : List Reviewer) (now : ℕ) (uuid : String) (run : WorkflowRun F) (index : ℕ)
      (step : Step F) (j : JoinMetadata F)
      → (ask_reducer members now uuid run index step j).1 ≢ JoinAdvance.completed
  unfolding ask_reducer
  asks members now uuid run index step j = ground arith

  fire_join-IsFired :
      (texts : Texts) (now : ℕ) (steps : List (Step F)) (index : ℕ) (step : Step F)
      (j : JoinMetadata F)
      → (has_reducer j.join_policy ≡ true → is_some j.joined_output ≡ true)
      → IsFired texts steps index j (
          some (
            fire_join now
              (join_with_branch_status steps j)
              (build_joined_workflow_output texts steps index)
              step))
  unfolding fire_join join_with_branch_status
  fire_join-IsFired texts now steps index step j answered = (
    _,
    _,
    refl,
    refl,
    refl,
    record { output = refl; answered = answered; survivors = survivors-includes steps j },
  )

  -- A join fires only when it is completed by it, with its joined output: the text of its reducer or
  -- selector, which must be there, or else the outputs of its branches. Its survivors are exactly the
  -- branches of the fanout that are not recorded as errored and whose tail was not skipped.
  pub join_fires :
      (texts : Texts) (members : List Reviewer) (now : ℕ) (uuid : String) (run : WorkflowRun F)
      (index : ℕ) (step : Step F) (j : JoinMetadata F)
      → get_elem? (steps_of_run run) index ≡ some step
      → join_of (some step) ≡ some j
      → (complete_workflow_join_step texts members now uuid run index).1 ≡ JoinAdvance.completed
      → IsFired texts (steps_of_run run) index j (
          get_elem?
            (steps_of_run (complete_workflow_join_step texts members now uuid run index).0)
            index)
  unfolding complete_workflow_join_step
  join_fires texts members now uuid run index step j at has =
      let base = join_with_branch_status (steps_of_run run) j in
      let set = update_step index (set_join base) run in
      let output = build_joined_workflow_output texts (steps_of_run run) index in
      elim (Bool-cases step.completed) [
        | inl over ↦ rw (complete_workflow_join_step, at, has, over) (λ h. absurd (cc))
        | inr still ↦
            elim (Bool-cases (has_reducer j.join_policy && not (is_some j.joined_output))) [
              | inl waits ↦
                  rw (complete_workflow_join_step, at, has, still, waits)
                    (λ h. absurd (asks members now uuid set index step base h))
              | inr fires ↦
                  rw (complete_workflow_join_step, at, has, still, fires)
                    (λ _.
                      rw
                        (get_elem?-modify_self (steps_of_run run) index (fire_join now base output)
                          step at)
                        (fire_join-IsFired texts now (steps_of_run run) index step j
                          (λ h. ground (arith, fires, h))))
            ]
      ]

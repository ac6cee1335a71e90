-- ===== src/Workflow/Engine/Jumps.antt =====
-- What a jump of engine.ts does to the steps, and to the bounds on jumps.
use octeam.Prelude.{
  ℕ, suc, ◌-◌, ◌≤◌, ◌<◌, ◌≡◌, ◌≢◌, ◌⊎◌, inl, inr, refl, ap, sym, ◌∙◌, Bool, true, false, ◌||◌, none,
  some, List, [], ◌∷◌, arith, get_elem?, get_elem?-modify_ne, nat_eq, nat_eq_iff, eq_nat,
  if◌then◌else◌, Bool-cases, Option-cases,
}
use octeam.Prelude.Member.{includes, push_unique, includes-push_unique}
use octeam.Prelude.Ranges.{modify_range, get_elem?-modify, get_elem?-modify_range}
use octeam.Workflow.Types.{
  GateFields, StepKind, task, gate, fanout, join, Step, StepRuntime, TaskView,
}
use octeam.Workflow.Dag.Actors.{get_active_workflow_step_indices}
use octeam.Workflow.Dag.Actors.Sorting.{includes-sorted}
use octeam.Workflow.Gates.Targets.{gate_at}
use octeam.Workflow.Engine.State.{
  WorkflowRun, enter, steps_of_run, with_steps, mark_workflow_step_completed,
  move_active_workflow_step, replace_active, rerun_runtime, reset_workflow_step_timing,
}
use octeam.Workflow.Engine.Rerun.{rerun, rerun_step, rerun_range}
use octeam.Workflow.Engine.Goto.{
  update_gate, count_jump, is_backward_loop, jump_limit_hit, jump_steps, make_jump,
  goto_workflow_step, skip_over, settle_step,
}

-- The cursor of a jump contains its target.
replace_active-target :
    (from to : ℕ) (is next : List ℕ) (replaced : Bool)
    → (replaced ≡ true → includes next to ≡ true)
    → (replace_active from to is next replaced).1 ≡ true
    → includes (replace_active from to is next replaced).0 to ≡ true
unfolding replace_active includes
replace_active-target from to [] next replaced h r = h r
replace_active-target from to (i ∷ is) next replaced h r =
    replace_active-target from to is (push_unique next (if nat_eq i from then to else i))
      (replaced || nat_eq i from)
      (λ q. ground (
        arith,
        h,
        q,
        nat_eq_iff to to,
        includes-push_unique next (if nat_eq i from then to else i) to,
      ))
      r

away : (gi k t : ℕ) → ((k < gi) × (k < t)) ⊎ ((gi < k) × (t ≤ k)) → gi ≢ k
away gi k t out e = ground (arith, out, e)

module _ {F : Type 0} where
  -- A step that was reset: it is to be done, and nobody works on it.
  abbrev pub IsReset : Step F → Type 0
  IsReset step =
      (step.completed ≡ false) × (step.skipped ≡ some false) × (step.dispatched_at ≡ none)

  rerun_step-IsReset :
      (keeps : Bool) (kind : StepKind F) (r : StepRuntime) → IsReset (rerun_step keeps kind r)
  unfolding rerun_step rerun_runtime reset_workflow_step_timing
  rerun_step-IsReset keeps (task t) r = (refl, refl, refl)
  rerun_step-IsReset true (gate g) r = (refl, refl, refl)
  rerun_step-IsReset false (gate g) r = (refl, refl, refl)
  rerun_step-IsReset keeps (fanout m) r = (refl, refl, refl)
  rerun_step-IsReset keeps (join none) r = (refl, refl, refl)
  rerun_step-IsReset keeps (join (some j)) r = (refl, refl, refl)

  skip_over-completed : (now k : ℕ) (step : Step F) → (skip_over now k step).completed ≡ true
  unfolding skip_over mark_workflow_step_completed
  skip_over-completed now k step = ground arith

  settle_step-completed : (now : ℕ) (step : Step F) → (settle_step now step).completed ≡ true
  unfolding settle_step
  settle_step-completed now step = refl

  pub steps-move :
      (t : TaskView F) (from to : ℕ) → (move_active_workflow_step t from to).steps ≡ t.steps
  unfolding move_active_workflow_step
  steps-move t from to = ground arith

  pub steps-make_jump :
      (now : ℕ) (run : WorkflowRun F) (gi t : ℕ) (step : Step F) (g : GateFields F)
      → steps_of_run (make_jump now run gi t step g) ≡ jump_steps now gi t (steps_of_run run)
  unfolding make_jump
  steps-make_jump now run gi t step g = ground (
    arith,
    steps-move (record run.view { steps = some (jump_steps now gi t (steps_of_run run)) }) gi t,
  )

  -- A jump that is made, and from which state.
  entered :
      (now : ℕ) (run after : WorkflowRun F) (gi t x : ℕ) (on_fail : Bool)
      → goto_workflow_step now run gi t on_fail ≡ (after, enter x)
      → (step : Step F) × (g : GateFields F) × (gate_at (steps_of_run run) gi ≡ some (step, g))
        × (x ≡ t)
        × (((is_backward_loop gi t g on_fail ≡ true) × (after ≡ make_jump now run gi t step g))
            ⊎ ((is_backward_loop gi t g on_fail ≡ false)
                × (jump_limit_hit g ≡ false)
                × (after
                    ≡ make_jump now
                        (with_steps run (update_gate gi count_jump (steps_of_run run)))
                        gi
                        t
                        step
                        g)))
  unfolding goto_workflow_step
  entered now run after gi t x on_fail h = elim (Option-cases (gate_at (steps_of_run run) gi)) [
    | inl e ↦ absurd (ground (arith, e, h))
    | inr ((step, g), e) ↦ elim (Option-cases (get_elem? (steps_of_run run) t)) [
      | inl missing ↦ absurd (ground (arith, e, h, missing))
      | inr (target, found) ↦ (
        step,
        g,
        e,
        ground (arith, e, h, found),
        elim (Bool-cases (is_backward_loop gi t g on_fail)) [
          | inl loop ↦ inl (loop, ground (arith, e, h, found, loop))
          | inr plain ↦ elim (Bool-cases (jump_limit_hit g)) [
            | inl over ↦ absurd (ground (arith, e, h, found, plain, over))
            | inr within ↦ inr (plain, within, ground (arith, e, h, found, plain, within))
          ]
        ],
      )
    ]
  ]

  jump_steps-back :
      (now gi t k : ℕ) (steps : List (Step F)) (step : Step F)
      → t < gi
      → t ≤ k
      → k ≤ gi
      → get_elem? (jump_steps now gi t steps) k ≡ some step
      → IsReset step
  unfolding jump_steps rerun_range
  jump_steps-back now gi t k steps step back low high h = elim (Option-cases (get_elem? steps k)) [
    | inl e ↦ absurd (ground (arith, e, h, get_elem?-modify_range rerun (suc gi - t) t k steps))
    | inr (old, e) ↦
        let found : some (rerun k old) ≡ some step =
          ground (arith, e, h, get_elem?-modify_range rerun (suc gi - t) t k steps) in
        ground (arith, found, rerun_step-IsReset false old.kind old.runtime)
  ]

  jump_steps-forward :
      (now gi t k : ℕ) (steps : List (Step F)) (step : Step F)
      → gi < t
      → gi ≤ k
      → k < t
      → get_elem? (jump_steps now gi t steps) k ≡ some step
      → step.completed ≡ true
  unfolding jump_steps
  jump_steps-forward now gi t k steps step ahead low high h =
      let skipped = modify_range (skip_over now) (t - suc gi) (suc gi) steps in
      elim (Option-cases (get_elem? steps k)) [
        | inl e ↦ absurd (
            ground (
              arith,
              e,
              h,
              get_elem?-modify skipped gi k (settle_step now),
              get_elem?-modify_range (skip_over now) (t - suc gi) (suc gi) k steps,
            ))
        | inr (old, e) ↦ ground (
          arith,
          e,
          h,
          nat_eq_iff gi k,
          get_elem?-modify skipped gi k (settle_step now),
          get_elem?-modify_range (skip_over now) (t - suc gi) (suc gi) k steps,
          skip_over-completed now k old,
          settle_step-completed now old,
        )
      ]

  jump_steps-outside :
      (now gi t k : ℕ) (steps : List (Step F))
      → ((k < gi) × (k < t)) ⊎ ((gi < k) × (t ≤ k))
      → get_elem? (jump_steps now gi t steps) k ≡ get_elem? steps k
  unfolding jump_steps rerun_range
  jump_steps-outside now gi t k steps out =
      let skipped = modify_range (skip_over now) (t - suc gi) (suc gi) steps in
      ground (
        arith,
        get_elem?-modify skipped gi k (settle_step now),
        get_elem?-modify_range (skip_over now) (t - suc gi) (suc gi) k steps,
        get_elem?-modify_range rerun (suc gi - t) t k steps,
      )

  move-active :
      (t : TaskView F) (from to : ℕ)
      → includes (get_active_workflow_step_indices (move_active_workflow_step t from to)) to ≡ true
  unfolding move_active_workflow_step get_active_workflow_step_indices includes
  move-active t from to = elim (Option-cases t.active_step_indices) [
    | inl e ↦ ground (arith, e, nat_eq_iff to to)
    | inr (indices, e) ↦
        let result = replace_active from to indices [] false in
        ground (
          arith,
          e,
          nat_eq_iff to to,
          replace_active-target from to indices [] false (λ q. absurd (ground (arith, q))),
          includes-push_unique result.0 to to,
          includes-sorted (if result.1 then result.0 else push_unique result.0 to) to,
        )
  ]

  active-make_jump :
      (now : ℕ) (run : WorkflowRun F) (gi t : ℕ) (step : Step F) (g : GateFields F)
      → includes (get_active_workflow_step_indices (make_jump now run gi t step g).view) t ≡ true
  unfolding make_jump
  active-make_jump now run gi t step g =
      move-active (record run.view { steps = some (jump_steps now gi t (steps_of_run run)) }) gi t

  -- The steps that a jump starts from: those of the run, but for the count on the gate.
  base-outside :
      (steps : List (Step F)) (gi k : ℕ)
      → gi ≢ k
      → get_elem? (update_gate gi count_jump steps) k ≡ get_elem? steps k
  unfolding update_gate
  base-outside steps gi k ne = get_elem?-modify_ne steps _ ne

  entered_steps :
      (now : ℕ) (run after : WorkflowRun F) (gi t x : ℕ) (on_fail : Bool)
      → goto_workflow_step now run gi t on_fail ≡ (after, enter x)
      → (base : List (Step F)) × ((k : ℕ)
          → gi ≢ k
          → get_elem? base k ≡ get_elem? (steps_of_run run) k)
        × (steps_of_run after ≡ jump_steps now gi t base)
        × (includes (get_active_workflow_step_indices after.view) t ≡ true)
  entered_steps now run after gi t x on_fail h =
      let steps = steps_of_run run in
      let (step, g, at, same, how) = entered now run after gi t x on_fail h in
      elim how [
        | inl (loop, e) ↦ (
          steps,
          λ k ne. refl,
          rw e (steps-make_jump now run gi t step g),
          rw e (active-make_jump now run gi t step g),
        )
        | inr (plain, within, e) ↦
            let counted = with_steps run (update_gate gi count_jump steps) in
            (
              update_gate gi count_jump steps,
              λ k ne. base-outside steps gi k ne,
              rw e (steps-make_jump now counted gi t step g),
              rw e (active-make_jump now counted gi t step g),
            )
      ]

  -- When a jump is made, its target is active. After a jump back every step from the target to the
  -- gate is to be done again and has no dispatch; after a jump forward the gate and every step before
  -- the target are completed; and every step outside of these is as it was.
  pub goto_effect :
      (now : ℕ) (run after : WorkflowRun F) (gi t x : ℕ) (on_fail : Bool)
      → goto_workflow_step now run gi t on_fail ≡ (after, enter x)
      → (includes (get_active_workflow_step_indices after.view) t ≡ true)
        × ((k : ℕ) (step : Step F)
            → t < gi
            → t ≤ k
            → k ≤ gi
            → get_elem? (steps_of_run after) k ≡ some step
            → IsReset step)
        × ((k : ℕ) (step : Step F)
            → gi < t
            → gi ≤ k
            → k < t
            → get_elem? (steps_of_run after) k ≡ some step
            → step.completed ≡ true)
        × ((k : ℕ)
            → ((k < gi) × (k < t)) ⊎ ((gi < k) × (t ≤ k))
            → get_elem? (steps_of_run after) k ≡ get_elem? (steps_of_run run) k)
  goto_effect now run after gi t x on_fail h =
      let (base, same, e, active) = entered_steps now run after gi t x on_fail h in
      (
        active,
        λ k step back low high f.
            jump_steps-back now gi t k base step back low high
              (sym (ap (λ xs. get_elem? xs k) e) ∙ f),
        λ k step ahead low high f.
            jump_steps-forward now gi t k base step ahead low high
              (sym (ap (λ xs. get_elem? xs k) e) ∙ f),
        λ k out.
            ap (λ xs. get_elem? xs k) e
            ∙ jump_steps-outside now gi t k base out
            ∙ same k (away gi k t out),
      )

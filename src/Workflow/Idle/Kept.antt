-- ===== src/Workflow/Idle/Kept.antt =====
-- The fields of a task stay when its dispatch is tried, and when it fails.
use octeam.Prelude.{
  ℕ, zero, suc, ◌-◌, ◌≡◌, inl, inr, refl, ap, sym, ◌∙◌, String, not, ◌||◌, Option, none, some, List,
  [], ◌∷◌, get_or, get_elem?, modify, all, is_some, str_eq, Bool-cases, Option-cases,
}
use octeam.Workflow.Types.{
  TaskFields, GateFields, JoinMetadata, BranchMetadata, StepKind, task, gate, fanout, join, Step,
  TaskView,
}
use octeam.Workflow.JoinPolicy.Ieee.{Fraction}
use octeam.Workflow.Dag.Actors.{
  ensemble, ensemble_result, is_pending_verifier, record_unavailable_ensemble_verifier,
  find_active_workflow_step_index_for_member,
}
use octeam.Workflow.Dag.Joins.{is_same_workflow_branch}
use octeam.Workflow.Fanout.{
  FanoutErrorResult, within_tolerance, not_fanout, failed, join_kind, join_of, set_join,
  skip_in_branch, skip_range, branch_span, with_errored, mark_workflow_branch_steps_skipped,
  remove_active_workflow_branch, release_resolved, fail_top_level, fail_branch, fail_found_branch,
  branch_at, mark_workflow_fanout_branch_errored,
}
use octeam.Workflow.Engine.State.{WorkflowRun, steps_of_run, mark_workflow_step_dispatched}
use octeam.Modes.Signoff.{Reviewer}
use octeam.Workflow.Dispatch.Send.{
  Dispatched, live_workflow_actor, missing_inputs, prompted, refuse_or, prompt_one, task_at,
  dispatch_task_step,
}
use octeam.Workflow.Advance.Joins.{
  dispatch_failure_actor_name, settle_unavailable, handle_workflow_dispatch_unavailable,
}

module _ {F : Type 0} where
  abbrev pub kind_fields : StepKind F → Option TaskFields
  kind_fields (task t) = some t
  kind_fields (gate g) = none
  kind_fields (fanout m) = none
  kind_fields (join m) = none

  abbrev pub task_fields : Option (Step F) → Option TaskFields
  task_fields none = none
  task_fields (some step) = kind_fields step.kind

  abbrev pub fields_at : List (Step F) → ℕ → Option TaskFields
  fields_at steps i = task_fields (get_elem? steps i)

  pub fields_at-modify :
      (steps : List (Step F)) (k : ℕ) (f : Step F → Step F) (i : ℕ)
      → ((s : Step F)
          → get_elem? steps k ≡ some s
          → task_fields (some (f s)) ≡ task_fields (some s))
      → fields_at (modify steps k f) i ≡ fields_at steps i
  fields_at-modify [] k f i same = refl
  fields_at-modify (s ∷ steps) zero f zero same = same s refl
  fields_at-modify (s ∷ steps) zero f (suc i) same = refl
  fields_at-modify (s ∷ steps) (suc k) f zero same = refl
  fields_at-modify (s ∷ steps) (suc k) f (suc i) same = fields_at-modify steps k f i same

  skip_in_branch-fields :
      (branch : BranchMetadata) (step : Step F)
      → task_fields (some (skip_in_branch branch step)) ≡ task_fields (some step)
  unfolding skip_in_branch
  skip_in_branch-fields branch step =
      elim (Bool-cases (not (is_same_workflow_branch step branch) || step.completed)) [
        | inl stays ↦ rw (skip_in_branch, stays) refl
        | inr skips ↦ rw (skip_in_branch, skips) refl
      ]

  skip_range-fields :
      (branch : BranchMetadata) (n index : ℕ) (steps : List (Step F)) (i : ℕ)
      → fields_at (skip_range branch n index steps) i ≡ fields_at steps i
  unfolding skip_range
  skip_range-fields branch zero index steps i = refl
  skip_range-fields branch (suc n) index steps i =
      skip_range-fields branch n (suc index) (modify steps index (skip_in_branch branch)) i
      ∙ fields_at-modify steps index (skip_in_branch branch) i
          (λ s _. skip_in_branch-fields branch s)

  join_kind-fields :
      (kind : StepKind F) (j : JoinMetadata F) → join_kind kind ≡ some j → kind_fields kind ≡ none
  join_kind-fields (task t) j has = absurd (cc)
  join_kind-fields (gate g) j has = refl
  join_kind-fields (fanout m) j has = refl
  join_kind-fields (join m) j has = refl

  join_of-fields :
      (o : Option (Step F)) (j : JoinMetadata F) → join_of o ≡ some j → task_fields o ≡ none
  join_of-fields none j has = refl
  join_of-fields (some step) j has = join_kind-fields step.kind j has

  ensemble-fields :
      (kind : StepKind F) (found : GateFields F × List String)
      → ensemble kind ≡ some found
      → kind_fields kind ≡ none
  ensemble-fields (task t) found has = absurd (cc)
  ensemble-fields (gate g) found has = refl
  ensemble-fields (fanout m) found has = refl
  ensemble-fields (join m) found has = refl

  release_resolved-fields :
      (step : Step F) → task_fields (some (release_resolved step)) ≡ task_fields (some step)
  unfolding release_resolved
  release_resolved-fields step = elim (Option-cases (ensemble step.kind)) [
    | inl e ↦ rw (release_resolved, e) refl
    | inr ((g, names), e) ↦ elim (Bool-cases (all (λ v. is_some (ensemble_result g v)) names)) [
      | inl every ↦ rw (release_resolved, e, every) refl
      | inr open_one ↦ rw (release_resolved, e, open_one) refl
    ]
  ]

  record_unavailable-fields :
      (s after : Step F) (name : String)
      → (record_unavailable_ensemble_verifier (some s) name).0 ≡ some after
      → task_fields (some after) ≡ task_fields (some s)
  unfolding record_unavailable_ensemble_verifier
  record_unavailable-fields s after name = elim (Option-cases (ensemble s.kind)) [
    | inl e ↦ rw (record_unavailable_ensemble_verifier, e) (λ h. sym (ap task_fields h))
    | inr ((g, names), e) ↦ elim (Bool-cases (is_pending_verifier g names name)) [
      | inl pending ↦
          rw (record_unavailable_ensemble_verifier, e, pending)
            (λ h. sym (ap task_fields h) ∙ sym (ensemble-fields s.kind (g, names) e))
      | inr old ↦ rw (record_unavailable_ensemble_verifier, e, old) (λ h. sym (ap task_fields h))
    ]
  ]

  fail_top_level-fields :
      (t : TaskView F) (k : ℕ) (name : String) (i : ℕ)
      → fields_at (get_or (fail_top_level t k name).0.steps []) i ≡ fields_at (get_or t.steps []) i
  unfolding fail_top_level
  fail_top_level-fields t k name i =
      let made = record_unavailable_ensemble_verifier (get_elem? (get_or t.steps []) k) name in
      elim (Option-cases made.0) [
        | inl e ↦ rw (fail_top_level, e) refl
        | inr (after, e) ↦ elim (Bool-cases made.1) [
          | inr unrecorded ↦ rw (fail_top_level, e, unrecorded) refl
          | inl recorded ↦
              rw (fail_top_level, e, recorded)
                (fields_at-modify (get_or t.steps []) k (λ old. release_resolved after) i
                  (λ s at.
                    release_resolved-fields after
                    ∙ record_unavailable-fields s after name (rw at at e)))
        ]
      ]

  skipped-fields :
      (steps : List (Step F)) (branch : BranchMetadata) (i : ℕ)
      → fields_at (mark_workflow_branch_steps_skipped steps branch) i ≡ fields_at steps i
  unfolding mark_workflow_branch_steps_skipped
  skipped-fields steps branch i =
      let span = branch_span steps branch in
      skip_range-fields branch (span.1 - span.0) span.0 steps i

  prompted-fields :
      (now : ℕ) (uuid actor : String) (s : Step F)
      → task_fields (some (prompted now uuid actor s)) ≡ task_fields (some s)
  unfolding prompted mark_workflow_step_dispatched
  prompted-fields now uuid actor s = refl

  prompt_one-fields :
      (now : ℕ) (uuid : String) (run : WorkflowRun F) (index : ℕ) (actor : Reviewer) (i : ℕ)
      → fields_at (steps_of_run (prompt_one now uuid run index actor).0) i
        ≡ fields_at (steps_of_run run) i
  unfolding prompted
  prompt_one-fields now uuid run index actor i =
      fields_at-modify (steps_of_run run) index (prompted now uuid actor.name) i
        (λ s _. prompted-fields now uuid actor.name s)

  refuse_or-fields :
      (index : ℕ) (missing : List ℕ) (run : WorkflowRun F) (next : WorkflowRun F × Dispatched)
      (i : ℕ)
      → fields_at (steps_of_run next.0) i ≡ fields_at (steps_of_run run) i
      → fields_at (steps_of_run (refuse_or index missing run next).0) i
        ≡ fields_at (steps_of_run run) i
  refuse_or-fields index [] run next i same = same
  refuse_or-fields index (k ∷ ks) run next i same = refl

  pub dispatch_task_step-fields :
      (members : List Reviewer) (now : ℕ) (uuid : String) (run : WorkflowRun F) (index i : ℕ)
      → fields_at (steps_of_run (dispatch_task_step members now uuid run index).0) i
        ≡ fields_at (steps_of_run run) i
  unfolding dispatch_task_step
  dispatch_task_step-fields members now uuid run index i =
      elim (Option-cases (task_at (steps_of_run run) index)) [
        | inl e ↦ rw (dispatch_task_step, e) refl
        | inr ((step, t), e) ↦ elim (Bool-cases (str_eq t.member "" || str_eq t.task "")) [
          | inl blank ↦ rw (dispatch_task_step, e, blank) refl
          | inr full ↦
              elim (Option-cases (live_workflow_actor members (some t.member) t.fallback_member)) [
                | inl gone ↦ rw (dispatch_task_step, e, full, gone) refl
                | inr (actor, live) ↦
                    rw (dispatch_task_step, e, full, live)
                      (refuse_or-fields index
                        (missing_inputs (steps_of_run run) (get_or step.inputs [])) run
                        (prompt_one now uuid run index actor) i
                        (prompt_one-fields now uuid run index actor i))
              ]
        ]
      ]

module _ {F : Type 0} ⦃fr : Fraction F⦄ where
  fail_found_branch-fields :
      (t : TaskView F) (o : Option BranchMetadata) (i : ℕ)
      → fields_at (get_or (fail_found_branch t o).0.steps []) i ≡ fields_at (get_or t.steps []) i
  unfolding fail_found_branch fail_branch remove_active_workflow_branch
  fail_found_branch-fields t none i = refl
  fail_found_branch-fields t (some branch) i =
      elim (Option-cases (join_of (get_elem? (get_or t.steps []) branch.join_index))) [
        | inl e ↦ rw (fail_found_branch, e) refl
        | inr (j, e) ↦
            rw (fail_found_branch, e)
              (skipped-fields
                  (modify (get_or t.steps []) branch.join_index
                    (set_join (with_errored (get_or t.steps []) j branch.branch_id)))
                  branch i
                ∙ fields_at-modify (get_or t.steps []) branch.join_index
                    (set_join (with_errored (get_or t.steps []) j branch.branch_id)) i
                    (λ s at. sym (join_of-fields (some s) j (ap join_of (sym at) ∙ e))))
      ]

  mark-fields :
      (t : TaskView F) (name : String) (i : ℕ)
      → fields_at (get_or (mark_workflow_fanout_branch_errored t name).0.steps []) i
        ≡ fields_at (get_or t.steps []) i
  unfolding mark_workflow_fanout_branch_errored
  mark-fields t name i = elim (Option-cases (find_active_workflow_step_index_for_member t name)) [
    | inl e ↦ rw (mark_workflow_fanout_branch_errored, e) (fail_found_branch-fields t _ i)
    | inr (k, e) ↦ elim (Option-cases (branch_at (get_or t.steps []) k)) [
      | inl top ↦
          rw (mark_workflow_fanout_branch_errored, e, top) (fail_top_level-fields t k name i)
      | inr (branch, in_branch) ↦
          rw (mark_workflow_fanout_branch_errored, e, in_branch)
            (fail_found_branch-fields t (some branch) i)
    ]
  ]

  settle_unavailable-fields :
      (name : String) (run : WorkflowRun F) (view : TaskView F) (result : FanoutErrorResult) (i : ℕ)
      → fields_at (steps_of_run (settle_unavailable name run (view, result)).0) i
        ≡ fields_at (get_or view.steps []) i
  settle_unavailable-fields name run view not_fanout i = refl
  settle_unavailable-fields name run view within_tolerance i = refl
  settle_unavailable-fields name run view (failed reason) i = refl

  -- A dispatch that reaches nobody leaves the fields of each task as they were.
  pub unavailable-fields :
      (run : WorkflowRun F) (step : Step F) (i : ℕ)
      → fields_at (steps_of_run (handle_workflow_dispatch_unavailable run step).0) i
        ≡ fields_at (steps_of_run run) i
  unfolding handle_workflow_dispatch_unavailable
  unavailable-fields run step i = elim (Option-cases (dispatch_failure_actor_name step.kind)) [
    | inl e ↦ rw (handle_workflow_dispatch_unavailable, e) refl
    | inr (name, e) ↦ elim (Bool-cases (is_some step.branch)) [
      | inr top ↦ rw (handle_workflow_dispatch_unavailable, e, top) refl
      | inl in_branch ↦
          let marked = mark_workflow_fanout_branch_errored run.view name in
          rw (handle_workflow_dispatch_unavailable, e, in_branch)
            (settle_unavailable-fields name run marked.0 marked.1 i ∙ mark-fields run.view name i)
    ]
  ]

-- ===== src/Workflow/Fanout/Errored.antt =====
-- A branch error of fanout.ts: the record on the join, the end of the branch, and the verdict.
use octeam.Prelude.{
  ℕ, ◌+◌, ◌-◌, ◌≤◌, ◌<◌, ◌≡◌, ◌⊎◌, inl, inr, refl, sym, ap, ◌∙◌, String, true, false, not, ◌&&◌,
  ◌||◌, none, some, List, [], ◌∷◌, ◌++◌, arith, get_or, get_elem?, modify, get_elem?-modify_self,
  get_elem?-modify_ne, length, nat_eq, nat_eq_iff, str_eq, eq_string, eq_nat, Bool-cases,
  Option-cases, subst,
}
use octeam.Prelude.Member.{includes, IsUnique, includes-append}
use octeam.Workflow.Types.{
  BranchMetadata, JoinMetadata, Step, TaskView, StepKind, task, gate, fanout, join,
}
use octeam.Workflow.JoinPolicy.{join_policy_satisfied}
use octeam.Workflow.JoinPolicy.Ieee.{Fraction, FractionLaws}
use octeam.Workflow.JoinPolicy.FailFast.{join_policy_impossible_sound}
use octeam.Workflow.Dag.Actors.{
  find_active_workflow_step_index_for_member, get_active_workflow_step_indices,
}
use octeam.Workflow.Dag.Actors.Sorting.{includes-sorted}
use octeam.Workflow.Dag.Joins.{is_same_workflow_branch, fanout_of}
use octeam.Workflow.Fanout.{
  FailReason, failed, distinct_from, without, join_of, join_kind, with_errored, set_join,
  branch_ids_for_join, branch_span, skip_range, mark_workflow_branch_steps_skipped, outside_branch,
  keep_outside, or_join, remove_active_workflow_branch, evaluate_workflow_fanout_error, fail_branch,
  fail_found_branch, branch_at, mark_workflow_fanout_branch_errored,
}
use octeam.Workflow.Fanout.Marking.{
  includes-distinct_from, distinct_from-IsUnique, includes-without, includes-keep_outside,
  get_elem?-skip_range, skip_in_branch_completes, skip_in_branch-branch, join_of-skip_range,
}

includes-or_join :
    (is : List ℕ) (join_index k : ℕ)
    → includes (or_join is join_index) k ≡ true
    → (k ≡ join_index) ⊎ (includes is k ≡ true)
unfolding includes
includes-or_join [] join_index k h = ground (arith, nat_eq_iff join_index k)
includes-or_join (i ∷ is) join_index k h = inr h

module _ {F : Type 0} where
  -- The metadata that a branch error writes stands at the join after the branch was skipped.
  join_of-skipped :
      (steps : List (Step F)) (branch : BranchMetadata) (j new : JoinMetadata F)
      → join_of (get_elem? steps branch.join_index) ≡ some j
      → join_of (
          get_elem?
            (mark_workflow_branch_steps_skipped
              (modify steps branch.join_index (set_join new))
              branch)
            branch.join_index)
        ≡ some new
  unfolding mark_workflow_branch_steps_skipped
  join_of-skipped steps branch j new h = elim (Option-cases (get_elem? steps branch.join_index)) [
    | inl e ↦ absurd (ground (arith, e))
    | inr (step, e) ↦
        let joined = modify steps branch.join_index (set_join new) in
        let span = branch_span joined branch in
        join_of-skip_range branch (span.1 - span.0) span.0 branch.join_index joined
        ∙ ap join_of (get_elem?-modify_self steps branch.join_index (set_join new) step e)
  ]

  includes-with_errored :
      (steps : List (Step F)) (j : JoinMetadata F) (id other : String)
      → includes (get_or (with_errored steps j id).errored_branch_ids []) other
        ≡ (includes (get_or j.errored_branch_ids []) other || str_eq id other)
  unfolding with_errored includes
  includes-with_errored steps j id other =
      let old = get_or j.errored_branch_ids [] in
      ground (
        arith,
        includes-distinct_from [] (old ++ id ∷ []) other,
        includes-append old (id ∷ []) other,
      )

  with_errored-IsUnique :
      (steps : List (Step F)) (j : JoinMetadata F) (id : String)
      → IsUnique (get_or (with_errored steps j id).errored_branch_ids [])
  unfolding with_errored
  with_errored-IsUnique steps j id =
      distinct_from-IsUnique [] (get_or j.errored_branch_ids [] ++ id ∷ []) tt

  survivors-with_errored :
      (steps : List (Step F)) (j : JoinMetadata F) (id other : String)
      → includes (get_or (with_errored steps j id).survivor_branch_ids []) other ≡ (
          includes (branch_ids_for_join steps j) other
          && not (includes (get_or (with_errored steps j id).errored_branch_ids []) other))
  unfolding with_errored
  survivors-with_errored steps j id other =
      includes-without (distinct_from [] (get_or j.errored_branch_ids [] ++ id ∷ []))
        (branch_ids_for_join steps j) other

  -- An index that stays active is the join, or lies outside of the branch.
  active-outside :
      (t : TaskView F) (branch : BranchMetadata) (k : ℕ)
      → includes (get_active_workflow_step_indices (remove_active_workflow_branch t branch)) k
        ≡ true
      → (k ≡ branch.join_index) ⊎ (outside_branch (get_or t.steps []) branch k ≡ true)
  unfolding remove_active_workflow_branch get_active_workflow_step_indices
  active-outside t branch k h =
      let steps = get_or t.steps [] in
      let active = get_active_workflow_step_indices t in
      let next = keep_outside steps branch active in
      ground (
        arith,
        includes-sorted (or_join next branch.join_index) k,
        includes-or_join next branch.join_index k,
        includes-keep_outside steps branch active k,
      )

  fanout_of_join :
      (kind : StepKind F) (step : Step F) (j : JoinMetadata F)
      → step.kind ≡ kind
      → join_kind kind ≡ some j
      → fanout_of (some step) ≡ none
  fanout_of_join (join m) step j e h = ground (arith, e)
  fanout_of_join (task x) step j e h = absurd (cc)
  fanout_of_join (gate x) step j e h = absurd (cc)
  fanout_of_join (fanout x) step j e h = absurd (cc)

  -- Writing the join's metadata leaves every fanout marker, so the span of the branch is the same.
  fanout_of-modify :
      (steps : List (Step F)) (i k : ℕ) (j new : JoinMetadata F)
      → join_of (get_elem? steps i) ≡ some j
      → fanout_of (get_elem? (modify steps i (set_join new)) k) ≡ fanout_of (get_elem? steps k)
  fanout_of-modify steps i k j new h = elim (Bool-cases (nat_eq i k)) [
    | inr ne ↦ ap fanout_of (
        get_elem?-modify_ne steps {i = i} {j = k} (set_join new)
          (λ e. ground (arith, nat_eq_iff i k, e)))
    | inl same ↦ elim (Option-cases (get_elem? steps i)) [
      | inl e ↦ absurd (ground (arith, e))
      | inr (step, e) ↦
          let here = (nat_eq_iff i k).0 same in
          subst
            (λ x.
              fanout_of (get_elem? (modify steps i (set_join new)) x)
              ≡ fanout_of (get_elem? steps x))
            here
            (ap fanout_of (get_elem?-modify_self steps i (set_join new) step e)
              ∙ sym (ap fanout_of e ∙ fanout_of_join step.kind step j refl (ground (arith, e))))
    ]
  ]

  branch_span-modify :
      (steps : List (Step F)) (i : ℕ) (branch : BranchMetadata) (j new : JoinMetadata F)
      → join_of (get_elem? steps i) ≡ some j
      → branch_span (modify steps i (set_join new)) branch ≡ branch_span steps branch
  unfolding branch_span
  branch_span-modify steps i branch j new h =
      rw (branch_span, fanout_of-modify steps i branch.fanout_index j new h) refl

  skipped-skip_range :
      (steps : List (Step F)) (branch : BranchMetadata) (j new : JoinMetadata F)
      → join_of (get_elem? steps branch.join_index) ≡ some j
      → mark_workflow_branch_steps_skipped (modify steps branch.join_index (set_join new)) branch
        ≡ skip_range branch
            ((branch_span steps branch).1 - (branch_span steps branch).0)
            (branch_span steps branch).0
            (modify steps branch.join_index (set_join new))
  unfolding mark_workflow_branch_steps_skipped
  skipped-skip_range steps branch j new h =
      ap
        (λ span.
          skip_range branch (span.1 - span.0) span.0
            (modify steps branch.join_index (set_join new)))
        (branch_span-modify steps branch.join_index branch j new h)

  -- In the span, a step of the branch is completed afterwards.
  completed-skip_range :
      (branch : BranchMetadata) (n i k : ℕ) (xs : List (Step F)) (step : Step F)
      → get_elem? (skip_range branch n i xs) k ≡ some step
      → is_same_workflow_branch step branch ≡ true
      → i ≤ k
      → k < i + n
      → step.completed ≡ true
  unfolding is_same_workflow_branch
  completed-skip_range branch n i k xs step h own from to = elim (Option-cases (get_elem? xs k)) [
    | inl e ↦ absurd (ground (arith, e, get_elem?-skip_range branch n i k xs))
    | inr (old, e) ↦ ground (
      arith,
      e,
      get_elem?-skip_range branch n i k xs,
      skip_in_branch_completes branch old,
      skip_in_branch-branch branch old,
    )
  ]

module _ {F : Type 0} ⦃fr : Fraction F⦄ (laws : FractionLaws fr) where
  -- When the verdict on a fanout with as many branch ids as branch tails is `failed`, no later outcome
  -- satisfies its join: for every list of survivors no longer than the branches that remain and free
  -- of the errored branches, and every number of errors at least that of the errored branches.
  pub evaluate_failed_sound :
      (steps : List (Step F)) (join_index : ℕ) (j : JoinMetadata F) (reason : FailReason)
      (survivor_ids : List String) (errors : ℕ)
      → join_of (get_elem? steps join_index) ≡ some j
      → length (branch_ids_for_join steps j) ≡ length j.branch_tail_indices
      → evaluate_workflow_fanout_error steps join_index ≡ failed reason
      → length survivor_ids
        ≤ length (
            without
              (distinct_from [] (get_or j.errored_branch_ids []))
              (branch_ids_for_join steps j))
      → length (distinct_from [] (get_or j.errored_branch_ids [])) ≤ errors
      → ((id : String)
          → includes (get_or j.errored_branch_ids []) id ≡ true
          → includes survivor_ids id ≡ false)
      → join_policy_satisfied j survivor_ids errors ≡ false
  unfolding evaluate_workflow_fanout_error includes
  evaluate_failed_sound steps join_index j reason survivor_ids errors here tails h s e apart =
      let errored = distinct_from [] (get_or j.errored_branch_ids []) in
      let ids = branch_ids_for_join steps j in
      join_policy_impossible_sound laws j errored (length (without errored ids)) (length ids)
        survivor_ids errors tails s e
        (λ id m.
          apart id (ground (arith, includes-distinct_from [] (get_or j.errored_branch_ids []) id)))
        (ground (arith, here, h))

module _ {F : Type 0} ⦃fr : Fraction F⦄ where
  mark-fail_branch :
      (t : TaskView F) (name : String) (i : ℕ) (branch : BranchMetadata) (j : JoinMetadata F)
      → find_active_workflow_step_index_for_member t name ≡ some i
      → branch_at (get_or t.steps []) i ≡ some branch
      → join_of (get_elem? (get_or t.steps []) branch.join_index) ≡ some j
      → mark_workflow_fanout_branch_errored t name ≡ fail_branch t branch j
  unfolding mark_workflow_fanout_branch_errored fail_found_branch
  mark-fail_branch t name i branch j found own here = ground (arith, found, own, here)

  -- When a member whose active step belongs to a branch fails, and the branch leads to a join with
  -- metadata, then the join afterwards has the branch among its errored branches beside exactly the
  -- ones that it had, without a repetition, and its survivors are exactly the other branches.
  pub mark_errored_record :
      (t : TaskView F) (name : String) (i : ℕ) (branch : BranchMetadata) (j : JoinMetadata F)
      → find_active_workflow_step_index_for_member t name ≡ some i
      → branch_at (get_or t.steps []) i ≡ some branch
      → join_of (get_elem? (get_or t.steps []) branch.join_index) ≡ some j
      → (new : JoinMetadata F) × (join_of (
            get_elem?
              (get_or (mark_workflow_fanout_branch_errored t name).0.steps [])
              branch.join_index)
          ≡ some new)
        × ((id : String)
            → includes (get_or new.errored_branch_ids []) id
              ≡ (includes (get_or j.errored_branch_ids []) id || str_eq branch.branch_id id))
        × IsUnique (get_or new.errored_branch_ids [])
        × ((id : String)
            → includes (get_or new.survivor_branch_ids []) id ≡ (
                includes (branch_ids_for_join (get_or t.steps []) j) id
                && not (includes (get_or new.errored_branch_ids []) id)))
  unfolding fail_branch remove_active_workflow_branch
  mark_errored_record t name i branch j found own here =
      let steps = get_or t.steps [] in
      let new = with_errored steps j branch.branch_id in
      (
        new,
        rw (mark-fail_branch t name i branch j found own here)
            (join_of-skipped steps branch j new here),
        includes-with_errored steps j branch.branch_id,
        with_errored-IsUnique steps j branch.branch_id,
        survivors-with_errored steps j branch.branch_id,
      )

  -- When a member whose active step belongs to a branch fails, and the branch leads to a join with
  -- metadata, then every index that is active afterwards is the join or lies outside of the branch,
  -- and every step of the branch within its span is completed.
  pub mark_errored_stops :
      (t : TaskView F) (name : String) (i : ℕ) (branch : BranchMetadata) (j : JoinMetadata F)
      → find_active_workflow_step_index_for_member t name ≡ some i
      → branch_at (get_or t.steps []) i ≡ some branch
      → join_of (get_elem? (get_or t.steps []) branch.join_index) ≡ some j
      → ((k : ℕ)
          → includes
              (get_active_workflow_step_indices (mark_workflow_fanout_branch_errored t name).0)
              k
            ≡ true
          → (k ≡ branch.join_index)
            ⊎ (outside_branch
                  (get_or (mark_workflow_fanout_branch_errored t name).0.steps [])
                  branch
                  k
                ≡ true))
        × ((k : ℕ) (step : Step F)
            → get_elem? (get_or (mark_workflow_fanout_branch_errored t name).0.steps []) k
              ≡ some step
            → is_same_workflow_branch step branch ≡ true
            → (branch_span (get_or t.steps []) branch).0 ≤ k
            → k < (branch_span (get_or t.steps []) branch).1
            → step.completed ≡ true)
  unfolding fail_branch remove_active_workflow_branch mark_workflow_branch_steps_skipped
  mark_errored_stops t name i branch j found own here =
      let steps = get_or t.steps [] in
      let new = with_errored steps j branch.branch_id in
      let joined = modify steps branch.join_index (set_join new) in
      let skipped = mark_workflow_branch_steps_skipped joined branch in
      let (from, to) = branch_span steps branch in
      rw (mark-fail_branch t name i branch j found own here) (
        active-outside (record t { steps = some skipped }) branch,
        λ k step h same low high.
            completed-skip_range branch (to - from) from k joined step
              (sym (ap (λ xs. get_elem? xs k) (skipped-skip_range steps branch j new here)) ∙ h)
              same low (omega arith),
      )

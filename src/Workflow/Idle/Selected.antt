-- ===== src/Workflow/Idle/Selected.antt =====
-- What the response of a selector does in handler.ts.
use octeam.Prelude.{
  ℕ, ◌≡◌, inl, inr, refl, ap, sym, subst, ◌∙◌, String, true, false, not, ◌||◌, Option, none, some,
  List, [], arith, get_or, get_elem?, get_elem?-modify_self, str_eq, eq_string, Bool-cases,
}
use octeam.Prelude.Assoc.{lookup}
use octeam.Prelude.Member.{includes}
use octeam.Workflow.Types.{select, JoinMetadata, Step}
use octeam.Workflow.Fanout.{join_of, branch_ids_for_join}
use octeam.Workflow.Engine.State.{WorkflowRun, advance, steps_of_run}
use octeam.Workflow.Advance.Truncate.{Texts}
use octeam.Workflow.Advance.Outputs.{build_branch_workflow_output}
use octeam.Workflow.Advance.Joins.{
  is_unskipped, survivor_branch_ids_for_join, selectable_branch_ids_for_join,
}
use octeam.Workflow.Advance.Joins.Fires.{includes-keep_names, survivors-includes}
use octeam.Workflow.Idle.Joins.{
  Selection, take_output, select_branch, take_selection, take_join_response, handle_join_idle,
  is_reducer,
}

module _ {F : Type 0} where
  -- A branch of the fanout that is not recorded as errored, and was not skipped.
  abbrev pub IsSurvivor : List (Step F) → JoinMetadata F → String → Type 0
  IsSurvivor steps j id =
      (includes (branch_ids_for_join steps j) id ≡ true)
      × (includes (get_or j.errored_branch_ids []) id ≡ false)
      × (is_unskipped steps j id ≡ true)

  -- The join at the index has the output of the branch that was selected.
  pub record Selected (texts : Texts) (steps : List (Step F)) (index : ℕ) (old : JoinMetadata F)
      (s : Selection) (after : Option (JoinMetadata F)) : Type 0 where
    pub survivor : IsSurvivor steps old s.winner
    pub visible : str_eq (build_branch_workflow_output texts steps index s.winner) "" ≡ false
    pub taken :
        after
        ≡ some (record old {
          selected_branch_id = some s.winner;
          selection_rationale = some s.rationale;
          joined_output = some (build_branch_workflow_output texts steps index s.winner);
        })

  selectable-IsSurvivor :
      (texts : Texts) (steps : List (Step F)) (index : ℕ) (j : JoinMetadata F) (id : String)
      → join_of (get_elem? steps index) ≡ some j
      → includes (selectable_branch_ids_for_join texts steps index) id ≡ true
      → IsSurvivor steps j id
  unfolding selectable_branch_ids_for_join
  selectable-IsSurvivor texts steps index j id has =
      rw (selectable_branch_ids_for_join, has)
        (λ h. ground (
          arith,
          h,
          survivors-includes steps j id,
          includes-keep_names
              (λ name. not (str_eq (build_branch_workflow_output texts steps index name) ""))
              (survivor_branch_ids_for_join steps j) id,
        ))

  join_of-take_output :
      (now : ℕ) (j : JoinMetadata F) (step : Step F)
      → join_of (some (take_output now j step)) ≡ some j
  unfolding take_output
  join_of-take_output now j step = refl

  take_selection-Selected :
      (texts : Texts) (now : ℕ) (run : WorkflowRun F) (index : ℕ) (step : Step F)
      (j : JoinMetadata F) (name : String) (o : Option Selection)
      → get_elem? (steps_of_run run) index ≡ some step
      → join_of (get_elem? (steps_of_run run) index) ≡ some j
      → (take_selection texts now run index j name o).1 ≡ advance
      → (s : Selection) × (o ≡ some s)
        × Selected texts (steps_of_run run) index j s (
            join_of
              (get_elem? (steps_of_run (take_selection texts now run index j name o).0) index))
  unfolding take_selection
  take_selection-Selected texts now run index step j name none at has = λ goes. absurd (cc)
  take_selection-Selected texts now run index step j name (some s) at has =
      let output = build_branch_workflow_output texts (steps_of_run run) index s.winner in
      let known =
        includes (selectable_branch_ids_for_join texts (steps_of_run run) index) s.winner in
      elim (Bool-cases (not known || str_eq output "")) [
        | inl bad ↦ rw (take_selection, bad) (λ h. absurd (cc))
        | inr good ↦
            rw (take_selection, good)
              (λ _. (
                s,
                refl,
                record {
                  survivor =
                      selectable-IsSurvivor texts (steps_of_run run) index j s.winner has
                        (ground (arith, good));
                  visible = ground (arith, good);
                  taken =
                      ap join_of (
                        get_elem?-modify_self (steps_of_run run) index
                          (take_output now (select_branch s output j)) step at)
                      ∙ join_of-take_output now (select_branch s output j) step;
                },
              ))
      ]

  -- The run goes on from the idle of a selector only when its response is a selection of a branch
  -- that the join knows, that is not recorded as errored and whose tail was not skipped, and that
  -- has an output; the join then has this branch as its selection and its output as its own.
  pub select_takes_survivor :
      (texts : Texts) (parse : String → Option Selection) (now : ℕ) (run : WorkflowRun F)
      (index : ℕ) (step : Step F) (j : JoinMetadata F) (name : String)
      → get_elem? (steps_of_run run) index ≡ some step
      → join_of (some step) ≡ some j
      → j.join_policy ≡ some select
      → (handle_join_idle texts parse now run index step (some j) name).1 ≡ advance
      → (s : Selection) × (parse (get_or (lookup name run.responses) "") ≡ some s)
        × Selected texts (steps_of_run run) index j s (
            join_of (
              get_elem?
                (steps_of_run (handle_join_idle texts parse now run index step (some j) name).0)
                index))
  unfolding handle_join_idle take_join_response
  select_takes_survivor texts parse now run index step j name at has policy =
      let response = get_or (lookup name run.responses) "" in
      elim (Bool-cases (is_reducer step j name)) [
        | inl own ↦
            rw (handle_join_idle, own)
              (subst
                (λ p.
                  (take_join_response texts parse p now run index j name response).1 ≡ advance
                  → (s : Selection) × (parse response ≡ some s)
                    × Selected texts (steps_of_run run) index j s (
                        join_of (
                          get_elem?
                            (steps_of_run
                              (take_join_response texts parse p now run index j name response).0)
                            index)))
                (sym policy)
                (take_selection-Selected texts now run index step j name (parse response) at
                  (ap join_of at ∙ has)))
        | inr other ↦ rw (handle_join_idle, other) (λ h. absurd (cc))
      ]

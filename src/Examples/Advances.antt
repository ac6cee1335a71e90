-- ===== src/Examples/Advances.antt =====
-- Outputs, joins and idles at concrete workflows.
use Prim.Native.String.{len}
use octeam.Prelude.{
  ℕ, zero, suc, Bool, all, get_or, ltb, lt_of_ltb, ◌≡◌, ◌≤◌, ◌⊎◌, refl, String, true, false, none,
  some, List, [], ◌∷◌, arith, str_eq, eq_string, Option, get_elem?,
}
use octeam.Workflow.Types.{select, JoinMetadata, empty, TaskFields, task, join, fanout, Step}
use octeam.Workflow.JoinPolicy.Ieee.{Ratio, ratio_fraction}
use octeam.Workflow.Fanout.{join_of}
use octeam.Workflow.Engine.State.{WorkflowRun, steps_of_run}
use octeam.Workflow.Advance.Outputs.{
  max_upstream_output_bytes, build_branch_workflow_output, build_joined_workflow_output,
}
use octeam.Workflow.Advance.Outputs.Budget.{HasShortOutputs, outputs-fit}
use octeam.Workflow.Advance.Joins.{complete_workflow_join_step}
use octeam.Workflow.Advance.Joins.Fires.{IsFired, join_fires}
use octeam.Workflow.Idle.Tasks.{OutputTests, handle_task_idle}
use octeam.Workflow.Idle.Joins.{Selection, handle_join_idle}
use octeam.Workflow.Idle.Selected.{Selected, select_takes_survivor}
use octeam.Workflow.Idle.Asked.{task_idle_lem, asks_again, IsAskedAgain, IsLeft}
use octeam.Examples.Texts.{utf8, utf8_laws}
use octeam.Examples.Steps.{blank, work_by, join_by, marker, in_branch}

abbrev done_by : String → String → ℕ → String → Step Ratio
done_by id name i output = record {
  runtime = record (in_branch id i true) { output = some output };
  kind = task (work_by name);
}

-- The selector of the branches `left` and `right` has been asked.
abbrev selection_join : JoinMetadata Ratio
selection_join = record (join_by select) { reducer_member = some "dan" }

abbrev asked_join : Step Ratio
asked_join = record {
  runtime = record blank { dispatched_at = some 3; dispatched_actor = some "dan" };
  kind = join (some selection_join);
}

abbrev branches : List (Step Ratio)
branches =
    record { runtime = record blank { completed = true }; kind = fanout (some marker) }
    ∷ done_by "left" "ann" 0 "L"
    ∷ done_by "right" "bob" 1 "R"
    ∷ done_by "right" "cem" 1 "S"
    ∷ asked_join
    ∷ []

abbrev asked_run : WorkflowRun Ratio
asked_run = record {
  view = record {
    active_step_indices = some (4 ∷ []);
    current_stage_index = 4;
    steps = some branches;
  };
  responses = ("dan", "right") ∷ ("ann", "") ∷ [];
  human_approval = none;
  approval_request = none;
  finished = none;
}

right_output :
    build_branch_workflow_output utf8 branches 4 "right"
    ≡ "[Branch right]\n[Step 3 output from bob]\nR\n\n[Step 4 output from cem]\nS"
unfolding build_branch_workflow_output
right_output = refl

abbrev is_short : Step Ratio → Bool
is_short step = ltb (len (get_or step.output "")) 1000000000000000

all_short :
    (steps : List (Step Ratio)) (i : ℕ) (step : Step Ratio)
    → all is_short steps ≡ true
    → get_elem? steps i ≡ some step
    → is_short step ≡ true
all_short [] i step h at = absurd (ground (arith, at))
all_short (x ∷ steps) zero step h at =
    let same : x ≡ step = ground (arith, at) in rw (← same) (ground (arith, h))
all_short (x ∷ steps) (suc i) step h at =
    all_short steps i step (ground (arith, h)) (ground (arith, at))

branches-HasShortOutputs : HasShortOutputs utf8 utf8_laws branches
branches-HasShortOutputs i step at = lt_of_ltb _ _ (all_short branches i step refl at)

outputs-fit_example :
    (len (build_branch_workflow_output utf8 branches 4 "right") ≤ max_upstream_output_bytes)
    × (len (build_joined_workflow_output utf8 branches 4) ≤ max_upstream_output_bytes)
outputs-fit_example = outputs-fit utf8 utf8_laws branches 4 "right" branches-HasShortOutputs

abbrev read_selection : String → Option Selection
read_selection winner = some (record { winner = winner; rationale = "" })

select_takes_survivor_example :
    (s : Selection) × (read_selection "right" ≡ some s)
    × Selected utf8 branches 4 selection_join s (
        join_of (
          get_elem?
            (steps_of_run
              (handle_join_idle utf8 read_selection 9 asked_run 4 asked_join
                (some selection_join)
                "dan").0)
            4))
unfolding handle_join_idle
select_takes_survivor_example =
    select_takes_survivor utf8 read_selection 9 asked_run 4 asked_join selection_join "dan" refl
      refl refl refl

-- The selector has answered.
abbrev answered_join : JoinMetadata Ratio
answered_join = record selection_join {
  selected_branch_id = some "right";
  joined_output = some "R";
}

abbrev answered_step : Step Ratio
answered_step = record { runtime = blank; kind = join (some answered_join) }

abbrev answered_run : WorkflowRun Ratio
answered_run = record {
  view = record {
    active_step_indices = some (0 ∷ []);
    current_stage_index = 0;
    steps = some (answered_step ∷ []);
  };
  responses = [];
  human_approval = none;
  approval_request = none;
  finished = none;
}

join_fires_example :
    IsFired utf8
      (answered_step ∷ [])
      0
      answered_join
      (get_elem? (steps_of_run (complete_workflow_join_step utf8 [] 9 "c" answered_run 0).0) 0)
unfolding complete_workflow_join_step
join_fires_example =
    join_fires utf8 [] 9 "c" answered_run 0 answered_step answered_join refl refl refl

abbrev retried : TaskFields
retried = record (work_by "ann") { retry_on = some empty; max_task_retries = some 1 }

abbrev retried_step : Step Ratio
retried_step = record { runtime = blank; kind = task retried }

abbrev retried_run : WorkflowRun Ratio
retried_run = record answered_run {
  view = record {
    active_step_indices = some (0 ∷ []);
    current_stage_index = 0;
    steps = some (retried_step ∷ []);
  };
}

abbrev plain_tests : OutputTests
plain_tests = record {
  is_blank = λ s. str_eq s "";
  contains = λ s t. str_eq s t;
  matches = λ s t. false;
}

-- The output is empty, and one retry is left: the task is asked again.
task_idle_lem_example :
    let out = handle_task_idle utf8 plain_tests [] 9 "c" retried_run 0 retried_step retried "ann" in
    ((asks_again plain_tests retried "" ≡ true)
      × (1 ≤ 1)
      × IsAskedAgain (record retried { task_attempts = some 1 }) 0 out)
    ⊎ ((asks_again plain_tests retried "" ≡ false) × IsLeft (some "") 0 out)
unfolding handle_task_idle asks_again
task_idle_lem_example =
    task_idle_lem utf8 plain_tests [] 9 "c" retried_run 0 retried_step retried "ann" refl refl

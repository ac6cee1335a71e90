-- ===== src/Examples/Loops.antt =====
-- The advance loop at concrete runs. No verdict is acted on within a call.
use octeam.Prelude.{
  ℕ, ◌≡◌, refl, String, Bool, true, false, none, some, List, [], ◌∷◌, Option, eq_string, eq_nat,
}
use octeam.Workflow.Types.{task, Step}
use octeam.Workflow.JoinPolicy.Ieee.{Ratio, ratio_fraction}
use octeam.Workflow.Engine.State.{
  WorkflowRun, Next, RunReason, workflow_complete, frontier_deadlock, no_session, steps_of_run,
}
use octeam.Workflow.Verdicts.Settle.{has_incomplete}
use octeam.Modes.Barriers.{idle}
use octeam.Workflow.Advance.Sweep.{Host}
use octeam.Workflow.Advance.Loop.{advance_workflow_step, follow_next}
use octeam.Workflow.Advance.Loop.Quiet.{advance_ends}
use octeam.Workflow.Advance.Loop.Done.{advance_done}
use octeam.Examples.Steps.{blank, work_by}
use octeam.Examples.Texts.{utf8}

abbrev host : Host
host = record {
  members = record { name = "bob"; session_id = some "s1"; status = idle; is_master = none } ∷ [];
  send = λ name. true;
  now = 9;
  uuid = "c";
  texts = utf8;
  signs_off = false;
}

abbrev follow : Next → WorkflowRun Ratio → Option (WorkflowRun Ratio)
follow next run = none

abbrev work : String → Bool → Step Ratio
work name done = record { runtime = record blank { completed = done }; kind = task (work_by name) }

abbrev run_of : List (Step Ratio) → WorkflowRun Ratio
run_of steps = record {
  view = record {
    active_step_indices = some (0 ∷ []);
    current_stage_index = 0;
    steps = some steps;
  };
  responses = [];
  human_approval = none;
  approval_request = none;
  finished = none;
}

abbrev reason : Option (WorkflowRun Ratio) → Option RunReason
reason none = none
reason (some run) = run.finished

abbrev active : Option (WorkflowRun Ratio) → Option (List ℕ)
active none = none
active (some run) = run.view.active_step_indices

-- The next step is dispatched.
second_is_active :
    active (advance_workflow_step host follow 2 (run_of (work "ann" true ∷ work "bob" false ∷ [])))
    ≡ some (1 ∷ [])
unfolding advance_workflow_step
second_is_active = refl

nobody_there :
    reason (advance_workflow_step host follow 2 (run_of (work "cem" false ∷ [])))
    ≡ some (no_session (some "cem"))
unfolding advance_workflow_step
nobody_there = refl

abbrev finished_run : WorkflowRun Ratio
finished_run = record (run_of (work "ann" true ∷ work "bob" true ∷ [])) {
  finished = some workflow_complete;
}

returns :
    advance_workflow_step host follow 2 (run_of (work "ann" true ∷ work "bob" true ∷ []))
    ≡ some finished_run
unfolding advance_workflow_step
returns = refl

advance_ends_example :
    (advance_workflow_step host
        (follow_next host 3)
        2
        (run_of (work "ann" true ∷ work "bob" true ∷ []))
      ≡ some finished_run)
    × (finished_run.finished ≡ some workflow_complete
        → has_incomplete (steps_of_run finished_run) ≡ false)
    × (finished_run.finished ≡ some frontier_deadlock
        → has_incomplete (steps_of_run finished_run) ≡ true)
advance_ends_example =
    advance_ends host 3 2 (run_of (work "ann" true ∷ work "bob" true ∷ [])) finished_run refl
      returns

advance_done_example :
    (after : WorkflowRun Ratio) × (advance_workflow_step host follow 1
        (run_of (work "ann" true ∷ []))
      ≡ some after)
    × (steps_of_run after ≡ work "ann" true ∷ [])
    × (after.finished ≡ some workflow_complete)
unfolding has_incomplete
advance_done_example = advance_done host follow 0 (run_of (work "ann" true ∷ [])) refl

-- ===== src/Examples/Dispatches.antt =====
-- Dispatches of a task and of a gate at a concrete workflow.
use octeam.Prelude.{
  ◌≡◌, refl, String, true, some, none, List, [], ◌∷◌, get_elem?, eq_string, eq_nat,
}
use octeam.Prelude.Member.{includes}
use octeam.Workflow.Types.{task, Step}
use octeam.Workflow.JoinPolicy.Ieee.{Ratio, ratio_fraction}
use octeam.Workflow.Engine.State.{WorkflowRun}
use octeam.Modes.Barriers.{idle}
use octeam.Modes.Signoff.{Reviewer}
use octeam.Workflow.Dispatch.Send.{is_supplied, sends, dispatch_task_step}
use octeam.Workflow.Dispatch.Verifiers.{dispatch_gate_step}
use octeam.Workflow.Dispatch.Inputs.{gate_targets_supplied}
use octeam.Examples.Steps.{blank, work_by}
use octeam.Examples.Gates.{scored_step, work}

abbrev team : List Reviewer
team =
    record { name = "bob"; session_id = some "s1"; status = idle; is_master = none }
    ∷ record { name = "dan"; session_id = some "s2"; status = idle; is_master = none }
    ∷ []

abbrev done_by : String → Step Ratio
done_by name = record { runtime = record blank { completed = true }; kind = task (work_by name) }

-- Reads the output of step 0.
abbrev reader : Step Ratio
reader = record { runtime = record blank { inputs = some (0 ∷ []) }; kind = task (work_by "bob") }

abbrev run_of : List (Step Ratio) → WorkflowRun Ratio
run_of steps = record {
  view = record { active_step_indices = none; current_stage_index = 1; steps = some steps };
  responses = [];
  human_approval = none;
  approval_request = none;
  finished = none;
}

abbrev reads : List (Step Ratio)
reads = done_by "ann" ∷ reader ∷ []

abbrev verifies : List (Step Ratio)
verifies = done_by "ann" ∷ scored_step ∷ work "cem" ∷ []

reader_is_prompted : (dispatch_task_step team 9 "c" (run_of reads) 1).1 ≡ sends ("bob" ∷ [])
unfolding dispatch_task_step includes
reader_is_prompted = refl

gate_targets_supplied_example : is_supplied (get_elem? verifies 0) ≡ true
unfolding dispatch_gate_step includes
gate_targets_supplied_example =
    gate_targets_supplied team (λ name. true) 9 "c" (run_of verifies) 1 0 (λ e. absurd (cc)) refl

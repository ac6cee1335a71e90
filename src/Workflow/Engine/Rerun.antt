-- ===== src/Workflow/Engine/Rerun.antt =====
-- src/orchestration/workflow/engine.ts and verdict.ts: what is cleared where steps run again.
use octeam.Prelude.{ℕ, suc, ◌-◌, Bool, false, none, some, List, eq_nat, if◌then◌else◌}
use octeam.Prelude.Ranges.{modify_range}
use octeam.Workflow.Types.{JoinMetadata, GateFields, StepKind, task, gate, join, StepRuntime, Step}
use octeam.Workflow.Engine.State.{rerun_runtime}

module _ {F : Type 0} where
  unfoldable pub cleared_join : JoinMetadata F → JoinMetadata F
  cleared_join j = record j {
    survivor_branch_ids = none;
    errored_branch_ids = none;
    selected_branch_id = none;
    selection_rationale = none;
    joined_output = none;
  }

  unfoldable pub reset_attempts : GateFields F → GateFields F
  reset_attempts g = record g {
    attempts = some 0;
    invalid_attempts = some 0;
    malformed_attempts = some 0;
  }

  abbrev pub without_verdict : GateFields F → GateFields F
  without_verdict g = record g { verdict = none; ensemble_results = none }

  -- A step that runs again; `keeps_attempts` for the gate whose retry this is.
  unfoldable pub rerun_step : Bool → StepKind F → StepRuntime → Step F
  unfolding rerun_runtime cleared_join reset_attempts
  rerun_step keeps_attempts (task t) r = record {
    runtime = record (rerun_runtime r) { output = none; timeout_attempts = some 0 };
    kind = task (record t { task_attempts = some 0 });
  }
  rerun_step keeps_attempts (gate g) r =
      if keeps_attempts
      then record { runtime = rerun_runtime r; kind = gate (without_verdict g) }
      else record {
        runtime = record (rerun_runtime r) { timeout_attempts = some 0 };
        kind = gate (reset_attempts (without_verdict g));
      }
  rerun_step keeps_attempts (join (some j)) r = record {
    runtime = rerun_runtime r;
    kind = join (some (cleared_join j));
  }
  rerun_step keeps_attempts kind r = record { runtime = rerun_runtime r; kind = kind }

  abbrev pub rerun : ℕ → Step F → Step F
  rerun index step = rerun_step false step.kind step.runtime

  unfoldable pub rerun_range : ℕ → ℕ → List (Step F) → List (Step F)
  unfolding rerun_step modify_range
  rerun_range from to steps = modify_range rerun (suc to - from) from steps

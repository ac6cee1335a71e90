-- ===== src/Examples/Steps.antt =====
-- A workflow to run: a fanout with branches `left` (step 1) and `right` (steps 2 and 3), its join
-- (step 4), and a gate (step 5).
use octeam.Prelude.{ℕ, String, Bool, true, false, none, some, List, [], ◌∷◌}
use octeam.Workflow.Types.{
  FanoutMetadata, GateFields, JoinMetadata, JoinPolicy, any_success, StepRuntime, TaskFields, task,
  gate, fanout, join, Step, TaskView,
}
use octeam.Workflow.JoinPolicy.Ieee.{Ratio}

abbrev pub blank : StepRuntime
blank = record {
  id = none;
  completed = false;
  skipped = none;
  output = none;
  started_at = none;
  completed_at = none;
  duration_ms = none;
  inputs = none;
  expose_output = none;
  dispatched_at = none;
  dispatched_actor = none;
  correlation_id = none;
  approval_before = none;
  approval_before_granted = none;
  approval_after = none;
  max_output_bytes = none;
  timeout_ms = none;
  on_timeout = none;
  max_timeout_retries = none;
  timeout_attempts = none;
  branch = none;
}

abbrev pub work_by : String → TaskFields
work_by name = record {
  member = name;
  task = "work";
  fallback_member = none;
  retry_on = none;
  max_task_retries = none;
  task_attempts = none;
}

abbrev pub gate_of : List String → GateFields Ratio
gate_of names = record {
  verifier = none;
  verifiers = some names;
  fallback_verifier = none;
  ensemble_policy = none;
  ensemble_quorum = none;
  ensemble_results = none;
  criteria = none;
  target_step_index = none;
  target_step_indices = none;
  verdict = none;
  score = none;
  confidence = none;
  issues = none;
  condition = none;
  on_fail = none;
  max_retries = none;
  on_invalid = none;
  on_malformed = none;
  max_invalid_retries = none;
  max_malformed_retries = none;
  invalid_attempts = none;
  malformed_attempts = none;
  attempts = none;
  on_pass_goto = none;
  on_fail_goto = none;
  on_invalid_goto = none;
  max_jumps = none;
  jump_count = none;
  loop = none;
  loop_iterations = none;
}

abbrev pub join_by : JoinPolicy → JoinMetadata Ratio
join_by policy = record {
  fanout_index = 0;
  branch_tail_indices = 1 ∷ 3 ∷ [];
  max_errored = none;
  join_policy = some policy;
  quorum = some (record { num = 1; den = 2 });
  required_branch_ids = some ("left" ∷ []);
  reducer_member = none;
  use_survivors = none;
  survivor_branch_ids = none;
  errored_branch_ids = none;
  selected_branch_id = none;
  selection_rationale = none;
  joined_output = none;
}

abbrev pub marker : FanoutMetadata Ratio
marker = record {
  branch_ids = "left" ∷ "right" ∷ [];
  branch_ranges =
      record { start_index = 1; end_index = 1 } ∷ record { start_index = 2; end_index = 3 } ∷ [];
  join_index = 4;
  max_errored = 0;
  join_policy = some any_success;
  quorum = none;
  required_branch_ids = none;
  reducer_member = none;
  use_survivors = none;
}

abbrev pub in_branch : String → ℕ → Bool → StepRuntime
in_branch id i done = record blank {
  completed = done;
  branch = some (record { fanout_index = 0; branch_id = id; branch_index = i; join_index = 4 });
}

-- `left_done` says whether the left branch is completed.
abbrev pub steps_of : Bool → List (Step Ratio)
steps_of left_done =
    record { runtime = record blank { completed = true }; kind = fanout (some marker) }
    ∷ record { runtime = in_branch "left" 0 left_done; kind = task (work_by "ann") }
    ∷ record { runtime = in_branch "right" 1 false; kind = task (work_by "bob") }
    ∷ record { runtime = in_branch "right" 1 false; kind = task (work_by "cem") }
    ∷ record { runtime = blank; kind = join (some (join_by any_success)) }
    ∷ record { runtime = blank; kind = gate (gate_of ("dan" ∷ "eve" ∷ [])) }
    ∷ []

abbrev pub view_of : Bool → List ℕ → TaskView Ratio
view_of left_done active = record {
  active_step_indices = some active;
  current_stage_index = 0;
  steps = some (steps_of left_done);
}

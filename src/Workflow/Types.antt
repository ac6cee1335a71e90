-- ===== src/Workflow/Types.antt =====
-- src/core/types/workflow.ts: the runtime step graph of a workflow. Scores, confidences and the
-- fraction of a quorum are JavaScript numbers; their type `F` is a parameter. An optional field is
-- an `Option`, and `none` is `undefined`.
use octeam.Prelude.{ℕ, String, Bool, Option, List}

pub data Verdict : Type 0 where
  pass fail invalid : Verdict

pub data IssueSeverity : Type 0 where
  low medium high critical : IssueSeverity

pub record Issue : Type 0 where
  pub severity : IssueSeverity
  pub message : Option String

pub data Condition (F : Type 0) : Type 0 where
  score_gte : F → Condition F
  score_lt : F → Condition F
  confidence_gte : F → Condition F
  has_issue_severity : IssueSeverity → Condition F

pub data OnInvalid : Type 0 where
  fail_run retry_verifier escalate : OnInvalid

pub data OnMalformed : Type 0 where
  fail_run retry_verifier skip escalate : OnMalformed

pub data OnFail : Type 0 where
  retry fail_run skip : OnFail

pub data OnTimeout : Type 0 where
  fail_run retry skip : OnTimeout

pub data OnExhaust : Type 0 where
  fail_run go_on : OnExhaust

pub data RetryCondition : Type 0 where
  empty : RetryCondition
  output_contains : String → RetryCondition
  output_not_contains : String → RetryCondition
  regex : String → RetryCondition

pub record LoopConfig : Type 0 where
  pub max_iterations : ℕ
  pub on_exhaust : OnExhaust

pub data EnsemblePolicy : Type 0 where
  majority quorum unanimous : EnsemblePolicy

pub record EnsembleResult (F : Type 0) : Type 0 where
  pub verdict : Verdict
  pub score : Option F
  pub confidence : Option F
  pub issues : Option (List Issue)
  pub rationale : Option String
  pub diff : Option String
  pub parse_failed : Option Bool

pub record BranchRange : Type 0 where
  pub start_index : ℕ
  pub end_index : ℕ

pub data JoinPolicy : Type 0 where
  tolerance every quorum any_success required_branches reduce select : JoinPolicy

pub record FanoutMetadata (F : Type 0) : Type 0 where
  pub branch_ids : List String
  pub branch_ranges : List BranchRange
  pub join_index : ℕ
  pub max_errored : ℕ
  pub join_policy : Option JoinPolicy
  pub quorum : Option F
  pub required_branch_ids : Option (List String)
  pub reducer_member : Option String
  pub use_survivors : Option Bool

pub record BranchMetadata : Type 0 where
  pub fanout_index : ℕ
  pub branch_id : String
  pub branch_index : ℕ
  pub join_index : ℕ

pub record JoinMetadata (F : Type 0) : Type 0 where
  pub fanout_index : ℕ
  pub branch_tail_indices : List ℕ
  pub max_errored : Option ℕ
  pub join_policy : Option JoinPolicy
  pub quorum : Option F
  pub required_branch_ids : Option (List String)
  pub reducer_member : Option String
  pub use_survivors : Option Bool
  pub survivor_branch_ids : Option (List String)
  pub errored_branch_ids : Option (List String)
  pub selected_branch_id : Option String
  pub selection_rationale : Option String
  pub joined_output : Option String

-- The fields that all kinds of step share.
pub record StepRuntime : Type 0 where
  pub id : Option String
  pub completed : Bool
  pub skipped : Option Bool
  pub output : Option String
  pub started_at : Option ℕ
  pub completed_at : Option ℕ
  pub duration_ms : Option ℕ
  pub inputs : Option (List ℕ)
  pub expose_output : Option Bool
  pub dispatched_at : Option ℕ
  pub dispatched_actor : Option String
  pub correlation_id : Option String
  pub approval_before : Option Bool
  pub approval_before_granted : Option Bool
  pub approval_after : Option Bool
  pub max_output_bytes : Option ℕ
  pub timeout_ms : Option ℕ
  pub on_timeout : Option OnTimeout
  pub max_timeout_retries : Option ℕ
  pub timeout_attempts : Option ℕ
  pub branch : Option BranchMetadata

pub record TaskFields : Type 0 where
  pub member : String
  pub task : String
  pub fallback_member : Option String
  pub retry_on : Option RetryCondition
  pub max_task_retries : Option ℕ
  pub task_attempts : Option ℕ

pub record GateFields (F : Type 0) : Type 0 where
  pub verifier : Option String
  pub verifiers : Option (List String)
  pub fallback_verifier : Option String
  pub ensemble_policy : Option EnsemblePolicy
  pub ensemble_quorum : Option F
  pub ensemble_results : Option (List (String × EnsembleResult F))
  pub criteria : Option String
  pub target_step_index : Option ℕ
  pub target_step_indices : Option (List ℕ)
  pub verdict : Option Verdict
  pub score : Option F
  pub confidence : Option F
  pub issues : Option (List Issue)
  pub condition : Option (Condition F)
  pub on_fail : Option OnFail
  pub max_retries : Option ℕ
  pub on_invalid : Option OnInvalid
  pub on_malformed : Option OnMalformed
  pub max_invalid_retries : Option ℕ
  pub max_malformed_retries : Option ℕ
  pub invalid_attempts : Option ℕ
  pub malformed_attempts : Option ℕ
  pub attempts : Option ℕ
  pub on_pass_goto : Option ℕ
  pub on_fail_goto : Option ℕ
  pub on_invalid_goto : Option ℕ
  pub max_jumps : Option ℕ
  pub jump_count : Option ℕ
  pub loop : Option LoopConfig
  pub loop_iterations : Option ℕ

-- The discriminated union. A fanout or a join may lack its metadata in a restored state, and the
-- code tests for that.
pub data StepKind (F : Type 0) : Type 0 where
  task : TaskFields → StepKind F
  gate : GateFields F → StepKind F
  fanout : Option (FanoutMetadata F) → StepKind F
  join : Option (JoinMetadata F) → StepKind F

pub record Step (F : Type 0) : Type 0 where
  pub runtime : StepRuntime
  pub open runtime use *
  pub kind : StepKind F

-- `Pick<WorkflowTask, "activeStepIndices" | "currentStageIndex" | "steps">`
pub record TaskView (F : Type 0) : Type 0 where
  pub active_step_indices : Option (List ℕ)
  pub current_stage_index : ℕ
  pub steps : Option (List (Step F))

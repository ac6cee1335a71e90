-- ===== src/Workflow/Gates/Conditions.antt =====
-- src/orchestration/workflow/gate.ts: the `where` condition of a gate, and the jump that it guards.
-- Scores and thresholds are JavaScript numbers; 10 and 1 are quotients of natural numbers.
pub mod Sound
use octeam.Prelude.{
  ℕ, Bool, true, false, ◌&&◌, ◌||◌, Option, none, some, List, [], any, leb, get_or, get_elem?,
  if◌then◌else◌,
}
use octeam.Workflow.Types.{
  IssueSeverity, low, medium, high, critical, Issue, Condition, score_gte, score_lt, confidence_gte,
  has_issue_severity, GateFields, StepKind, task, gate, fanout, join, Step,
}
use octeam.Workflow.JoinPolicy.Ieee.{Fraction}
use octeam.Workflow.Gates.Targets.{in_scope, gate_at}

pub data ConditionEvaluation : Type 0 where
  matches does_not_match unevaluable : ConditionEvaluation

-- What `gatedGotoIndex` returns: -1, -2 or an index.
pub data Goto : Type 0 where
  stay invalid : Goto
  jump : ℕ → Goto

-- The fields of a verdict that a condition reads.
pub record ConditionInput (F : Type 0) : Type 0 where
  pub score : Option F
  pub confidence : Option F
  pub issues : Option (List Issue)

abbrev pub severity_rank : IssueSeverity → ℕ
severity_rank low = 0
severity_rank medium = 1
severity_rank high = 2
severity_rank critical = 3

abbrev pub has_severity : IssueSeverity → List Issue → Bool
has_severity least issues =
    any (λ (issue : Issue). leb (severity_rank least) (severity_rank issue.severity)) issues

abbrev decided : Bool → ConditionEvaluation
decided true = matches
decided false = does_not_match

module _ {F : Type 0} ⦃fr : Fraction F⦄ where
  unfoldable pub matches_workflow_condition : Condition F → ConditionInput F → Bool
  matches_workflow_condition (score_gte value) input = elim input.score [
    | none ↦ false
    | some score ↦ fr.ge score value
  ]
  matches_workflow_condition (score_lt value) input = elim input.score [
    | none ↦ false
    | some score ↦ fr.lt score value
  ]
  matches_workflow_condition (confidence_gte value) input = elim input.confidence [
    | none ↦ false
    | some confidence ↦ fr.ge confidence value
  ]
  matches_workflow_condition (has_issue_severity least) input =
      has_severity least (get_or input.issues [])

  -- `value < 0 || value > top`
  abbrev pub out_of_range : F → ℕ → Bool
  out_of_range value top = fr.lt value fr.zero || fr.lt (fr.div top 1) value

  abbrev pub evaluate_threshold : Bool → Option F → (F → Bool) → ConditionEvaluation
  evaluate_threshold out reading test =
      if out then unevaluable else elim reading [ none ↦ unevaluable | some x ↦ decided (test x) ]

  unfoldable pub evaluate_workflow_condition : Condition F → ConditionInput F → ConditionEvaluation
  evaluate_workflow_condition (score_gte value) input =
      evaluate_threshold (out_of_range value 10) input.score (λ score. fr.ge score value)
  evaluate_workflow_condition (score_lt value) input =
      evaluate_threshold (out_of_range value 10) input.score (λ score. fr.lt score value)
  evaluate_workflow_condition (confidence_gte value) input =
      evaluate_threshold (out_of_range value 1) input.confidence (λ c. fr.ge c value)
  evaluate_workflow_condition (has_issue_severity least) input = elim input.issues [
    | none ↦ unevaluable
    | some issues ↦ decided (has_severity least issues)
  ]

module _ {F : Type 0} where
  -- Markers are no jump targets.
  abbrev pub is_dispatchable : StepKind F → Bool
  is_dispatchable (task t) = true
  is_dispatchable (gate g) = true
  is_dispatchable (fanout m) = false
  is_dispatchable (join m) = false

  unfoldable pub can_gate_goto_step : List (Step F) → ℕ → ℕ → Bool
  unfolding in_scope
  can_gate_goto_step steps gate_index target_index = elim (gate_at steps gate_index) [
    | none ↦ false
    | some (own, g) ↦ elim (get_elem? steps target_index) [
      | none ↦ false
      | some target ↦ is_dispatchable target.kind && in_scope own.branch target
    ]
  ]

  abbrev pub recorded_input : GateFields F → ConditionInput F
  recorded_input g = record { score = g.score; confidence = g.confidence; issues = g.issues }

module _ {F : Type 0} ⦃fr : Fraction F⦄ where
  unfoldable pub conditional_goto : GateFields F → ℕ → Goto
  unfolding evaluate_workflow_condition
  conditional_goto g target = elim g.condition [
    | none ↦ jump target
    | some condition ↦ elim (evaluate_workflow_condition condition (recorded_input g)) [
      | matches ↦ jump target
      | does_not_match ↦ stay
      | unevaluable ↦ invalid
    ]
  ]

  unfoldable pub gated_goto_index : List (Step F) → ℕ → Option ℕ → Goto
  unfolding can_gate_goto_step conditional_goto
  gated_goto_index steps gate_index none = stay
  gated_goto_index steps gate_index (some target) = elim (gate_at steps gate_index) [
    | none ↦ stay
    | some (own, g) ↦
        if can_gate_goto_step steps gate_index target then conditional_goto g target else stay
  ]

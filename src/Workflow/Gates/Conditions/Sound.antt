-- ===== src/Workflow/Gates/Conditions/Sound.antt =====
-- A gate jumps only where its condition holds, and only to a step of its own scope.
use octeam.Prelude.{◌≡◌, true, false, arith}
use octeam.Workflow.Types.{Condition, score_gte, score_lt, confidence_gte, has_issue_severity}
use octeam.Workflow.JoinPolicy.Ieee.{Fraction}
use octeam.Workflow.Gates.Conditions.{
  matches, does_not_match, ConditionInput, matches_workflow_condition, evaluate_workflow_condition,
}

module _ {F : Type 0} ⦃fr : Fraction F⦄ where
  -- Where a condition can be evaluated, the three-valued test agrees with the Boolean one.
  pub evaluate-matches :
      (condition : Condition F) (input : ConditionInput F)
      → (evaluate_workflow_condition condition input ≡ matches
          → matches_workflow_condition condition input ≡ true)
        × (evaluate_workflow_condition condition input ≡ does_not_match
            → matches_workflow_condition condition input ≡ false)
  unfolding evaluate_workflow_condition matches_workflow_condition
  evaluate-matches (score_gte value) input = ground arith
  evaluate-matches (score_lt value) input = ground arith
  evaluate-matches (confidence_gte value) input = ground arith
  evaluate-matches (has_issue_severity least) input = ground arith

-- ===== src/Workflow/Verdicts/Collect.antt =====
-- src/orchestration/workflow/verdict.ts: `collectEnsembleVerdicts` and `handleGateVerdict`. The verdict
-- in a response is read by `parse`, and `snapshot` is the response cut to 8192 bytes of UTF-8.
use octeam.Prelude.{
  ℕ, String, Bool, true, false, ◌||◌, Option, none, some, List, [], eq_string, get_or, length, ltb,
  is_some, if◌then◌else◌,
}
use octeam.Prelude.Assoc.{insert, lookup}
use octeam.Prelude.Member.{includes}
use octeam.Workflow.JoinPolicy.{is_true}
use octeam.Workflow.Types.{
  Verdict, pass, fail, invalid, OnFail, Issue, EnsembleResult, GateFields, Step,
}
use octeam.Workflow.JoinPolicy.Ieee.{Fraction}
use octeam.Workflow.Gates.Targets.{gate_at}
use octeam.Workflow.Gates.Ensemble.{Aggregate, aggregate_ensemble_verdict, count_results}
use octeam.Workflow.Engine.State.{WorkflowRun, Next, halt, steps_of_run, with_steps, drop_response}
use octeam.Workflow.Engine.Goto.{update_gate}
use octeam.Workflow.Verdicts.Settle.{update_step}
use octeam.Workflow.Verdicts.Invalid.{handle_invalid_verdict}
use octeam.Workflow.Verdicts.Routes.{handle_gate_pass, handle_gate_fail, handle_gate_retry}

-- The fields of a verdict that decide something: the gate keeps them.
pub record Reading (F : Type 0) : Type 0 where
  pub verdict : Option Verdict
  pub score : Option F
  pub confidence : Option F
  pub issues : Option (List Issue)
  pub parse_failed : Option Bool

-- What `parseVerdict` returns.
pub record ParsedVerdict (F : Type 0) : Type 0 where
  pub reading : Reading F
  pub open reading use *
  pub rationale : String
  pub diff : String

-- A verdict to wait for, one to act on, or the error of a missing policy. The texts of the verdict
-- end in prompts and events, and are left out.
pub data Collected (F : Type 0) : Type 0 where
  waiting no_policy : Collected F
  verdict_in : Reading F → Collected F

module _ {F : Type 0} where
  abbrev pub verifier_result : ParsedVerdict F → EnsembleResult F
  verifier_result v = record {
    verdict = get_or v.verdict invalid;
    score = v.score;
    confidence = v.confidence;
    issues = v.issues;
    rationale = some v.rationale;
    diff = some v.diff;
    parse_failed = v.parse_failed;
  }

  abbrev pub of_aggregate : Aggregate F → Reading F
  of_aggregate a = record {
    verdict = some a.verdict;
    score = a.score;
    confidence = a.confidence;
    issues = a.issues;
    parse_failed = some a.parse_failed;
  }

  unfoldable pub add_result : String → ParsedVerdict F → GateFields F → GateFields F
  unfolding insert
  add_result name v g = record g {
    ensemble_results = some (insert name (verifier_result v) (get_or g.ensemble_results []));
  }

  abbrev pub record_verdict : Reading F → GateFields F → GateFields F
  record_verdict v g = record g {
    verdict = v.verdict;
    score = v.score;
    confidence = v.confidence;
    issues = v.issues;
  }

module _ {F : Type 0} ⦃fr : Fraction F⦄ where
  -- The gate after the verifier's result, and the verdict of all of them.
  unfoldable pub aggregate_when_all_in : ℕ → GateFields F → Collected F
  unfolding count_results aggregate_ensemble_verdict
  aggregate_when_all_in total g =
      if ltb (count_results (get_or g.ensemble_results [])) total
      then waiting
      else elim (aggregate_ensemble_verdict g) [
        | none ↦ no_policy
        | some a ↦ verdict_in (of_aggregate a)
      ]

  unfoldable pub collect_ensemble_verdicts :
      WorkflowRun F → ℕ → GateFields F → String → ParsedVerdict F → WorkflowRun F × Collected F
  unfolding includes add_result update_gate aggregate_when_all_in
  collect_ensemble_verdicts run index g name v = elim g.verifiers [
    | none ↦ (run, verdict_in v.reading)
    | some names ↦
        let added = drop_response run name in
        if includes names name
        then (
          with_steps added (update_gate index (add_result name v) (steps_of_run run)),
          aggregate_when_all_in (length names) (add_result name v g),
        )
        else (run, waiting)
  ]

  -- FAIL, by `on_fail`
  unfoldable pub handle_fail :
      OnFail → ℕ → WorkflowRun F → ℕ → Step F → GateFields F → String → WorkflowRun F × Next
  unfolding handle_gate_retry handle_gate_fail
  handle_fail OnFail.retry now run index step g name = handle_gate_retry now run index step g name
  handle_fail _ now run index step g name = handle_gate_fail now run index step g name

  unfoldable pub by_verdict :
      Option Verdict → ℕ → WorkflowRun F → ℕ → Step F → GateFields F → String → WorkflowRun F × Next
  unfolding handle_invalid_verdict handle_gate_pass handle_fail
  by_verdict none now run index step g name = handle_invalid_verdict now run index step g name true
  by_verdict (some invalid) now run index step g name =
      handle_invalid_verdict now run index step g name false
  by_verdict (some pass) now run index step g name = handle_gate_pass now run index step g name
  by_verdict (some fail) now run index step g name =
      handle_fail (get_or g.on_fail OnFail.fail_run) now run index step g name

  -- The verdict is written to the gate, and decides what the run does.
  unfoldable pub route_verdict :
      ℕ → WorkflowRun F → ℕ → Step F → GateFields F → String → Reading F → WorkflowRun F × Next
  unfolding update_gate by_verdict
  route_verdict now run index step g name v =
      by_verdict (if is_true v.parse_failed then none else v.verdict) now
        (with_steps run (update_gate index (record_verdict v) (steps_of_run run))) index step
        (record_verdict v g) name

  module _ (parse : String → ParsedVerdict F) (snapshot : String → String) where
    abbrev pub keep_output : String → Step F → Step F
    keep_output response step = record step {
      runtime = record step.runtime { output = some (snapshot response) };
    }

    -- The run with the response as the gate's output, and the text to parse; an ensemble's gate
    -- keeps no output.
    unfoldable pub verdict_text :
        WorkflowRun F → ℕ → Step F → GateFields F → String → Option (WorkflowRun F × String)
    unfolding lookup
    verdict_text run index step g name = elim (lookup name run.responses) [
      | none ↦ if is_some g.verifiers then none else some (run, get_or step.output "")
      | some response ↦ some (
        if is_some g.verifiers then run else update_step index (keep_output response) run,
        response,
      )
    ]

    unfoldable pub settle_verdict :
        ℕ → WorkflowRun F → ℕ → Step F → GateFields F → String → Collected F → WorkflowRun F × Next
    unfolding route_verdict
    settle_verdict now run index step g name waiting = (run, halt)
    settle_verdict now run index step g name no_policy = (run, halt)
    settle_verdict now run index step g name (verdict_in v) =
        route_verdict now run index step g name v

    unfoldable pub handle_gate_verdict : ℕ → WorkflowRun F → ℕ → String → WorkflowRun F × Next
    unfolding verdict_text collect_ensemble_verdicts settle_verdict
    handle_gate_verdict now run index name = elim (gate_at (steps_of_run run) index) [
      | none ↦ (run, halt)
      | some (step, g) ↦
          if is_some g.verifier || is_some g.verifiers
          then elim (verdict_text run index step g name) [
            | none ↦ (run, halt)
            | some (read, text) ↦
                let (after, collected) = collect_ensemble_verdicts read index g name (parse text) in
                elim (gate_at (steps_of_run after) index) [
                  | none ↦ (after, halt)
                  | some (now_step, now_g) ↦
                      settle_verdict now after index now_step now_g name collected
                ]
          ]
          else (run, halt)
    ]

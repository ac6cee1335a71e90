-- ===== src/Examples/Verdicts.antt =====
-- Verdicts at concrete gates.
use octeam.Prelude.{◌≡◌, ◌⊎◌, refl, true, none, some, [], ◌∷◌}
use octeam.Workflow.Types.{Verdict, pass, fail, OnFail, GateFields, gate, Step}
use octeam.Workflow.JoinPolicy.Ieee.{Ratio, ratio_fraction}
use octeam.Workflow.Engine.State.{WorkflowRun}
use octeam.Workflow.Verdicts.Collect.{Reading, route_verdict}
use octeam.Workflow.Verdicts.Stops.{settled_at, may_advance}
use octeam.Workflow.Verdicts.Advances.{advance_settles}
use octeam.Workflow.Verdicts.Tries.{gate_tries, RetriesVerifier, RetriesProducer}
use octeam.Workflow.Verdicts.Retries.{retry_bounded}
use octeam.Examples.Steps.{blank}
use octeam.Examples.Gates.{scored_gate, work}

-- A gate that retries a FAIL once, and skips nothing.
abbrev checked_gate : GateFields Ratio
checked_gate = record scored_gate {
  condition = none;
  on_pass_goto = none;
  on_fail = some OnFail.retry;
  max_retries = some 1;
}

abbrev checked_step : Step Ratio
checked_step = record { runtime = blank; kind = gate checked_gate }

abbrev checked_run : WorkflowRun Ratio
checked_run = record {
  view = record {
    active_step_indices = some (2 ∷ []);
    current_stage_index = 2;
    steps = some (work "ann" ∷ work "bob" ∷ checked_step ∷ work "cem" ∷ []);
  };
  responses = ("dan", "PASS") ∷ [];
  human_approval = none;
  approval_request = none;
  finished = none;
}

abbrev reading : Verdict → Reading Ratio
reading v = record {
  verdict = some v;
  score = none;
  confidence = none;
  issues = none;
  parse_failed = none;
}

advance_settles_example :
    (settled_at (route_verdict 9 checked_run 2 checked_step checked_gate "dan" (reading pass)).0 2
      ≡ true)
    × (may_advance (some pass) checked_gate ≡ true)
unfolding route_verdict
advance_settles_example =
    advance_settles 9 checked_run 2 checked_step checked_gate "dan" (reading pass) refl refl

-- The step that the gate verifies runs again, as the first retry.
retry_bounded_example :
    RetriesVerifier
      (gate_tries checked_gate)
      2
      1
      (route_verdict 9 checked_run 2 checked_step checked_gate "dan" (reading fail)).0
    ⊎ RetriesProducer
        (gate_tries checked_gate)
        2
        1
        (route_verdict 9 checked_run 2 checked_step checked_gate "dan" (reading fail)).0
unfolding route_verdict
retry_bounded_example =
    retry_bounded 9 checked_run 2 checked_step checked_gate "dan" (reading fail) 1 refl refl

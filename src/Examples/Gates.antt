-- ===== src/Examples/Gates.antt =====
-- Gates at concrete workflows: their targets, their conditions and their ensembles.
use octeam.Prelude.{
  ℕ, String, true, false, ◌≡◌, ◌<◌, refl, none, some, List, [], ◌∷◌, get_or, eq_nat,
}
use octeam.Prelude.Member.{includes}
use octeam.Workflow.Types.{
  Verdict, pass, fail, score_gte, majority, EnsembleResult, GateFields, task, gate, Step,
}
use octeam.Workflow.JoinPolicy.Ieee.{Ratio, ratio_fraction, ratio_laws}
use octeam.Workflow.Gates.Targets.{
  can_gate_reference_task, gate_target_indices, preceding_task_index,
}
use octeam.Workflow.Gates.Targets.Found.{gate_targets_sound}
use octeam.Workflow.Gates.Ensemble.{
  Aggregate, aggregate_ensemble_verdict, count_verdict, count_malformed,
}
use octeam.Workflow.Gates.Ensemble.Outvotes.{ensemble_outvotes}
use octeam.Examples.Steps.{blank, work_by, gate_of, steps_of}

-- The gate of one verifier, which passes on to step 3 for a score of at least 7.
abbrev pub scored_gate : GateFields Ratio
scored_gate = record (gate_of []) {
  verifier = some "dan";
  verifiers = none;
  score = some (record { num = 8; den = 1 });
  condition = some (score_gte (record { num = 7; den = 1 }));
  on_pass_goto = some 3;
}

abbrev pub work : String → Step Ratio
work name = record { runtime = blank; kind = task (work_by name) }

abbrev pub scored_step : Step Ratio
scored_step = record { runtime = blank; kind = gate scored_gate }

abbrev pub scored_steps : List (Step Ratio)
scored_steps = work "ann" ∷ work "bob" ∷ scored_step ∷ work "cem" ∷ []

-- The gate after the fanout verifies the join; it may not reference the branches.
gate_targets_sound_example :
    ((k : ℕ)
      → includes (gate_target_indices (steps_of true) 5) k ≡ true
      → can_gate_reference_task (steps_of true) 5 k ≡ true)
    × ((i : ℕ)
        → preceding_task_index (steps_of true) 5 ≡ some i
        → (can_gate_reference_task (steps_of true) 5 i ≡ true)
          × (i < 5)
          × ((k : ℕ) → i < k → k < 5 → can_gate_reference_task (steps_of true) 5 k ≡ false))
    × (preceding_task_index (steps_of true) 5 ≡ none
        → (k : ℕ) → k < 5
        → can_gate_reference_task (steps_of true) 5 k ≡ false)
gate_targets_sound_example = gate_targets_sound (steps_of true) 5

join_is_target : gate_target_indices (steps_of true) 5 ≡ 4 ∷ []
unfolding gate_target_indices
join_is_target = refl

abbrev vote : Verdict → EnsembleResult Ratio
vote v = record {
  verdict = v;
  score = none;
  confidence = none;
  issues = none;
  rationale = none;
  diff = none;
  parse_failed = none;
}

-- Two of three verifiers pass.
abbrev pub voted_gate : GateFields Ratio
voted_gate = record (gate_of ("dan" ∷ "eve" ∷ "fay" ∷ [])) {
  ensemble_policy = some majority;
  ensemble_results = some (("dan", vote pass) ∷ ("eve", vote fail) ∷ ("fay", vote pass) ∷ []);
}

abbrev passed : Aggregate Ratio
passed = record {
  verdict = pass;
  parse_failed = false;
  score = none;
  confidence = none;
  issues = none;
}

ensemble_outvotes_example :
    (pass ≡ pass
      → (count_verdict fail (get_or voted_gate.ensemble_results [])
          < count_verdict pass (get_or voted_gate.ensemble_results []))
        × (count_malformed (get_or voted_gate.ensemble_results []) ≡ 0))
    × (pass ≡ fail
        → (count_verdict pass (get_or voted_gate.ensemble_results [])
            < count_verdict fail (get_or voted_gate.ensemble_results []))
          × (count_malformed (get_or voted_gate.ensemble_results []) ≡ 0))
unfolding aggregate_ensemble_verdict
ensemble_outvotes_example = ensemble_outvotes ratio_laws voted_gate passed refl

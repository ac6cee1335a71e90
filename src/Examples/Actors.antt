-- ===== src/Examples/Actors.antt =====
-- The actors of the sample workflow.
use octeam.Prelude.{◌≡◌, refl, true, some, [], ◌∷◌, eq_nat, eq_string}
use octeam.Prelude.Assoc.{lookup, insert}
use octeam.Workflow.Types.{Step, gate}
use octeam.Workflow.JoinPolicy.Ieee.{Ratio}
use octeam.Workflow.Dag.Actors.{unavailable, record_unavailable_ensemble_verifier}
use octeam.Examples.Steps.{blank, gate_of}

abbrev ensemble_gate : Step Ratio
ensemble_gate = record { runtime = blank; kind = gate (gate_of ("dan" ∷ "eve" ∷ [])) }

abbrev eve_voted : Step Ratio
eve_voted = record ensemble_gate {
  kind = gate (record (gate_of ("dan" ∷ "eve" ∷ [])) {
    ensemble_results = some (("eve", unavailable) ∷ []);
  });
}

eve_unavailable :
    record_unavailable_ensemble_verifier (some ensemble_gate) "eve" ≡ (some eve_voted, true)
unfolding record_unavailable_ensemble_verifier lookup insert
eve_unavailable = refl

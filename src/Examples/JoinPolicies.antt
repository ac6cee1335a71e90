-- ===== src/Examples/JoinPolicies.antt =====
-- The join policies at concrete joins.
use octeam.Prelude.{String, ◌≡◌, refl, subst, false, not, [], ◌∷◌, arith, eq_string}
use octeam.Prelude.Member.{includes, includes_one}
use octeam.Workflow.Types.{quorum, required_branches}
use octeam.Workflow.JoinPolicy.{join_policy_satisfied, join_policy_impossible}
use octeam.Workflow.JoinPolicy.Ieee.{ratio_laws, ratio_fraction}
use octeam.Workflow.JoinPolicy.FailFast.{join_policy_impossible_sound, satisfied-eq-not-impossible}
use octeam.Examples.Steps.{join_by}

-- Two of two branches have errored, and half of them are needed.
join_policy_impossible_sound_example : join_policy_satisfied (join_by quorum) [] 2 ≡ false
unfolding join_policy_impossible includes
join_policy_impossible_sound_example =
    join_policy_impossible_sound ratio_laws (join_by quorum) ("left" ∷ "right" ∷ []) 0 2 [] 2 refl
      (omega arith) (omega arith) (λ id h. refl) refl

satisfied-eq-not-impossible_example :
    join_policy_satisfied (join_by required_branches) ("left" ∷ []) 1
    ≡ not (join_policy_impossible (join_by required_branches) ("right" ∷ []) 1 2)
unfolding includes
satisfied-eq-not-impossible_example =
    satisfied-eq-not-impossible ratio_laws (join_by required_branches) ("left" ∷ []) ("right" ∷ [])
      (omega arith) refl
      (λ id h.
        subst
          (λ n.
            includes {A = String} ("right" ∷ []) n ≡ not (includes {A = String} ("left" ∷ []) n))
          (includes_one "left" id h) refl)

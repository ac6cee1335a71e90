-- ===== src/Workflow/Gates/Ensemble/Outvotes.antt =====
-- An ensemble of gate.ts never passes, and never fails, against the larger number of its verifiers.
use octeam.Prelude.{
  ℕ, ◌+◌, ◌≤◌, ◌<◌, ◌≡◌, ◌⊎◌, sym, ◌∙◌, String, some, List, [], ◌∷◌, arith, ltb, nat_eq, get_or,
  Bool-cases, Option-cases, inl, inr,
}
use octeam.Workflow.Types.{
  pass, fail, invalid, EnsemblePolicy, majority, quorum, unanimous, EnsembleResult, GateFields,
}
use octeam.Workflow.JoinPolicy.Ieee.{Fraction, FractionLaws}
use octeam.Workflow.Gates.Ensemble.{
  Aggregate, count_verdict, count_malformed, count_results, policy_verdict, result_from_verdict,
  aggregate_ensemble_verdict,
}

module _ {F : Type 0} where
  -- Passes and fails are apart.
  count_apart :
      (entries : List (String × EnsembleResult F))
      → count_verdict pass entries + count_verdict fail entries ≤ count_results entries
  unfolding count_verdict count_results
  count_apart [] = omega arith
  count_apart (entry ∷ entries) = ground (arith, count_apart entries)

module _ {F : Type 0} ⦃fr : Fraction F⦄ (laws : FractionLaws fr) where
  policy_pass :
      (policy : EnsemblePolicy) (threshold : F) (passes fails total : ℕ)
      → passes + fails ≤ total
      → 0 < total
      → policy_verdict policy threshold passes fails total ≡ pass
      → fails < passes
  unfolding policy_verdict
  policy_pass majority threshold passes fails total s p h = ground arith
  policy_pass quorum threshold passes fails total s p h =
      ground (arith, laws.ge_mono passes fails total threshold)
  policy_pass unanimous threshold passes fails total s p h = ground arith

  policy_fail :
      (policy : EnsemblePolicy) (threshold : F) (passes fails total : ℕ)
      → passes + fails ≤ total
      → 0 < total
      → policy_verdict policy threshold passes fails total ≡ fail
      → passes < fails
  unfolding policy_verdict
  policy_fail majority threshold passes fails total s p h = ground arith
  policy_fail quorum threshold passes fails total s p h =
      ground (arith, laws.ge_mono fails passes total threshold)
  policy_fail unanimous threshold passes fails total s p h = ground arith

  -- The verdict is that it is invalid, or the policy's.
  by_policy :
      (g : GateFields F) (r : Aggregate F)
      → aggregate_ensemble_verdict g ≡ some r
      → (r.verdict ≡ invalid)
        ⊎ ((policy : EnsemblePolicy) × (threshold : F) × (count_malformed
                (get_or g.ensemble_results [])
              ≡ 0)
            × (0 < count_results (get_or g.ensemble_results []))
            × (r.verdict
                ≡ policy_verdict policy threshold
                    (count_verdict pass (get_or g.ensemble_results []))
                    (count_verdict fail (get_or g.ensemble_results []))
                    (count_results (get_or g.ensemble_results []))))
  unfolding aggregate_ensemble_verdict result_from_verdict
  by_policy g r h =
      let entries = get_or g.ensemble_results [] in
      elim (Bool-cases (ltb 0 (count_malformed entries))) [
        | inl bad ↦ inl (ground (arith, h, bad))
        | inr good ↦ elim (Bool-cases (nat_eq (count_results entries) 0)) [
          | inl empty ↦ inl (ground (arith, h, good, empty))
          | inr full ↦ elim (Option-cases g.ensemble_policy) [
            | inl missing ↦ absurd (ground (arith, h, good, full, missing))
            | inr (policy, e) ↦ inr (
              policy,
              get_or g.ensemble_quorum (fr.div 1 2),
              ground (arith, good),
              ground (arith, full),
              ground (arith, h, good, full, e),
            )
          ]
        ]
      ]

  -- If the verdict of an ensemble is to pass, then more of its verifiers pass than fail; if it is to
  -- fail, then more fail than pass; and in both cases no verifier's output was malformed. So it is
  -- under each policy and for each quorum.
  pub ensemble_outvotes :
      (g : GateFields F) (r : Aggregate F)
      → aggregate_ensemble_verdict g ≡ some r
      → (r.verdict ≡ pass
          → (count_verdict fail (get_or g.ensemble_results [])
              < count_verdict pass (get_or g.ensemble_results []))
            × (count_malformed (get_or g.ensemble_results []) ≡ 0))
        × (r.verdict ≡ fail
            → (count_verdict pass (get_or g.ensemble_results [])
                < count_verdict fail (get_or g.ensemble_results []))
              × (count_malformed (get_or g.ensemble_results []) ≡ 0))
  ensemble_outvotes g r h =
      let entries = get_or g.ensemble_results [] in
      let apart = count_apart entries in
      elim (by_policy g r h) [
        | inl e ↦ (λ v. absurd (ground (arith, e, v)), λ v. absurd (ground (arith, e, v)))
        | inr (policy, threshold, well_formed, some_result, e) ↦ (
          λ v. (
            policy_pass policy threshold (count_verdict pass entries) (count_verdict fail entries)
                (count_results entries) apart some_result (sym e ∙ v),
            well_formed,
          ),
          λ v. (
            policy_fail policy threshold (count_verdict pass entries) (count_verdict fail entries)
                (count_results entries) apart some_result (sym e ∙ v),
            well_formed,
          ),
        )
      ]

-- ===== src/Workflow/Gates/Ensemble.antt =====
-- src/orchestration/workflow/gate.ts: one verdict from the verdicts of a gate's verifiers. The texts
-- of the rationale and the diff are left out; no text decides anything.
pub mod Outvotes
use octeam.Prelude.{
  ℕ, suc, ◌*◌, String, Bool, true, false, ◌&&◌, Option, none, some, List, [], ◌∷◌, ◌++◌, ltb,
  nat_eq, get_or, if◌then◌else◌,
}
use octeam.Workflow.Types.{
  Verdict, pass, fail, invalid, Issue, EnsemblePolicy, majority, quorum, unanimous, EnsembleResult,
  GateFields,
}
use octeam.Workflow.JoinPolicy.{is_true}
use octeam.Workflow.JoinPolicy.Ieee.{Fraction}

abbrev pub verdict_eq : Verdict → Verdict → Bool
verdict_eq pass pass = true
verdict_eq fail fail = true
verdict_eq invalid invalid = true
verdict_eq _ _ = false

pub record Aggregate (F : Type 0) : Type 0 where
  pub verdict : Verdict
  pub parse_failed : Bool
  pub score : Option F
  pub confidence : Option F
  pub issues : Option (List Issue)

-- The value of every item, where every item has one.
unfoldable pub all_supplied {ℓ κ} :
    {A : Type ℓ} {B : Type κ} → (A → Option B) → List A → Option (List B)
all_supplied f [] = some []
all_supplied f (x ∷ xs) = elim (f x) [
  | none ↦ none
  | some y ↦ elim (all_supplied f xs) [ none ↦ none | some ys ↦ some (y ∷ ys) ]
]

unfoldable pub concat {ℓ} : {A : Type ℓ} → List (List A) → List A
concat [] = []
concat (xs ∷ xss) = xs ++ concat xss

module _ {F : Type 0} where
  -- How many results have the verdict.
  unfoldable pub count_verdict : Verdict → List (String × EnsembleResult F) → ℕ
  count_verdict v [] = 0
  count_verdict v (entry ∷ entries) =
      let rest = count_verdict v entries in if verdict_eq entry.1.verdict v then suc rest else rest

  unfoldable pub count_malformed : List (String × EnsembleResult F) → ℕ
  count_malformed [] = 0
  count_malformed (entry ∷ entries) =
      let rest = count_malformed entries in if is_true entry.1.parse_failed then suc rest else rest

  unfoldable pub count_results : List (String × EnsembleResult F) → ℕ
  count_results [] = 0
  count_results (entry ∷ entries) = suc (count_results entries)

  unfoldable pub supporters : Verdict → List (String × EnsembleResult F) → List (EnsembleResult F)
  supporters v [] = []
  supporters v (entry ∷ entries) =
      let rest = supporters v entries in
      if verdict_eq entry.1.verdict v then entry.1 ∷ rest else rest

module _ {F : Type 0} ⦃fr : Fraction F⦄ where
  -- `Math.max` of two numbers
  abbrev pub larger : F → F → F
  larger a b = if fr.ge a b then a else b

  -- `Math.max(...xs)`, absent for no number
  unfoldable pub largest : List F → Option F
  largest [] = none
  largest (x ∷ xs) = elim (largest xs) [ none ↦ some x | some y ↦ some (larger x y) ]

  unfoldable pub largest_supplied : Option (List F) → Option F
  unfolding largest
  largest_supplied none = none
  largest_supplied (some xs) = largest xs

  unfoldable pub result_from_verdict :
      List (String × EnsembleResult F) → Bool → Verdict → Aggregate F
  unfolding supporters all_supplied largest_supplied concat
  result_from_verdict entries malformed v =
      let votes = supporters v entries in
      record {
        verdict = v;
        parse_failed = malformed;
        score = largest_supplied (all_supplied (λ (r : EnsembleResult F). r.score) votes);
        confidence = largest_supplied (all_supplied (λ (r : EnsembleResult F). r.confidence) votes);
        issues = elim (all_supplied (λ (r : EnsembleResult F). r.issues) votes) [
          | none ↦ none
          | some all ↦ some (concat all)
        ];
      }

  unfoldable pub policy_verdict : EnsemblePolicy → F → ℕ → ℕ → ℕ → Verdict
  policy_verdict majority threshold passes fails total =
      if ltb total (2 * passes) then pass else if ltb total (2 * fails) then fail else invalid
  policy_verdict quorum threshold passes fails total =
      let pass_meets = fr.ge (fr.div passes total) threshold in
      let fail_meets = fr.ge (fr.div fails total) threshold in
      if pass_meets && fail_meets
      then invalid
      else if pass_meets
      then pass
      else if fail_meets
      then fail
      else invalid
  policy_verdict unanimous threshold passes fails total =
      if nat_eq passes total then pass else if nat_eq fails total then fail else invalid

  abbrev pub no_results : Aggregate F
  no_results = record {
    verdict = invalid;
    parse_failed = false;
    score = none;
    confidence = none;
    issues = none;
  }

  -- `none` for the error that is thrown where the policy is missing.
  unfoldable pub aggregate_ensemble_verdict : GateFields F → Option (Aggregate F)
  unfolding result_from_verdict policy_verdict count_verdict count_malformed count_results
  aggregate_ensemble_verdict g =
      let entries = get_or g.ensemble_results [] in
      let total = count_results entries in
      if ltb 0 (count_malformed entries)
      then some (result_from_verdict entries true invalid)
      else if nat_eq total 0
      then some no_results
      else elim g.ensemble_policy [
        | none ↦ none
        | some policy ↦ some (
            result_from_verdict entries false (
              policy_verdict policy (get_or g.ensemble_quorum (fr.div 1 2))
                (count_verdict pass entries) (count_verdict fail entries) total))
      ]

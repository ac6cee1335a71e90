-- ===== src/Workflow/Dag/Joins/Resolved.antt =====
-- The scan of a fully terminal fanout in dag.ts against a description without accumulators.
use mathlib.Core.List.{append_assoc, append-nil}
use native.Mathlib.Nat.{add-zero}
use octeam.Prelude.{
  ℕ, suc, ◌+◌, String, ◌≡◌, refl, Bool, false, inl, inr, ◌&&◌, ◌||◌, none, some, List, [], ◌∷◌,
  ◌++◌, arith, all, get_elem?, get_or, if◌then◌else◌, Option-cases,
}
use octeam.Workflow.Types.{Step, JoinMetadata}
use octeam.Workflow.JoinPolicy.{join_policy_satisfied}
use octeam.Workflow.JoinPolicy.Ieee.{Fraction}
use octeam.Workflow.Dag.Joins.{
  branch_id?, singleton, is_errored, is_terminal_workflow_step, resolved_branches, all_resolved,
}

module _ {F : Type 0} (steps : List (Step F)) (errored : List String) where
  -- The tail is there, and it has errored or it is terminal.
  abbrev pub is_resolved_tail : ℕ → Bool
  is_resolved_tail t = elim (get_elem? steps t) [
    | none ↦ false
    | some tail ↦ is_errored errored tail || is_terminal_workflow_step tail
  ]

  -- The branches of the tails that have not errored, in order.
  abbrev pub survivors : List ℕ → List String
  survivors [] = []
  survivors (t ∷ ts) = elim (get_elem? steps t) [
    | none ↦ survivors ts
    | some tail ↦
        if is_errored errored tail
        then survivors ts
        else singleton (branch_id? tail) ++ survivors ts
  ]

  abbrev pub error_count : List ℕ → ℕ
  error_count [] = 0
  error_count (t ∷ ts) = elim (get_elem? steps t) [
    | none ↦ error_count ts
    | some tail ↦ if is_errored errored tail then suc (error_count ts) else error_count ts
  ]

  resolved_branches_lem :
      (ts : List ℕ) (names : List String) (n : ℕ)
      → resolved_branches steps errored ts names n ≡ (
          if all is_resolved_tail ts
          then some (names ++ survivors ts, n + error_count ts)
          else none)
  unfolding resolved_branches
  resolved_branches_lem [] names n = rw (append-nil, add-zero) refl
  resolved_branches_lem (t ∷ ts) names n = elim (Option-cases (get_elem? steps t)) [
    | inl e ↦ ground (arith, e)
    | inr (tail, e) ↦
        rw (e, resolved_branches)
          (ground (
            arith,
            resolved_branches_lem ts names (n + 1),
            resolved_branches_lem ts (names ++ singleton (branch_id? tail)) n,
            append_assoc names (singleton (branch_id? tail)) (survivors ts),
          ))
  ]

module _ {F : Type 0} ⦃fr : Fraction F⦄ where
  -- Without the early open of `any_success`, a join opens exactly when every tail is in the array
  -- and has errored or is terminal, and the policy holds of the branches that did not error and the
  -- number of the tails that did.
  pub all_resolved_lem :
      (steps : List (Step F)) (j : JoinMetadata F)
      → let errored = get_or j.errored_branch_ids [] in
        let tails = j.branch_tail_indices in
        all_resolved steps j ≡ (
          all (is_resolved_tail steps errored) tails
          && join_policy_satisfied j
              (survivors steps errored tails)
              (error_count steps errored tails))
  unfolding all_resolved
  all_resolved_lem steps j =
      let errored = get_or j.errored_branch_ids [] in
      ground (arith, resolved_branches_lem steps errored j.branch_tail_indices [] 0)

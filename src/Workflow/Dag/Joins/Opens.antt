-- ===== src/Workflow/Dag/Joins/Opens.antt =====
-- What an open join says of its branches, and what the early open of `any_success` leaves behind.
use octeam.Prelude.{
  ℕ, ◌≡◌, true, false, inl, inr, ◌⊎◌, some, List, [], arith, all, get_elem?, get_or, Bool-cases,
  Option-cases, eq_nat,
}
use octeam.Prelude.Member.{includes}
use octeam.Workflow.Types.{Step, JoinMetadata}
use octeam.Workflow.JoinPolicy.Ieee.{Fraction}
use octeam.Workflow.Dag.Joins.{
  skip_losers, fanout_of, is_any_success, success_found, is_join_metadata_satisfied,
}
use octeam.Workflow.Dag.Joins.Resolved.{is_resolved_tail, all_resolved_lem}
use octeam.Workflow.Dag.Joins.Skip.{Skips-skip_losers}
use octeam.Workflow.Dag.Joins.Settled.{
  IsSettled, IsLinked, skip_losers-IsSettled, all_resolved_IsSettled, skip_losers_settled,
  success_found-Skips,
}

module _ {F : Type 0} ⦃fr : Fraction F⦄ where
  -- The two ways of the test: the plain scan, or the early open.
  join_cases :
      (steps : List (Step F)) (j : JoinMetadata F)
      → let errored = get_or j.errored_branch_ids [] in
        let tails = j.branch_tail_indices in
        let after = skip_losers (fanout_of (get_elem? steps j.fanout_index)) errored tails steps in
        ((is_join_metadata_satisfied steps j).0 ≡ steps
          × ((is_join_metadata_satisfied steps j).1 ≡ true
              → all (is_resolved_tail steps errored) tails ≡ true))
        ⊎ ((is_any_success j.join_policy ≡ true)
            × (success_found steps errored tails ≡ some true)
            × (is_join_metadata_satisfied steps j ≡ (after, true)))
  unfolding is_join_metadata_satisfied
  join_cases steps j =
      let errored = get_or j.errored_branch_ids [] in
      elim (Bool-cases (is_any_success j.join_policy)) [
        | inl early ↦ elim (Option-cases (success_found steps errored j.branch_tail_indices)) [
          | inl e ↦ inl (ground (arith, early, e), λ o. ground (arith, early, e, o))
          | inr (true, e) ↦ inr (early, e, ground (arith, early, e))
          | inr (false, e) ↦
              inl (
                ground (arith, early, e),
                λ o. ground (arith, early, e, o, all_resolved_lem steps j),
              )
        ]
        | inr late ↦
            inl (ground (arith, late), λ o. ground (arith, late, o, all_resolved_lem steps j))
      ]

  -- Where all tails are settled, the early open writes nothing.
  opened_early :
      (after : List (Step F)) (j : JoinMetadata F)
      → is_any_success j.join_policy ≡ true
      → success_found after (get_or j.errored_branch_ids []) j.branch_tail_indices ≡ some true
      → ((t : ℕ)
          → includes j.branch_tail_indices t ≡ true
          → IsSettled (get_or j.errored_branch_ids []) after t)
      → is_join_metadata_satisfied after j ≡ (after, true)
  unfolding is_join_metadata_satisfied
  opened_early after j early success settled = ground (
    arith,
    skip_losers_settled (fanout_of (get_elem? after j.fanout_index))
        (get_or j.errored_branch_ids []) j.branch_tail_indices after settled,
  )

  -- If the join test returns true, and each tail of the join with a known range lies in it, then each
  -- branch tail has errored or is terminal in the steps that it leaves, whatever the policy.
  pub open_join-IsSettled :
      (steps after : List (Step F)) (j : JoinMetadata F)
      → ((t : ℕ)
          → includes j.branch_tail_indices t ≡ true
          → IsLinked (fanout_of (get_elem? steps j.fanout_index)) steps t)
      → is_join_metadata_satisfied steps j ≡ (after, true)
      → (t : ℕ) → includes j.branch_tail_indices t ≡ true
      → IsSettled (get_or j.errored_branch_ids []) after t
  unfolding is_join_metadata_satisfied
  open_join-IsSettled steps after j linked h t k =
      let errored = get_or j.errored_branch_ids [] in
      let marker = fanout_of (get_elem? steps j.fanout_index) in
      let tails = j.branch_tail_indices in
      elim (join_cases steps j) [
        | inl (e, resolved) ↦
            let same : after ≡ steps = ground (arith, e) in
            rw same (all_resolved_IsSettled steps errored tails t (ground (arith, e, resolved)) k)
        | inr (early, success, e) ↦
            let same : after ≡ skip_losers marker errored tails steps = ground (arith, e) in
            rw same (skip_losers-IsSettled marker errored tails steps linked t k)
      ]

  -- A join that opens stays open: under the same condition on its tails, a second test of the steps
  -- that the first one left returns true and changes nothing.
  pub open_join_stable :
      (steps after : List (Step F)) (j : JoinMetadata F)
      → ((t : ℕ)
          → includes j.branch_tail_indices t ≡ true
          → IsLinked (fanout_of (get_elem? steps j.fanout_index)) steps t)
      → is_join_metadata_satisfied steps j ≡ (after, true)
      → is_join_metadata_satisfied after j ≡ (after, true)
  open_join_stable steps after j linked h =
      let errored = get_or j.errored_branch_ids [] in
      let marker = fanout_of (get_elem? steps j.fanout_index) in
      let tails = j.branch_tail_indices in
      elim (join_cases steps j) [
        | inl (e, resolved) ↦ let same : steps ≡ after = ground (arith, e, h) in rw same at h
        | inr (early, success, e) ↦
            let same : after ≡ skip_losers marker errored tails steps = ground (arith, e, h) in
            opened_early after j early
              (success_found-Skips steps after errored tails
                (rw same (Skips-skip_losers marker errored tails steps)) success)
              (open_join-IsSettled steps after j linked h)
      ]

-- ===== src/Workflow/Invariants/Branches.antt =====
-- The check of one branch range of invariants.ts.
use octeam.Prelude.{
  ℕ, zero, suc, ◌+◌, ◌-◌, ◌≤◌, ◌<◌, ◌≡◌, ap, ◌∙◌, String, true, false, not, ◌&&◌, Option, some,
  List, [], ◌∷◌, ◌++◌, arith, get_elem?, ltb, leb, nat_eq, nat_eq_iff, eq_iff, Option-cases,
  Bool-cases, inl, inr,
}
use octeam.Workflow.Types.{BranchMetadata, BranchRange, FanoutMetadata, Step}
use octeam.Workflow.Ranges.{ranges_overlap, includes_workflow_index}
use octeam.Workflow.Invariants.{
  range_overlaps, range_after_join, range_before_fanout, range_out_of_bounds, range_empty, report,
  is_index_in_bounds, check_overlaps, branch_differs, check_range_steps, check_range,
}
use octeam.Workflow.Invariants.Active.{append-empty}

pub check_overlaps_none :
    (index range_index previous_index : ℕ) (range : BranchRange) (ranges : List BranchRange) (q : ℕ)
    (left : BranchRange)
    → check_overlaps index range_index previous_index range ranges ≡ []
    → get_elem? ranges q ≡ some left
    → ranges_overlap left range ≡ false
unfolding check_overlaps
check_overlaps_none index ri pi range [] q left h e = absurd (cc)
check_overlaps_none index ri pi range (r ∷ rs) zero left h e = ground (arith, h, e)
check_overlaps_none index ri pi range (r ∷ rs) (suc q) left h e =
    let later =
      (append-empty (report (ranges_overlap r range) (range_overlaps index ri pi))
        (check_overlaps index ri (suc pi) range rs) h).1 in
    check_overlaps_none index ri (suc pi) range rs q left later e

module _ {F : Type 0} where
  -- The step has the metadata of branch `expected` of the fanout at `index`.
  abbrev pub IsInBranch : ℕ → Option String → Step F → Type 0
  IsInBranch index expected step =
      (branch : BranchMetadata) × (step.branch ≡ some branch)
      × (branch.fanout_index ≡ index)
      × (expected ≡ some branch.branch_id)

  later_range_steps :
      (steps : List (Step F)) (index ri : ℕ) (expected : Option String) (n from : ℕ)
      → check_range_steps steps index ri expected (suc n) from ≡ []
      → check_range_steps steps index ri expected n (suc from) ≡ []
  unfolding check_range_steps
  later_range_steps steps index ri expected n from h = ground (arith, h)

  first_range_step :
      (steps : List (Step F)) (index ri : ℕ) (expected : Option String) (n from : ℕ) (step : Step F)
      → check_range_steps steps index ri expected (suc n) from ≡ []
      → get_elem? steps from ≡ some step
      → IsInBranch index expected step
  unfolding check_range_steps branch_differs
  first_range_step steps index ri expected n from step h e = elim (Option-cases step.branch) [
    | inl missing ↦ absurd (ground (arith, h, e, missing))
    | inr (branch, own) ↦ elim (Option-cases expected) [
      | inl missing ↦ absurd (ground (arith, h, e, own, missing))
      | inr (id, named) ↦ (
        branch,
        own,
        ground (arith, h, e, own, named, nat_eq_iff branch.fanout_index index),
        ground (arith, h, e, own, named, eq_iff branch.branch_id id),
      )
    ]
  ]

  check_range_steps-IsInBranch :
      (steps : List (Step F)) (index ri : ℕ) (expected : Option String) (n from k : ℕ)
      (step : Step F)
      → check_range_steps steps index ri expected n from ≡ []
      → from ≤ k
      → k < from + n
      → get_elem? steps k ≡ some step
      → IsInBranch index expected step
  check_range_steps-IsInBranch steps index ri expected zero from k step h low high e =
      absurd (omega arith)
  check_range_steps-IsInBranch steps index ri expected (suc n) from k step h low high e =
      elim (Bool-cases (nat_eq from k)) [
        | inl here ↦
            first_range_step steps index ri expected n from step h
              (ap (get_elem? steps) ((nat_eq_iff from k).0 here) ∙ e)
        | inr further ↦
            check_range_steps-IsInBranch steps index ri expected n (suc from) k step
              (later_range_steps steps index ri expected n from h) (ground (arith, further, low))
              (omega (arith, high)) e
      ]

  -- The layout of one range: it is not empty, lies between the marker and the join, and each step in
  -- it belongs to the branch.
  abbrev pub IsLaidOut : List (Step F) → ℕ → FanoutMetadata F → ℕ → BranchRange → Type 0
  IsLaidOut steps index m r range =
      (range.start_index ≤ range.end_index)
      × (index < range.start_index)
      × (range.end_index < m.join_index)
      × ((k : ℕ) (step : Step F)
          → includes_workflow_index range k ≡ true
          → get_elem? steps k ≡ some step
          → IsInBranch index (get_elem? m.branch_ids r) step)

  pub check_range-IsLaidOut :
      (steps : List (Step F)) (index : ℕ) (m : FanoutMetadata F) (r : ℕ) (before : List BranchRange)
      (range : BranchRange)
      → check_range steps index m r before range ≡ []
      → IsLaidOut steps index m r range × (check_overlaps index r 0 range before ≡ [])
  unfolding check_range
  check_range-IsLaidOut steps index m r before range h =
      let inside =
        is_index_in_bounds steps range.start_index && is_index_in_bounds steps range.end_index in
      let overlaps = check_overlaps index r 0 range before in
      let walk =
        check_range_steps steps index r (get_elem? m.branch_ids r)
          (suc range.end_index - range.start_index) range.start_index in
      let v4 = report (leb m.join_index range.end_index) (range_after_join index r) in
      let v3 = report (leb range.start_index index) (range_before_fanout index r) in
      let v2 = report (not inside) (range_out_of_bounds index r) in
      let v1 = report (ltb range.end_index range.start_index) (range_empty index r) in
      let (h4, f) = append-empty (v1 ++ v2 ++ v3 ++ v4 ++ overlaps) walk h in
      let (h3, e) = append-empty (v1 ++ v2 ++ v3 ++ v4) overlaps h4 in
      let (h2, d) = append-empty (v1 ++ v2 ++ v3) v4 h3 in
      let (h1, c) = append-empty (v1 ++ v2) v3 h2 in
      let (a, b) = append-empty v1 v2 h1 in
      (
        (
          ground (arith, a),
          ground (arith, c),
          ground (arith, d),
          λ k step own at.
              check_range_steps-IsInBranch steps index r (get_elem? m.branch_ids r)
                (suc range.end_index - range.start_index) range.start_index k step f
                (ground (arith, own)) (ground (arith, own)) at,
        ),
        e,
      )

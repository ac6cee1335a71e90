-- ===== src/Workflow/Invariants/Fanouts.antt =====
-- The check of a fanout marker of invariants.ts: what it says of the branches when it finds nothing.
use octeam.Prelude.{
  ℕ, zero, suc, ◌+◌, ◌<◌, ◌≡◌, refl, ◌∙◌, true, false, not, some, List, [], ◌∷◌, ◌++◌, arith,
  get_elem?, length, nat_eq, nat_eq_iff, is_some,
}
use octeam.Workflow.Types.{BranchRange, FanoutMetadata, Step}
use octeam.Workflow.Ranges.{ranges_overlap}
use octeam.Workflow.Fanout.{join_of}
use octeam.Workflow.Invariants.{
  fanout_join_not_join, count_mismatch, report, check_range, check_ranges, check_fanout_step,
}
use octeam.Workflow.Invariants.Active.{append-empty}
use octeam.Workflow.Invariants.Branches.{IsLaidOut, check_range-IsLaidOut, check_overlaps_none}

get_elem?-append {ℓ} :
    {A : Type ℓ} (xs ys : List A) (q : ℕ) (a : A)
    → get_elem? xs q ≡ some a
    → get_elem? (xs ++ ys) q ≡ some a
get_elem?-append [] ys q a h = absurd (cc)
get_elem?-append (x ∷ xs) ys zero a h = h
get_elem?-append (x ∷ xs) ys (suc q) a h = get_elem?-append xs ys q a h

get_elem?-last {ℓ} :
    {A : Type ℓ} (xs : List A) (a : A) → get_elem? (xs ++ a ∷ []) (length xs) ≡ some a
get_elem?-last [] a = refl
get_elem?-last (x ∷ xs) a = get_elem?-last xs a

module _ {E : BranchRange → Type 0} where
  shift :
      (before xs : List BranchRange) (x : BranchRange) (r : ℕ)
      → ((q : ℕ) (left : BranchRange) → get_elem? (before ++ x ∷ []) q ≡ some left → E left)
      → ((q : ℕ) (left : BranchRange) → q < r → get_elem? xs q ≡ some left → E left)
      → (q : ℕ) (left : BranchRange) → q < suc r
      → get_elem? (x ∷ xs) q ≡ some left
      → E left
  shift before xs x r old new zero left lt f =
      old (length before) left (get_elem?-last before x ∙ f)
  shift before xs x r old new (suc q) left lt f = new q left (omega (arith, lt)) f

module _ {F : Type 0} where
  same_range :
      (steps : List (Step F)) (index : ℕ) (m : FanoutMetadata F) (r t : ℕ)
      (before : List BranchRange) (x range : BranchRange)
      → get_elem? (x ∷ []) 0 ≡ some range
      → r ≡ t
      → check_range steps index m r before x ≡ []
      → check_range steps index m t before range ≡ []
  same_range steps index m r t before x range e n h = cc

  -- A range that was checked, and what stood before it.
  checked_range :
      (steps : List (Step F)) (index : ℕ) (m : FanoutMetadata F) (ri : ℕ)
      (before ranges : List BranchRange) (r : ℕ) (range : BranchRange)
      → check_ranges steps index m ri before ranges ≡ []
      → get_elem? ranges r ≡ some range
      → (earlier : List BranchRange) × (check_range steps index m (ri + r) earlier range ≡ [])
        × ((q : ℕ) (left : BranchRange)
            → get_elem? before q ≡ some left
            → (p : ℕ) × (get_elem? earlier p ≡ some left))
        × ((q : ℕ) (left : BranchRange)
            → q < r
            → get_elem? ranges q ≡ some left
            → (p : ℕ) × (get_elem? earlier p ≡ some left))
  unfolding check_ranges
  checked_range steps index m ri before [] r range h e = absurd (cc)
  checked_range steps index m ri before (x ∷ xs) zero range h e =
      let here =
        (append-empty (check_range steps index m ri before x)
          (check_ranges steps index m (suc ri) (before ++ x ∷ []) xs) h).0 in
      (
        before,
        same_range steps index m ri (ri + 0) before x range e (omega arith) here,
        λ q left f. (q, f),
        λ q left lt f. absurd (omega (arith, lt)),
      )
  checked_range steps index m ri before (x ∷ xs) (suc r) range h e =
      let later =
        (append-empty (check_range steps index m ri before x)
          (check_ranges steps index m (suc ri) (before ++ x ∷ []) xs) h).1 in
      let (earlier, ok, old, new) =
        checked_range steps index m (suc ri) (before ++ x ∷ []) xs r range later e in
      (
        earlier,
        same_range steps index m (suc ri + r) (ri + suc r) earlier range range refl (omega arith)
            ok,
        λ q left f. old q left (get_elem?-append before (x ∷ []) q left f),
        shift before xs x r old new,
      )

  checked_ranges :
      (steps : List (Step F)) (index : ℕ) (m : FanoutMetadata F)
      → check_fanout_step steps index (some m) ≡ []
      → (is_some (join_of (get_elem? steps m.join_index)) ≡ true)
        × (length m.branch_ids ≡ length m.branch_ranges)
        × (check_ranges steps index m 0 [] m.branch_ranges ≡ [])
  unfolding check_fanout_step
  checked_ranges steps index m h =
      let v1 =
        report (not (is_some (join_of (get_elem? steps m.join_index))))
          (fanout_join_not_join index m.join_index) in
      let v2 =
        report (not (nat_eq (length m.branch_ids) (length m.branch_ranges)))
          (count_mismatch index) in
      let (h1, ranges) =
        append-empty (v1 ++ v2) (check_ranges steps index m 0 [] m.branch_ranges) h in
      let (a, b) = append-empty v1 v2 h1 in
      (
        ground (arith, a),
        ground (arith, b, nat_eq_iff (length m.branch_ids) (length m.branch_ranges)),
        ranges,
      )

  -- When the check of a fanout marker finds nothing, the marker leads to a join, it has as many branch
  -- ids as ranges, each range is not empty, lies between the marker and the join, and holds only
  -- steps with the metadata of its branch, and a range overlaps none of the ranges before it.
  pub check_fanout-IsLaidOut :
      (steps : List (Step F)) (index : ℕ) (m : FanoutMetadata F)
      → check_fanout_step steps index (some m) ≡ []
      → (is_some (join_of (get_elem? steps m.join_index)) ≡ true)
        × (length m.branch_ids ≡ length m.branch_ranges)
        × ((r : ℕ) (range : BranchRange)
            → get_elem? m.branch_ranges r ≡ some range
            → IsLaidOut steps index m r range
              × ((q : ℕ) (left : BranchRange)
                  → q < r
                  → get_elem? m.branch_ranges q ≡ some left
                  → ranges_overlap left range ≡ false))
  check_fanout-IsLaidOut steps index m h =
      let (joined, counted, checked) = checked_ranges steps index m h in
      (
        joined,
        counted,
        λ r range e.
            let (earlier, ok, old, new) =
              checked_range steps index m 0 [] m.branch_ranges r range checked e in
            let (laid_out, apart) =
              check_range-IsLaidOut steps index m r earlier range
                (same_range steps index m (0 + r) r earlier range range refl (omega arith) ok) in
            (
              laid_out,
              λ q left lt f.
                  let (p, at) = new q left lt f in
                  check_overlaps_none index r 0 range earlier p left apart at,
            ),
      )

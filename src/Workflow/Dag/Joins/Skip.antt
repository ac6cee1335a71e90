-- ===== src/Workflow/Dag/Joins/Skip.antt =====
-- What the join test of dag.ts may do to the steps: it marks some of them as skipped.
use octeam.Prelude.{
  ℕ, zero, suc, String, ◌-◌, ◌≡◌, refl, ap, ◌⊎◌, inl, inr, Option, some, List, [], ◌∷◌, arith,
  length, get_elem?, modify, Option-cases, get_or,
}
use octeam.Workflow.Types.{Step, JoinMetadata, FanoutMetadata, StepKind, join}
use octeam.Workflow.JoinPolicy.Ieee.{Fraction}
use octeam.Workflow.Dag.Joins.{
  mark_skipped, mark_range, skip_loser, skip_tail, skip_losers, branch_id?, losing_range, fanout_of,
  join_kind_satisfied, is_workflow_join_satisfied, is_join_metadata_satisfied,
}

module _ {F : Type 0} where
  -- The same steps, of which some are now marked as skipped.
  abbrev pub Skips : List (Step F) → List (Step F) → Type 0
  Skips [] [] = Unit
  Skips (a ∷ xs) (b ∷ ys) = ((b ≡ a) ⊎ (b ≡ mark_skipped a)) × Skips xs ys
  Skips _ _ = ⊥

  pub Skips-refl : (xs : List (Step F)) → Skips xs xs
  Skips-refl [] = tt
  Skips-refl (a ∷ xs) = (inl refl, Skips-refl xs)

  mark_skipped_idem : (a : Step F) → mark_skipped (mark_skipped a) ≡ mark_skipped a
  unfolding mark_skipped
  mark_skipped_idem a = refl

  pub Skips-trans : (xs ys zs : List (Step F)) → Skips xs ys → Skips ys zs → Skips xs zs
  Skips-trans [] [] [] p q = tt
  Skips-trans (a ∷ xs) (b ∷ ys) (c ∷ zs) p q =
      (ground (arith, mark_skipped_idem a), Skips-trans xs ys zs p.1 q.1)
  Skips-trans [] [] (c ∷ zs) p q = absurd q
  Skips-trans [] (b ∷ ys) zs p q = absurd p
  Skips-trans (a ∷ xs) [] zs p q = absurd p
  Skips-trans (a ∷ xs) (b ∷ ys) [] p q = absurd q

  pub length-Skips : (xs ys : List (Step F)) → Skips xs ys → length ys ≡ length xs
  length-Skips [] [] p = refl
  length-Skips (a ∷ xs) (b ∷ ys) p = ap suc (length-Skips xs ys p.1)
  length-Skips [] (b ∷ ys) p = absurd p
  length-Skips (a ∷ xs) [] p = absurd p

  pub get_elem?-Skips :
      (xs ys : List (Step F)) (i : ℕ) (a : Step F)
      → Skips xs ys
      → get_elem? xs i ≡ some a
      → (b : Step F) × (get_elem? ys i ≡ some b) × ((b ≡ a) ⊎ (b ≡ mark_skipped a))
  get_elem?-Skips [] ys i a p h = absurd (cc)
  get_elem?-Skips (x ∷ xs) [] i a p h = absurd p
  get_elem?-Skips (x ∷ xs) (b ∷ ys) zero a p h = (b, refl, ground arith)
  get_elem?-Skips (x ∷ xs) (b ∷ ys) (suc i) a p h = get_elem?-Skips xs ys i a p.1 h

  pub get_elem?-Skips_back :
      (xs ys : List (Step F)) (i : ℕ) (b : Step F)
      → Skips xs ys
      → get_elem? ys i ≡ some b
      → (a : Step F) × (get_elem? xs i ≡ some a) × ((b ≡ a) ⊎ (b ≡ mark_skipped a))
  get_elem?-Skips_back xs [] i b p h = absurd (cc)
  get_elem?-Skips_back [] (y ∷ ys) i b p h = absurd p
  get_elem?-Skips_back (x ∷ xs) (y ∷ ys) zero b p h = (x, refl, ground arith)
  get_elem?-Skips_back (x ∷ xs) (y ∷ ys) (suc i) b p h = get_elem?-Skips_back xs ys i b p.1 h

  Skips-modify : (xs : List (Step F)) (i : ℕ) → Skips xs (modify xs i mark_skipped)
  Skips-modify [] i = tt
  Skips-modify (a ∷ xs) zero = (inr refl, Skips-refl xs)
  Skips-modify (a ∷ xs) (suc i) = (inl refl, Skips-modify xs i)

  Skips-mark_range : (n r : ℕ) (xs : List (Step F)) → Skips xs (mark_range n r xs)
  unfolding mark_range
  Skips-mark_range zero r xs = Skips-refl xs
  Skips-mark_range (suc n) r xs =
      Skips-trans xs _ _ (Skips-modify xs r) (Skips-mark_range n (suc r) (modify xs r mark_skipped))

  Skips-skip_loser :
      (m : Option (FanoutMetadata F)) (t : ℕ) (tail : Step F) (xs : List (Step F))
      → Skips xs (skip_loser m t tail xs)
  unfolding skip_loser
  Skips-skip_loser m t tail xs = elim (Option-cases (losing_range m (branch_id? tail))) [
    | inl e ↦ rw (e, skip_loser) (Skips-modify xs t)
    | inr (r, e) ↦
        rw (e, skip_loser) (Skips-mark_range (suc r.end_index - r.start_index) r.start_index xs)
  ]

  pub Skips-skip_tail :
      (m : Option (FanoutMetadata F)) (errored : List String) (t : ℕ) (xs : List (Step F))
      → Skips xs (skip_tail m errored t xs)
  unfolding skip_tail
  Skips-skip_tail m errored t xs = elim (Option-cases (get_elem? xs t)) [
    | inl e ↦ rw (e, skip_tail) (Skips-refl xs)
    | inr (tail, e) ↦
        rw (e, skip_tail) (ground (arith, Skips-refl xs, Skips-skip_loser m t tail xs))
  ]

  pub Skips-skip_losers :
      (m : Option (FanoutMetadata F)) (errored : List String) (ts : List ℕ) (xs : List (Step F))
      → Skips xs (skip_losers m errored ts xs)
  unfolding skip_losers
  Skips-skip_losers m errored [] xs = Skips-refl xs
  Skips-skip_losers m errored (t ∷ ts) xs =
      Skips-trans xs _ _ (Skips-skip_tail m errored t xs)
        (Skips-skip_losers m errored ts (skip_tail m errored t xs))

module _ {F : Type 0} ⦃fr : Fraction F⦄ where
  Skips-is_join_metadata_satisfied :
      (xs : List (Step F)) (j : JoinMetadata F) → Skips xs (is_join_metadata_satisfied xs j).0
  unfolding is_join_metadata_satisfied
  Skips-is_join_metadata_satisfied xs j =
      let errored = get_or j.errored_branch_ids [] in
      let marker = fanout_of (get_elem? xs j.fanout_index) in
      ground (arith, Skips-refl xs, Skips-skip_losers marker errored j.branch_tail_indices xs)

  Skips-join_kind_satisfied :
      (xs : List (Step F)) (kind : StepKind F) → Skips xs (join_kind_satisfied xs kind).0
  unfolding join_kind_satisfied
  Skips-join_kind_satisfied xs (join (some j)) = Skips-is_join_metadata_satisfied xs j
  Skips-join_kind_satisfied xs _ = Skips-refl xs

  -- The join test leaves each step as it is or marks it as skipped.
  pub Skips-is_workflow_join_satisfied :
      (xs : List (Step F)) (step : Step F) → Skips xs (is_workflow_join_satisfied xs step).0
  unfolding is_workflow_join_satisfied
  Skips-is_workflow_join_satisfied xs step = Skips-join_kind_satisfied xs step.kind

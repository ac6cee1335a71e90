-- ===== src/Workflow/Dag/Joins/Settled.antt =====
-- Skipping the losing branches of dag.ts: which steps it marks, and that each branch tail ends up
-- errored or terminal.
use mathlib.Core.Bool.{false≢true}
use native.Mathlib.Decide.{ℕ_discrete}
use octeam.Prelude.{
  ℕ, zero, suc, ◌+◌, ◌-◌, ◌∙◌, ◌≤◌, ◌<◌, String, ◌≡◌, refl, ap, subst, true, inl, inr, ◌||◌, Option,
  some, List, [], ◌∷◌, arith, all, get_elem?, modify, get_elem?-modify_self, get_elem?-modify_ne,
  Bool-cases, Option-cases, nat_eq, nat_eq_iff, eq_nat,
}
use octeam.Prelude.Member.{includes}
use octeam.Workflow.Types.{Step, FanoutMetadata, BranchRange}
use octeam.Workflow.Dag.Joins.{
  branch_id?, is_errored, is_terminal_workflow_step, mark_skipped, mark_range, losing_range,
  skip_loser, skip_tail, skip_losers, success_found,
}
use octeam.Workflow.Dag.Joins.Resolved.{is_resolved_tail}
use octeam.Workflow.Dag.Joins.Skip.{
  Skips, get_elem?-Skips, get_elem?-Skips_back, Skips-skip_tail, Skips-skip_losers,
}

includes-first : (i : ℕ) (ts : List ℕ) → includes (i ∷ ts) i ≡ true
unfolding includes
includes-first i ts = ground (arith, (nat_eq_iff i i).1 refl)

includes-rest : (i : ℕ) (ts : List ℕ) (k : ℕ) → includes ts k ≡ true → includes (i ∷ ts) k ≡ true
unfolding includes
includes-rest i ts k h = ground (arith, h)

module _ {F : Type 0} where
  mark_range_below :
      (n r t : ℕ) (xs : List (Step F)) → t < r → get_elem? (mark_range n r xs) t ≡ get_elem? xs t
  unfolding mark_range
  mark_range_below zero r t xs below = refl
  mark_range_below (suc n) r t xs below =
      mark_range_below n (suc r) t (modify xs r mark_skipped) (omega arith)
      ∙ get_elem?-modify_ne xs mark_skipped (λ e. absurd (omega arith))

  mark_range_marks :
      (n r t : ℕ) (xs : List (Step F)) (a : Step F)
      → r ≤ t
      → t < r + n
      → get_elem? xs t ≡ some a
      → get_elem? (mark_range n r xs) t ≡ some (mark_skipped a)
  unfolding mark_range
  mark_range_marks zero r t xs a lo hi found = absurd (omega arith)
  mark_range_marks (suc n) r t xs a lo hi found = elim (ℕ_discrete r t) [
    | yes e ↦
        mark_range_below n (suc r) t (modify xs r mark_skipped) (omega arith)
        ∙ rw e (get_elem?-modify_self xs t mark_skipped a found)
    | no ne ↦
        mark_range_marks n (suc r) t (modify xs r mark_skipped) a (omega arith) (omega arith)
          (get_elem?-modify_ne xs mark_skipped ne ∙ found)
  ]

  -- The tail has errored or is terminal, or there is no such step.
  abbrev pub IsSettled : List String → List (Step F) → ℕ → Type 0
  IsSettled errored xs t =
      (b : Step F)
      → get_elem? xs t ≡ some b
      → (is_errored errored b || is_terminal_workflow_step b) ≡ true

  -- A tail with a known range lies in it.
  abbrev pub IsLinked : Option (FanoutMetadata F) → List (Step F) → ℕ → Type 0
  IsLinked m xs t =
      (b : Step F) (r : BranchRange)
      → get_elem? xs t ≡ some b
      → losing_range m (branch_id? b) ≡ some r
      → (r.start_index ≤ t) × (t ≤ r.end_index)

  mark_skipped_settles :
      (errored : List String) (a : Step F)
      → (is_errored errored (mark_skipped a) || is_terminal_workflow_step (mark_skipped a)) ≡ true
  unfolding is_terminal_workflow_step mark_skipped
  mark_skipped_settles errored a = ground arith

  errored-mark_skipped :
      (errored : List String) (a : Step F)
      → is_errored errored (mark_skipped a) ≡ is_errored errored a
  unfolding is_errored mark_skipped
  errored-mark_skipped errored a = refl

  branch_id?-mark_skipped : (a : Step F) → branch_id? (mark_skipped a) ≡ branch_id? a
  unfolding mark_skipped
  branch_id?-mark_skipped a = refl

  IsSettled-Skips :
      (errored : List String) (xs ys : List (Step F)) (t : ℕ)
      → Skips xs ys
      → IsSettled errored xs t
      → IsSettled errored ys t
  IsSettled-Skips errored xs ys t s h b found =
      let (a, old, how) = get_elem?-Skips_back xs ys t b s found in
      elim how [ inl e ↦ rw e (h a old) | inr e ↦ rw e (mark_skipped_settles errored a) ]

  IsLinked-Skips :
      (m : Option (FanoutMetadata F)) (xs ys : List (Step F)) (t : ℕ)
      → Skips xs ys
      → IsLinked m xs t
      → IsLinked m ys t
  IsLinked-Skips m xs ys t s h b r found range =
      let (a, old, how) = get_elem?-Skips_back xs ys t b s found in
      let same : branch_id? b ≡ branch_id? a = elim how [
        | inl e ↦ ap branch_id? e
        | inr e ↦ ap branch_id? e ∙ branch_id?-mark_skipped a
      ] in
      h a r old (rw (← same) range)

  skip_loser-IsSettled :
      (m : Option (FanoutMetadata F)) (errored : List String) (t : ℕ) (tail : Step F)
      (xs : List (Step F))
      → get_elem? xs t ≡ some tail
      → IsLinked m xs t
      → get_elem? (skip_loser m t tail xs) t ≡ some (mark_skipped tail)
  unfolding skip_loser
  skip_loser-IsSettled m errored t tail xs found linked =
      elim (Option-cases (losing_range m (branch_id? tail))) [
        | inl e ↦ rw (e, skip_loser) (get_elem?-modify_self xs t mark_skipped tail found)
        | inr (r, e) ↦
            let (lo, hi) = linked tail r found e in
            rw (e, skip_loser)
              (mark_range_marks (suc r.end_index - r.start_index) r.start_index t xs tail lo
                (omega arith) found)
      ]

  skip_tail-IsSettled :
      (m : Option (FanoutMetadata F)) (errored : List String) (t : ℕ) (xs : List (Step F))
      → IsLinked m xs t
      → IsSettled errored (skip_tail m errored t xs) t
  unfolding skip_tail
  skip_tail-IsSettled m errored t xs linked b found = elim (Option-cases (get_elem? xs t)) [
    | inl e ↦ ground (arith, e)
    | inr (tail, e) ↦ ground (
      arith,
      e,
      skip_loser-IsSettled m errored t tail xs e linked,
      mark_skipped_settles errored tail,
    )
  ]

  pub skip_losers-IsSettled :
      (m : Option (FanoutMetadata F)) (errored : List String) (ts : List ℕ) (xs : List (Step F))
      → ((t : ℕ) → includes ts t ≡ true → IsLinked m xs t)
      → (t : ℕ) → includes ts t ≡ true
      → IsSettled errored (skip_losers m errored ts xs) t
  unfolding skip_losers includes
  skip_losers-IsSettled m errored [] xs linked t h = absurd (false≢true h)
  skip_losers-IsSettled m errored (i ∷ ts) xs linked t h =
      let next = skip_tail m errored i xs in
      let skips = Skips-skip_tail m errored i xs in
      elim (Bool-cases (nat_eq i t)) [
        | inl e ↦
            IsSettled-Skips errored next (skip_losers m errored ts next) t
              (Skips-skip_losers m errored ts next)
              (subst (IsSettled errored next) ((nat_eq_iff i t).0 e)
                (skip_tail-IsSettled m errored i xs (linked i (includes-first i ts))))
        | inr ne ↦
            skip_losers-IsSettled m errored ts next
              (λ k h. IsLinked-Skips m xs next k skips (linked k (includes-rest i ts k h))) t
              (ground (arith, ne))
      ]

  pub all_resolved_IsSettled :
      (steps : List (Step F)) (errored : List String) (ts : List ℕ) (t : ℕ)
      → all (is_resolved_tail steps errored) ts ≡ true
      → includes ts t ≡ true
      → IsSettled errored steps t
  unfolding includes
  all_resolved_IsSettled steps errored [] t h k b found = absurd (false≢true k)
  all_resolved_IsSettled steps errored (i ∷ ts) t h k b found = elim (Bool-cases (nat_eq i t)) [
    | inl e ↦
        let same : get_elem? steps i ≡ some b = rw ((nat_eq_iff i t).0 e) found in
        ground (arith, same)
    | inr ne ↦
        all_resolved_IsSettled steps errored ts t (ground (arith, h)) (ground (arith, ne, k)) b
          found
  ]

  -- A settled tail is left alone.
  skip_tail_settled :
      (m : Option (FanoutMetadata F)) (errored : List String) (t : ℕ) (xs : List (Step F))
      → IsSettled errored xs t
      → skip_tail m errored t xs ≡ xs
  unfolding skip_tail
  skip_tail_settled m errored t xs h = elim (Option-cases (get_elem? xs t)) [
    | inl e ↦ ground (arith, e)
    | inr (tail, e) ↦ ground (arith, e, h tail e)
  ]

  pub skip_losers_settled :
      (m : Option (FanoutMetadata F)) (errored : List String) (ts : List ℕ) (xs : List (Step F))
      → ((t : ℕ) → includes ts t ≡ true → IsSettled errored xs t)
      → skip_losers m errored ts xs ≡ xs
  unfolding skip_losers includes
  skip_losers_settled m errored [] xs h = refl
  skip_losers_settled m errored (t ∷ ts) xs h =
      let here = skip_tail_settled m errored t xs (h t (ground (arith, nat_eq_iff t t))) in
      rw here (skip_losers_settled m errored ts xs (λ k e. h k (ground (arith, e))))

  pub success_found-Skips :
      (xs ys : List (Step F)) (errored : List String) (ts : List ℕ)
      → Skips xs ys
      → success_found xs errored ts ≡ some true
      → success_found ys errored ts ≡ some true
  unfolding success_found
  success_found-Skips xs ys errored [] s h = h
  success_found-Skips xs ys errored (t ∷ ts) s h = elim (Option-cases (get_elem? xs t)) [
    | inl e ↦ ground (arith, e)
    | inr (a, e) ↦
        let (b, found, how) = get_elem?-Skips xs ys t a s e in
        ground (
          arith,
          e,
          found,
          how,
          success_found-Skips xs ys errored ts s,
          errored-mark_skipped errored a,
          mark_skipped_settles errored a,
        )
  ]

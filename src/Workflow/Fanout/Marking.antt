-- ===== src/Workflow/Fanout/Marking.antt =====
-- What the parts of a branch error of fanout.ts do to the ids, the steps and the active indices.
use mathlib.Core.Option
use octeam.Prelude.{
  ℕ, zero, suc, ◌+◌, ◌≡◌, refl, String, true, not, ◌&&◌, ◌||◌, List, [], ◌∷◌, arith, nat_eq_iff,
  leb, ltb, get_elem?, modify, eq_string, eq_nat, eq_iff, ap, if◌then◌else◌, Option-cases, inl, inr,
}
use octeam.Prelude.Member.{
  includes, push_unique, IsUnique, push_unique-IsUnique, includes-push_unique,
}
use octeam.Prelude.Ranges.{get_elem?-modify}
use octeam.Workflow.Types.{BranchMetadata, Step}
use octeam.Workflow.Dag.Joins.{is_same_workflow_branch, mark_skipped}
use octeam.Workflow.Fanout.{
  distinct_from, without, skip_in_branch, skip_range, keep_outside, outside_branch, join_of,
  join_kind,
}

pub includes-distinct_from :
    (taken ids : List String) (b : String)
    → includes (distinct_from taken ids) b ≡ (includes taken b || includes ids b)
unfolding distinct_from includes
includes-distinct_from taken [] b = ground arith
includes-distinct_from taken (id ∷ ids) b =
    ground
      (arith, includes-distinct_from (push_unique taken id) ids b, includes-push_unique taken id b)

pub distinct_from-IsUnique :
    (taken ids : List String) → IsUnique taken → IsUnique (distinct_from taken ids)
unfolding distinct_from
distinct_from-IsUnique taken [] u = u
distinct_from-IsUnique taken (id ∷ ids) u =
    distinct_from-IsUnique (push_unique taken id) ids (push_unique-IsUnique taken id u)

pub includes-without :
    (excluded ids : List String) (b : String)
    → includes (without excluded ids) b ≡ (includes ids b && not (includes excluded b))
unfolding without includes
includes-without excluded [] b = refl
includes-without excluded (id ∷ ids) b =
    ground (arith, includes-without excluded ids b, eq_iff id b)

module _ {F : Type 0} where
  pub includes-keep_outside :
      (steps : List (Step F)) (branch : BranchMetadata) (is : List ℕ) (k : ℕ)
      → includes (keep_outside steps branch is) k ≡ (includes is k && outside_branch steps branch k)
  unfolding keep_outside includes
  includes-keep_outside steps branch [] k = refl
  includes-keep_outside steps branch (i ∷ is) k =
      ground (arith, includes-keep_outside steps branch is k, nat_eq_iff i k)

  pub get_elem?-skip_range :
      (branch : BranchMetadata) (n i k : ℕ) (xs : List (Step F))
      → get_elem? (skip_range branch n i xs) k ≡ (
          if leb i k && ltb k (i + n)
          then Option.map (skip_in_branch branch) (get_elem? xs k)
          else get_elem? xs k)
  unfolding skip_range
  get_elem?-skip_range branch zero i k xs = ground arith
  get_elem?-skip_range branch (suc n) i k xs = ground (
    arith,
    get_elem?-skip_range branch n (suc i) k (modify xs i (skip_in_branch branch)),
    get_elem?-modify xs i k (skip_in_branch branch),
  )

  pub skip_in_branch-kind :
      (branch : BranchMetadata) (step : Step F) → (skip_in_branch branch step).kind ≡ step.kind
  unfolding skip_in_branch mark_skipped
  skip_in_branch-kind branch step = ground arith

  pub skip_in_branch-branch :
      (branch : BranchMetadata) (step : Step F) → (skip_in_branch branch step).branch ≡ step.branch
  unfolding skip_in_branch mark_skipped
  skip_in_branch-branch branch step = ground arith

  pub skip_in_branch_completes :
      (branch : BranchMetadata) (step : Step F)
      → is_same_workflow_branch step branch ≡ true
      → (skip_in_branch branch step).completed ≡ true
  unfolding skip_in_branch mark_skipped
  skip_in_branch_completes branch step h = ground arith

  -- Skipping keeps the metadata of every join.
  pub join_of-skip_range :
      (branch : BranchMetadata) (n i k : ℕ) (xs : List (Step F))
      → join_of (get_elem? (skip_range branch n i xs) k) ≡ join_of (get_elem? xs k)
  join_of-skip_range branch n i k xs = elim (Option-cases (get_elem? xs k)) [
    | inl e ↦ ground (arith, e, get_elem?-skip_range branch n i k xs)
    | inr (step, e) ↦ ground (
      arith,
      e,
      get_elem?-skip_range branch n i k xs,
      ap join_kind (skip_in_branch-kind branch step),
    )
  ]

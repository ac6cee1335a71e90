-- ===== src/Workflow/JoinPolicy/FailFast.antt =====
-- The two predicates of join-policy.ts against each other: fail-fast gives up only on a join that
-- no outcome of the remaining branches can satisfy, and on a resolved fanout they are opposites.
use octeam.Prelude.{
  ℕ, ◌≤◌, ◌<◌, String, ◌≡◌, refl, true, false, not, Option, some, List, [], ◌∷◌, arith, length, all,
  any, get_or, eq_string, eq_iff,
}
use octeam.Prelude.Member.{includes}
use octeam.Workflow.Types.{JoinMetadata, JoinPolicy, quorum, required_branches}
use octeam.Workflow.JoinPolicy.{
  policy_satisfied, policy_impossible, join_policy_satisfied, join_policy_impossible,
}
use octeam.Workflow.JoinPolicy.Ieee.{Fraction, FractionLaws}

-- A required branch that has errored is no survivor.
required_lost :
    (required errored survivors : List String)
    → ((id : String) → includes errored id ≡ true → includes survivors id ≡ false)
    → any (λ id. includes errored id) required ≡ true
    → all (λ id. includes survivors id) required ≡ false
required_lost [] errored survivors apart h = ground arith
required_lost (id ∷ ids) errored survivors apart h =
    ground (arith, apart id, required_lost ids errored survivors apart)

-- Where each required branch either survives or has errored, none is lost if none has errored.
required_kept :
    (required errored survivors : List String)
    → ((id : String)
        → includes required id ≡ true
        → includes errored id ≡ not (includes survivors id))
    → all (λ id. includes survivors id) required ≡ not (any (λ id. includes errored id) required)
unfolding includes
required_kept [] errored survivors resolved = refl
required_kept (id ∷ ids) errored survivors resolved = ground (
  arith,
  resolved id (ground (arith, eq_iff id id)),
  required_kept ids errored survivors (λ x h. resolved x (ground (arith, h))),
)

module _ {F : Type 0} ⦃fr : Fraction F⦄ (laws : FractionLaws fr) where
  impossible_by_policy :
      (policy : Option JoinPolicy) (join : JoinMetadata F) (errored_ids : List String)
      (remaining total : ℕ) (survivor_ids : List String) (errors : ℕ)
      → total ≡ length join.branch_tail_indices
      → length survivor_ids ≤ remaining
      → length errored_ids ≤ errors
      → ((id : String) → includes errored_ids id ≡ true → includes survivor_ids id ≡ false)
      → policy_impossible policy join errored_ids remaining total ≡ true
      → policy_satisfied policy join survivor_ids errors ≡ false
  unfolding policy_satisfied policy_impossible
  impossible_by_policy (some quorum) join errored_ids remaining total survivor_ids errors t s e
        apart h =
      let threshold = get_or join.quorum fr.zero in
      ground (
        arith,
        laws.lt_excludes (fr.div remaining total) threshold h,
        laws.ge_mono (length survivor_ids) remaining total threshold s,
      )
  impossible_by_policy (some required_branches) join errored_ids remaining total survivor_ids errors
        t s e apart h =
      required_lost (get_or join.required_branch_ids []) errored_ids survivor_ids apart h
  impossible_by_policy _ join errored_ids remaining total survivor_ids errors t s e apart h =
      ground arith

  -- Once `joinPolicyImpossible` holds for the errors so far, no later outcome satisfies the join:
  -- for every list of survivors no longer than the branches that remain and free of the errored
  -- branches, and every number of errors at least that of the errored branches so far.
  pub join_policy_impossible_sound :
      (join : JoinMetadata F) (errored_ids : List String) (remaining total : ℕ)
      (survivor_ids : List String) (errors : ℕ)
      → total ≡ length join.branch_tail_indices
      → length survivor_ids ≤ remaining
      → length errored_ids ≤ errors
      → ((id : String) → includes errored_ids id ≡ true → includes survivor_ids id ≡ false)
      → join_policy_impossible join errored_ids remaining total ≡ true
      → join_policy_satisfied join survivor_ids errors ≡ false
  unfolding join_policy_satisfied join_policy_impossible
  join_policy_impossible_sound join errored_ids remaining total survivor_ids errors t s e apart h =
      ground (
        arith,
        impossible_by_policy join.join_policy join errored_ids remaining total survivor_ids errors t
            s e apart,
      )

  opposite_by_policy :
      (policy : Option JoinPolicy) (join : JoinMetadata F) (survivor_ids errored_ids : List String)
      → 0 < length join.branch_tail_indices
      → fr.ge (get_or join.quorum fr.zero) (get_or join.quorum fr.zero) ≡ true
      → ((id : String)
          → includes (get_or join.required_branch_ids []) id ≡ true
          → includes errored_ids id ≡ not (includes survivor_ids id))
      → policy_satisfied policy join survivor_ids (length errored_ids)
        ≡ not (
            policy_impossible policy join errored_ids
              (length survivor_ids)
              (length join.branch_tail_indices))
  unfolding policy_satisfied policy_impossible
  opposite_by_policy (some quorum) join survivor_ids errored_ids some_branch number resolved =
      let threshold = get_or join.quorum fr.zero in
      let total = length join.branch_tail_indices in
      ground (
        arith,
        laws.lt_excludes (fr.div (length survivor_ids) total) threshold,
        laws.lt_complete (length survivor_ids) total threshold some_branch number,
      )
  opposite_by_policy (some required_branches) join survivor_ids errored_ids some_branch number
        resolved =
      required_kept (get_or join.required_branch_ids []) errored_ids survivor_ids resolved
  opposite_by_policy _ join survivor_ids errored_ids some_branch number resolved = ground arith

  -- On a fanout with at least one branch, where each required branch has either survived or errored
  -- and the quorum is a number (no NaN), a join is satisfied by the survivors and the number of the
  -- errored branches exactly when it is not impossible, whatever its policy.
  pub satisfied-eq-not-impossible :
      (join : JoinMetadata F) (survivor_ids errored_ids : List String)
      → 0 < length join.branch_tail_indices
      → fr.ge (get_or join.quorum fr.zero) (get_or join.quorum fr.zero) ≡ true
      → ((id : String)
          → includes (get_or join.required_branch_ids []) id ≡ true
          → includes errored_ids id ≡ not (includes survivor_ids id))
      → join_policy_satisfied join survivor_ids (length errored_ids)
        ≡ not (
            join_policy_impossible join errored_ids
              (length survivor_ids)
              (length join.branch_tail_indices))
  unfolding join_policy_satisfied join_policy_impossible
  satisfied-eq-not-impossible join survivor_ids errored_ids some_branch number resolved = ground (
    arith,
    opposite_by_policy join.join_policy join survivor_ids errored_ids some_branch number resolved,
  )

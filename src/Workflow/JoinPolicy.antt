-- ===== src/Workflow/JoinPolicy.antt =====
-- src/orchestration/workflow/join-policy.ts: when a fanout's join succeeds, and when it no longer
-- can. The fraction `survivors / total` is IEEE arithmetic of the runtime, a parameter.
pub mod Ieee
pub mod FailFast
use octeam.Prelude.{
  ℕ, String, Bool, true, false, ◌&&◌, ◌||◌, Option, none, some, List, ltb, leb, nat_eq, get_or,
  length, all, any, eq_string,
}
use octeam.Prelude.Member.{includes}
use octeam.Workflow.Types.{
  JoinMetadata, JoinPolicy, tolerance, every, quorum, any_success, required_branches, reduce,
  select,
}
use Ieee.{Fraction}

-- `flag === true` on an optional field
abbrev pub is_true : Option Bool → Bool
is_true none = false
is_true (some b) = b

module _ {F : Type 0} ⦃fr : Fraction F⦄ where
  -- The body of the `switch`; its `default` is unreachable for a policy of the type.
  policy_satisfied : Option JoinPolicy → JoinMetadata F → List String → ℕ → Bool
  unfolding includes
  policy_satisfied none join survivor_ids errors =
      ltb 0 (length survivor_ids) && leb errors (get_or join.max_errored 0)
  policy_satisfied (some tolerance) join survivor_ids errors =
      ltb 0 (length survivor_ids) && leb errors (get_or join.max_errored 0)
  policy_satisfied (some every) join survivor_ids errors = nat_eq errors 0
  policy_satisfied (some reduce) join survivor_ids errors = nat_eq errors 0
  policy_satisfied (some select) join survivor_ids errors = nat_eq errors 0
  policy_satisfied (some quorum) join survivor_ids errors =
      fr.ge (fr.div (length survivor_ids) (length join.branch_tail_indices))
        (get_or join.quorum fr.zero)
  policy_satisfied (some any_success) join survivor_ids errors = leb 1 (length survivor_ids)
  policy_satisfied (some required_branches) join survivor_ids errors =
      all (λ id. includes survivor_ids id) (get_or join.required_branch_ids List.[])

  unfoldable pub join_policy_satisfied : JoinMetadata F → List String → ℕ → Bool
  unfolding policy_satisfied
  join_policy_satisfied join survivor_ids errors = elim (is_true join.use_survivors) [
    | true ↦ leb 1 (length survivor_ids)
    | false ↦ policy_satisfied join.join_policy join survivor_ids errors
  ]

  policy_impossible : Option JoinPolicy → JoinMetadata F → List String → ℕ → ℕ → Bool
  unfolding includes
  policy_impossible none join errored_ids remaining total =
      nat_eq remaining 0 || ltb (get_or join.max_errored 0) (length errored_ids)
  policy_impossible (some tolerance) join errored_ids remaining total =
      nat_eq remaining 0 || ltb (get_or join.max_errored 0) (length errored_ids)
  policy_impossible (some every) join errored_ids remaining total = ltb 0 (length errored_ids)
  policy_impossible (some reduce) join errored_ids remaining total = ltb 0 (length errored_ids)
  policy_impossible (some select) join errored_ids remaining total = ltb 0 (length errored_ids)
  policy_impossible (some quorum) join errored_ids remaining total =
      fr.lt (fr.div remaining total) (get_or join.quorum fr.zero)
  policy_impossible (some any_success) join errored_ids remaining total = nat_eq remaining 0
  policy_impossible (some required_branches) join errored_ids remaining total =
      any (λ id. includes errored_ids id) (get_or join.required_branch_ids List.[])

  unfoldable pub join_policy_impossible : JoinMetadata F → List String → ℕ → ℕ → Bool
  unfolding policy_impossible
  join_policy_impossible join errored_ids remaining total = elim (is_true join.use_survivors) [
    | true ↦ nat_eq remaining 0
    | false ↦ policy_impossible join.join_policy join errored_ids remaining total
  ]

-- ===== src/Workflow/Invariants/GateChecks.antt =====
-- src/orchestration/workflow/invariants.ts: `checkGateStep`. Indices are natural numbers, so no goto
-- fails the test for an integer.
use octeam.Prelude.{
  ℕ, ◌+◌, Bool, true, false, not, ◌&&◌, ◌||◌, Option, none, some, List, [], ◌∷◌, ◌++◌, get_or,
  get_elem?, ltb, leb, nat_eq, str_eq, eq_string, eq_nat, is_some, if◌then◌else◌,
}
use octeam.Prelude.Member.{includes}
use octeam.Workflow.Types.{BranchMetadata, GateFields, LoopConfig, StepKind, task, join, Step}
use octeam.Workflow.Gates.Targets.{gate_target_indices}
use octeam.Workflow.Gates.Conditions.{is_dispatchable}
use octeam.Workflow.Engine.State.{default_max_jumps}
use octeam.Workflow.Invariants.{
  Violation, GotoField, pass_goto, fail_goto, invalid_goto, Counter, fail_tries, invalid_tries,
  malformed_tries, timeout_tries, jumps, loops, counter_exceeds, no_previous_target, both_verifiers,
  not_a_target, verifier_is_member, ensemble_has_member, goto_out_of_bounds, goto_to_self,
  goto_to_marker, goto_crosses_branch, goto_into_branch, report, is_index_in_bounds,
}

-- A count may exceed its cap by the one that is found to exceed it.
abbrev pub check_counter : ℕ → Counter → Option ℕ → ℕ → List Violation
check_counter index counter none cap = []
check_counter index counter (some value) cap =
    report (ltb (cap + 1) value) (counter_exceeds index counter value cap)

-- `step.branch` against the branch of the target
abbrev pub goto_leaves_scope : Option BranchMetadata → Option BranchMetadata → Bool
goto_leaves_scope none target = is_some target
goto_leaves_scope (some own) none = true
goto_leaves_scope (some own) (some branch) =
    not (nat_eq branch.fanout_index own.fanout_index) || not (str_eq branch.branch_id own.branch_id)

abbrev pub scope_violation : Option BranchMetadata → ℕ → GotoField → ℕ → Violation
scope_violation none = goto_into_branch
scope_violation (some own) = goto_crosses_branch

abbrev pub loop_cap : Option LoopConfig → ℕ
loop_cap none = 0
loop_cap (some loop) = loop.max_iterations

-- The explicit targets that are no targets of the gate.
unfoldable pub check_explicit : ℕ → List ℕ → List ℕ → List Violation
unfolding includes
check_explicit index targets [] = []
check_explicit index targets (t ∷ ts) =
    report (not (includes targets t)) (not_a_target index t) ++ check_explicit index targets ts

module _ {F : Type 0} where
  abbrev pub explicit_targets : GateFields F → Option (List ℕ)
  explicit_targets g = elim (get_or g.target_step_indices []) [
    | i ∷ is ↦ some (i ∷ is)
    | [] ↦ elim g.target_step_index [ none ↦ none | some i ↦ some (i ∷ []) ]
  ]

  -- A verifier does not verify its own output; a join has no member.
  unfoldable pub check_verifiers : ℕ → GateFields F → ℕ → StepKind F → List Violation
  unfolding includes
  check_verifiers index g t (task fields) =
      report (elim g.verifier [ none ↦ false | some name ↦ str_eq name fields.member ])
        (verifier_is_member index t)
      ++ report (elim g.verifiers [ none ↦ false | some names ↦ includes names fields.member ])
          (ensemble_has_member index t)
  check_verifiers index g t (join m) = []
  check_verifiers index g t _ = not_a_target index t ∷ []

  unfoldable pub check_target : List (Step F) → ℕ → GateFields F → ℕ → List Violation
  unfolding check_verifiers
  check_target steps index g t =
      if leb index t then not_a_target index t ∷ [] else elim (get_elem? steps t) [
        | none ↦ not_a_target index t ∷ []
        | some target ↦ check_verifiers index g t target.kind
      ]

  unfoldable pub check_targets : List (Step F) → ℕ → GateFields F → List ℕ → List Violation
  unfolding check_target
  check_targets steps index g [] = []
  check_targets steps index g (t ∷ ts) =
      check_target steps index g t ++ check_targets steps index g ts

  -- The jump of one of the three fields, from a gate with this branch.
  unfoldable pub check_goto :
      List (Step F) → ℕ → Option BranchMetadata → GotoField → Option ℕ → List Violation
  check_goto steps index own field none = []
  check_goto steps index own field (some t) =
      if not (is_index_in_bounds steps t)
      then goto_out_of_bounds index field t ∷ []
      else if nat_eq t index
      then goto_to_self index field t ∷ []
      else elim (get_elem? steps t) [
        | none ↦ []
        | some target ↦
            if is_dispatchable target.kind
            then report (goto_leaves_scope own target.branch) (scope_violation own index field t)
            else goto_to_marker index field t ∷ []
      ]

  abbrev pub check_counters : ℕ → Step F → GateFields F → List Violation
  check_counters index step g =
      check_counter index fail_tries g.attempts (get_or g.max_retries 0)
      ++ check_counter index invalid_tries g.invalid_attempts (get_or g.max_invalid_retries 0)
      ++ check_counter index malformed_tries g.malformed_attempts (get_or g.max_malformed_retries 0)
      ++ check_counter index timeout_tries step.timeout_attempts (get_or step.max_timeout_retries 0)
      ++ check_counter index jumps g.jump_count (get_or g.max_jumps default_max_jumps)
      ++ check_counter index loops g.loop_iterations (loop_cap g.loop)

  abbrev pub check_gotos : List (Step F) → ℕ → Step F → GateFields F → List Violation
  check_gotos steps index step g =
      check_goto steps index step.branch pass_goto g.on_pass_goto
      ++ check_goto steps index step.branch fail_goto g.on_fail_goto
      ++ check_goto steps index step.branch invalid_goto g.on_invalid_goto

  abbrev pub check_explicit_targets : ℕ → GateFields F → List ℕ → List Violation
  check_explicit_targets index g targets = elim (explicit_targets g) [
    | none ↦ elim targets [ [] ↦ no_previous_target index ∷ [] | t ∷ ts ↦ [] ]
    | some explicit ↦ check_explicit index targets explicit
  ]

  unfoldable pub check_gate_step : List (Step F) → ℕ → Step F → GateFields F → List Violation
  unfolding gate_target_indices check_explicit check_targets check_goto
  check_gate_step steps index step g =
      check_explicit_targets index g (gate_target_indices steps index)
      ++ check_targets steps index g (gate_target_indices steps index)
      ++ report (is_some g.verifier && is_some g.verifiers) (both_verifiers index)
      ++ check_gotos steps index step g
      ++ check_counters index step g

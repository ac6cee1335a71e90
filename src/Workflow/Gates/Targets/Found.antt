-- ===== src/Workflow/Gates/Targets/Found.antt =====
-- What gate-targets.ts finds.
use octeam.Prelude.{
  ℕ, zero, suc, ◌<◌, ◌≡◌, inl, inr, refl, Bool, true, false, ◌&&◌, Option, none, some, List, [],
  ◌∷◌, arith, get_elem?, nat_eq, nat_eq_iff, eq_nat, if◌then◌else◌, Bool-cases, Option-cases,
}
use octeam.Prelude.Member.{includes}
use octeam.Workflow.Types.{GateFields, StepKind, task, gate, fanout, join, Step}
use octeam.Workflow.Dag.Actors.Sorting.{includes-sorted}
use octeam.Workflow.Gates.Targets.{
  gate_at, gate_fields, can_gate_reference_task, preceding_from, preceding_task_index,
  keep_referenceable, single_target, target_indices_of, gate_target_indices,
}

rest_found :
    {b : Bool} (n : ℕ) {i : ℕ} {rest : Option ℕ}
    → b ≡ false
    → (if b then some n else rest) ≡ some i
    → rest ≡ some i
rest_found n missed h = ground (arith, missed, h)

module _ {F : Type 0} where
  gate_fields-kind :
      (kind : StepKind F) (g : GateFields F) → gate_fields kind ≡ some g → kind ≡ gate g
  gate_fields-kind (gate x) g h = ground (arith, h)
  gate_fields-kind (task x) g h = absurd (cc)
  gate_fields-kind (fanout x) g h = absurd (cc)
  gate_fields-kind (join x) g h = absurd (cc)

  pub gate_at-kind :
      (steps : List (Step F)) (index : ℕ) (step : Step F) (g : GateFields F)
      → gate_at steps index ≡ some (step, g)
      → (get_elem? steps index ≡ some step) × (step.kind ≡ gate g)
  gate_at-kind steps index step g h = elim (Option-cases (get_elem? steps index)) [
    | inl e ↦ absurd (ground (arith, e, h))
    | inr (old, e) ↦ elim (Option-cases (gate_fields old.kind)) [
      | inl f ↦ absurd (ground (arith, e, f, h))
      | inr (x, f) ↦
          (ground (arith, e, f, h), ground (arith, e, f, h, gate_fields-kind old.kind x f))
    ]
  ]

  includes-keep_referenceable :
      (steps : List (Step F)) (gi : ℕ) (is : List ℕ) (k : ℕ)
      → includes (keep_referenceable steps gi is) k
        ≡ (includes is k && can_gate_reference_task steps gi k)
  unfolding keep_referenceable includes
  includes-keep_referenceable steps gi [] k = refl
  includes-keep_referenceable steps gi (i ∷ is) k =
      ground (arith, includes-keep_referenceable steps gi is k, nat_eq_iff i k)

  preceding_from-some :
      (steps : List (Step F)) (gi n i : ℕ)
      → preceding_from steps gi n ≡ some i
      → (can_gate_reference_task steps gi i ≡ true)
        × (i < n)
        × ((k : ℕ) → i < k → k < n → can_gate_reference_task steps gi k ≡ false)
  unfolding preceding_from
  preceding_from-some steps gi zero i h = absurd (cc)
  preceding_from-some steps gi (suc n) i h =
      elim (Bool-cases (can_gate_reference_task steps gi n)) [
        | inl here ↦
            let same : n ≡ i = ground (arith, h, here) in
            (
              ground (arith, here, same),
              omega (arith, same),
              λ k low high. absurd (omega (arith, same, low, high)),
            )
        | inr missed ↦
            let (found, below, between) =
              preceding_from-some steps gi n i (rest_found n missed h) in
            (
              found,
              omega (arith, below),
              λ k low high. elim (Bool-cases (nat_eq n k)) [
                | inl same ↦ ground (arith, nat_eq_iff n k, same, missed)
                | inr other ↦ between k low (ground (arith, other, high))
              ],
            )
      ]

  preceding_from-none :
      (steps : List (Step F)) (gi n k : ℕ)
      → preceding_from steps gi n ≡ none
      → k < n
      → can_gate_reference_task steps gi k ≡ false
  unfolding preceding_from
  preceding_from-none steps gi zero k h lt = absurd (omega arith)
  preceding_from-none steps gi (suc n) k h lt =
      ground (arith, preceding_from-none steps gi n k, nat_eq_iff n k, h)

  single_target-can :
      (steps : List (Step F)) (gi : ℕ) (o : Option ℕ) (k : ℕ)
      → includes (single_target steps gi o) k ≡ true
      → can_gate_reference_task steps gi k ≡ true
  unfolding single_target preceding_task_index includes
  single_target-can steps gi (some i) k h = ground (arith, h, nat_eq_iff i k)
  single_target-can steps gi none k h = elim (Option-cases (preceding_from steps gi gi)) [
    | inl e ↦ absurd (ground (arith, e, h))
    | inr (i, e) ↦ ground (arith, e, h, nat_eq_iff i k, preceding_from-some steps gi gi i e)
  ]

  target_indices_of-can :
      (steps : List (Step F)) (gi : ℕ) (g : GateFields F) (o : Option (List ℕ)) (k : ℕ)
      → includes (target_indices_of steps gi g o) k ≡ true
      → can_gate_reference_task steps gi k ≡ true
  unfolding target_indices_of
  target_indices_of-can steps gi g none k h = single_target-can steps gi g.target_step_index k h
  target_indices_of-can steps gi g (some []) k h =
      single_target-can steps gi g.target_step_index k h
  target_indices_of-can steps gi g (some (i ∷ is)) k h =
      let kept = keep_referenceable steps gi (i ∷ is) in
      ground (arith, h, includes-sorted kept k, includes-keep_referenceable steps gi (i ∷ is) k)

  -- Every target of a gate is a step that the gate may reference. The nearest step that is looked
  -- for, if there is one, stands before the gate and may be referenced, and no step between them may;
  -- if there is none, no step before the gate may.
  pub gate_targets_sound :
      (steps : List (Step F)) (gate_index : ℕ)
      → ((k : ℕ)
          → includes (gate_target_indices steps gate_index) k ≡ true
          → can_gate_reference_task steps gate_index k ≡ true)
        × ((i : ℕ)
            → preceding_task_index steps gate_index ≡ some i
            → (can_gate_reference_task steps gate_index i ≡ true)
              × (i < gate_index)
              × ((k : ℕ)
                  → i < k
                  → k < gate_index
                  → can_gate_reference_task steps gate_index k ≡ false))
        × (preceding_task_index steps gate_index ≡ none
            → (k : ℕ) → k < gate_index
            → can_gate_reference_task steps gate_index k ≡ false)
  unfolding gate_target_indices preceding_task_index includes
  gate_targets_sound steps gate_index = (
    λ k h. elim (Option-cases (gate_at steps gate_index)) [
      | inl e ↦ absurd (ground (arith, e, h))
      | inr ((step, g), e) ↦
          target_indices_of-can steps gate_index g g.target_step_indices k (ground (arith, e, h))
    ],
    λ i h. preceding_from-some steps gate_index gate_index i h,
    λ h k lt. preceding_from-none steps gate_index gate_index k h lt,
  )

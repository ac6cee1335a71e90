-- ===== src/Workflow/Dag/Validate.antt =====
-- `validateWorkflowDag` of dag.ts: no fanout stands inside a branch of another one.
use native.Mathlib.Nat.{add-zero, zero-add}
use octeam.Prelude.{
  ℕ, zero, suc, ◌+◌, ◌≡◌, ◌≢◌, refl, subst, Bool, true, false, inl, inr, not, ◌&&◌, ◌||◌, some,
  List, [], ◌∷◌, arith, any, nat_eq, nat_eq_iff, get_elem?, if◌then◌else◌, Bool-cases,
}
use octeam.Workflow.Types.{StepKind, fanout, Step}
use octeam.Workflow.Ranges.{includes_workflow_index}

pub data WorkflowDagValidationResult : Type 0 where
  ok : WorkflowDagValidationResult
  recursive_fanout : ℕ → WorkflowDagValidationResult

module _ {F : Type 0} where
  abbrev pub is_fanout : StepKind F → Bool
  is_fanout (fanout m) = true
  is_fanout _ = false

  -- A branch range of the candidate includes the index.
  abbrev pub covers : StepKind F → ℕ → Bool
  covers (fanout (some m)) i = any (λ r. includes_workflow_index r i) m.branch_ranges
  covers _ i = false

  -- The candidates from index `k` on.
  inside_from : List (Step F) → ℕ → ℕ → Bool
  inside_from [] k i = false
  inside_from (c ∷ cs) k i = (not (nat_eq k i) && covers c.kind i) || inside_from cs (suc k) i

  unfoldable pub is_inside_another_fanout : List (Step F) → ℕ → Bool
  unfolding inside_from
  is_inside_another_fanout steps i = inside_from steps 0 i

  -- The loop, from index `i` on.
  validate_from : List (Step F) → List (Step F) → ℕ → WorkflowDagValidationResult
  unfolding is_inside_another_fanout
  validate_from steps [] i = ok
  validate_from steps (s ∷ rest) i =
      let next = validate_from steps rest (suc i) in
      if is_fanout s.kind && is_inside_another_fanout steps i then recursive_fanout i else next

  unfoldable pub validate_workflow_dag : List (Step F) → WorkflowDagValidationResult
  unfolding validate_from
  validate_workflow_dag steps = validate_from steps steps 0

  inside_from-covers_not :
      (cs : List (Step F)) (k i j : ℕ) (c : Step F)
      → inside_from cs k i ≡ false
      → get_elem? cs j ≡ some c
      → k + j ≢ i
      → covers c.kind i ≡ false
  unfolding inside_from
  inside_from-covers_not [] k i j c h found ne = absurd (cc)
  inside_from-covers_not (x ∷ cs) k i zero c h found ne = ground (arith, nat_eq_iff k i, h, found)
  inside_from-covers_not (x ∷ cs) k i (suc j) c h found ne =
      inside_from-covers_not cs (suc k) i j c (ground (arith, h)) found (λ e. ne (omega arith))

  validate_from-ok :
      (steps rest : List (Step F)) (i j : ℕ) (s : Step F)
      → validate_from steps rest i ≡ ok
      → get_elem? rest j ≡ some s
      → is_fanout s.kind ≡ true
      → is_inside_another_fanout steps (i + j) ≡ false
  unfolding validate_from
  validate_from-ok steps [] i j s h found kind = absurd (cc)
  validate_from-ok steps (x ∷ rest) i zero s h found kind =
      rw add-zero (ground (arith, h, found, kind))
  validate_from-ok steps (x ∷ rest) i (suc j) s h found kind =
      let e : suc i + j ≡ i + suc j = omega arith in
      subst (λ n. is_inside_another_fanout steps n ≡ false) e
        (validate_from-ok steps rest (suc i) j s (ground (arith, h)) found kind)

  validate_from-refused :
      (steps rest : List (Step F)) (i k : ℕ)
      → validate_from steps rest i ≡ recursive_fanout k
      → (j : ℕ) × (s : Step F) × (k ≡ i + j)
        × (get_elem? rest j ≡ some s)
        × (is_fanout s.kind ≡ true)
        × (is_inside_another_fanout steps k ≡ true)
  unfolding validate_from
  validate_from-refused steps [] i k h = absurd (cc)
  validate_from-refused steps (x ∷ rest) i k h =
      elim (Bool-cases (is_fanout x.kind && is_inside_another_fanout steps i)) [
        | inl here ↦
            let e : i ≡ k = ground (arith, h, here) in
            (
              0,
              x,
              omega arith,
              refl,
              ground (arith, here),
              subst (λ n. is_inside_another_fanout steps n ≡ true) e (ground (arith, here)),
            )
        | inr later ↦
            let (j, s, e, found, kind, inside) =
              validate_from-refused steps rest (suc i) k (ground (arith, h, later)) in
            (suc j, s, omega arith, found, kind, inside)
      ]

  inside_from-covers :
      (cs : List (Step F)) (k i : ℕ)
      → inside_from cs k i ≡ true
      → (j : ℕ) × (c : Step F) × (k + j ≢ i) × (get_elem? cs j ≡ some c) × (covers c.kind i ≡ true)
  unfolding inside_from
  inside_from-covers [] k i h = absurd (cc)
  inside_from-covers (x ∷ cs) k i h = elim (Bool-cases (not (nat_eq k i) && covers x.kind i)) [
    | inl here ↦ (0, x, ground (arith, nat_eq_iff k i, here), refl, ground (arith, here))
    | inr later ↦
        let (j, c, ne, found, covered) =
          inside_from-covers cs (suc k) i (ground (arith, h, later)) in
        (suc j, c, λ e. ne (omega arith), found, covered)
  ]

  -- The steps are accepted exactly when no fanout stands in a branch range of another fanout: if they
  -- are, no other step has a range around a fanout; if the fanout at `k` is reported, it is a fanout
  -- and another step has a range around it.
  validate_workflow_dag_lem :
      (steps : List (Step F))
      → (validate_workflow_dag steps ≡ ok
          → (i j : ℕ) (s c : Step F) → get_elem? steps i ≡ some s
          → is_fanout s.kind ≡ true
          → get_elem? steps j ≡ some c
          → j ≢ i
          → covers c.kind i ≡ false)
        × ((k : ℕ)
            → validate_workflow_dag steps ≡ recursive_fanout k
            → (s : Step F) × (j : ℕ) × (c : Step F) × (get_elem? steps k ≡ some s)
              × (is_fanout s.kind ≡ true)
              × (j ≢ k)
              × (get_elem? steps j ≡ some c)
              × (covers c.kind k ≡ true))
  unfolding validate_workflow_dag
  validate_workflow_dag_lem steps = (
    λ h i j s c found kind other ne.
        let outside : is_inside_another_fanout steps i ≡ false =
          rw zero-add at (validate_from-ok steps steps 0 i s h found kind) in
        inside_from-covers_not steps 0 i j c outside other (λ e. ne (omega arith)),
    λ k h.
        let (j, s, e, found, kind, inside) = validate_from-refused steps steps 0 k h in
        let (i, c, ne, other, covered) = inside_from-covers steps 0 k inside in
        let same : j ≡ k = omega (arith, e) in
        (
          s,
          i,
          c,
          subst (λ n. get_elem? steps n ≡ some s) same found,
          kind,
          λ p. ne (omega (arith, p)),
          other,
          covered,
        ),
  )

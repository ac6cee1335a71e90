-- ===== src/Workflow/Dag/Ready/Induction.antt =====
-- Induction over the walk of the ready set: what its moves keep, the walk keeps.
use octeam.Prelude.{
  ℕ, zero, suc, ◌≡◌, refl, Bool, true, false, inl, inr, Option, none, some, List, [], ◌∷◌,
  get_elem?, Bool-cases, Option-cases, eq_nat,
}
use octeam.Prelude.Member.{includes}
use octeam.Workflow.Types.{Step, StepKind, task, gate, fanout, join}
use octeam.Workflow.JoinPolicy.Ieee.{Fraction}
use octeam.Workflow.Dag.Ready.{
  Walk, visit_all, visit_kind, visit, visit_join, push_ready, collect, collect_active, branch_heads,
  successor,
}

module _ {F : Type 0} where
  -- The kinds that the walk puts into the ready set when they are not completed.
  abbrev pub is_actor_kind : StepKind F → Bool
  is_actor_kind (task t) = true
  is_actor_kind (gate g) = true
  is_actor_kind _ = false

  abbrev pub is_join_kind : StepKind F → Bool
  is_join_kind (join m) = true
  is_join_kind _ = false

module _ {F : Type 0} ⦃fr : Fraction F⦄ where
  -- The moves of the walk keep the predicate.
  pub record Keeps (P : Walk F → Type 0) : Type 0 where
    pub visited : (w : Walk F) (is : List ℕ) → P w → P (record w { visited = is })
    pub pushed :
        (w : Walk F) (i : ℕ) (step : Step F)
        → get_elem? w.steps i ≡ some step
        → step.completed ≡ false
        → is_actor_kind step.kind ≡ true
        → P w
        → P (push_ready i w)
    pub joined :
        (w : Walk F) (i : ℕ) (step : Step F)
        → get_elem? w.steps i ≡ some step
        → step.completed ≡ false
        → is_join_kind step.kind ≡ true
        → P w
        → P (visit_join i step w)

  module _ {P : Walk F → Type 0} (keeps : Keeps P) where
    -- What holds of the walk that a call returns, if it returns one.
    abbrev pub Holds : Option (Walk F) → Type 0
    Holds none = Unit
    Holds (some v) = P v

    visit_all-Holds :
        (go : ℕ → Walk F → Option (Walk F))
        → ((i : ℕ) (w : Walk F) → P w → Holds (go i w))
        → (is : List ℕ) (w : Walk F) → P w
        → Holds (visit_all go is w)
    unfolding visit_all
    visit_all-Holds go holds [] w p = p
    visit_all-Holds go holds (i ∷ is) w p = elim (Option-cases (go i w)) [
      | inl e ↦ rw (e, visit_all) tt
      | inr (v, e) ↦ rw (e, visit_all) (visit_all-Holds go holds is v (rw e at (holds i w p)))
    ]

    visit_kind-Holds :
        (go : ℕ → Walk F → Option (Walk F))
        → ((i : ℕ) (w : Walk F) → P w → Holds (go i w))
        → (i : ℕ) (step : Step F) (kind : StepKind F) (w : Walk F) → step.kind ≡ kind
        → get_elem? w.steps i ≡ some step
        → P w
        → Holds (visit_kind go i step kind w)
    unfolding visit_kind
    visit_kind-Holds go holds i step (fanout m) w k found p =
        visit_all-Holds go holds (branch_heads m) w p
    visit_kind-Holds go holds i step (task t) w k found p = elim (Bool-cases step.completed) [
      | inl done ↦ rw done (holds (successor w.steps i step) w p)
      | inr todo ↦ rw todo (keeps.pushed w i step found todo (rw k refl) p)
    ]
    visit_kind-Holds go holds i step (gate g) w k found p = elim (Bool-cases step.completed) [
      | inl done ↦ rw done (holds (successor w.steps i step) w p)
      | inr todo ↦ rw todo (keeps.pushed w i step found todo (rw k refl) p)
    ]
    visit_kind-Holds go holds i step (join m) w k found p = elim (Bool-cases step.completed) [
      | inl done ↦ rw done (holds (successor w.steps i step) w p)
      | inr todo ↦ rw todo (keeps.joined w i step found todo (rw k refl) p)
    ]

    visit-Holds :
        (go : ℕ → Walk F → Option (Walk F))
        → ((i : ℕ) (w : Walk F) → P w → Holds (go i w))
        → (i : ℕ) (w : Walk F) → P w
        → Holds (visit go i w)
    unfolding visit
    visit-Holds go holds i w p = elim (Bool-cases (includes w.visited i)) [
      | inl seen ↦ rw (seen, visit) p
      | inr new ↦ elim (Option-cases (get_elem? w.steps i)) [
        | inl missing ↦ rw (new, missing, visit) (keeps.visited w (i ∷ w.visited) p)
        | inr (step, found) ↦
            rw (new, found, visit)
              (visit_kind-Holds go holds i step step.kind (record w { visited = i ∷ w.visited })
                refl found (keeps.visited w (i ∷ w.visited) p))
      ]
    ]

    pub collect-Holds : (fuel i : ℕ) (w : Walk F) → P w → Holds (collect fuel i w)
    unfolding collect
    collect-Holds zero i w p = tt
    collect-Holds (suc fuel) i w p = visit-Holds (collect fuel) (collect-Holds fuel) i w p

    pub collect_active-Holds :
        (fuel : ℕ) (is : List ℕ) (w : Walk F) → P w → Holds (collect_active fuel is w)
    unfolding collect_active
    collect_active-Holds fuel [] w p = p
    collect_active-Holds fuel (i ∷ is) w p =
        let fresh : Walk F = record w { visited = [] } in
        elim (Option-cases (collect fuel i fresh)) [
          | inl e ↦ rw (e, collect_active) tt
          | inr (v, e) ↦
              rw (e, collect_active)
                (collect_active-Holds fuel is v
                  (rw e at (collect-Holds fuel i fresh (keeps.visited w [] p))))
        ]

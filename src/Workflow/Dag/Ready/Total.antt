-- ===== src/Workflow/Dag/Ready/Total.antt =====
-- The walk of the ready set ends: each call in depth visits an index of the array that was not
-- visited before, so one unit of fuel more than the array's length is enough.
use octeam.Prelude.{
  ℕ, zero, suc, ◌≤◌, ◌<◌, ◌≡◌, refl, false, Option, some, List, [], ◌∷◌, arith, length, get_elem?,
  get_elem?-lt, Bool-cases, Option-cases, eq_nat, nat_eq_iff, if◌then◌else◌,
}
use octeam.Prelude.Member.{includes}
use octeam.Workflow.Types.{Step, StepKind, task, gate, fanout, join, TaskView}
use octeam.Workflow.Dag.Ready.{collect_active, ready_workflow_step_indices}
use octeam.Workflow.JoinPolicy.Ieee.{Fraction}
use octeam.Workflow.Dag.Joins.{is_workflow_join_satisfied}
use octeam.Workflow.Dag.Joins.Skip.{length-Skips, Skips-is_workflow_join_satisfied}
use octeam.Prelude.{inl, inr, get_or}
use octeam.Workflow.Dag.Actors.{get_active_workflow_step_indices}
use octeam.Workflow.Dag.Ready.Induction.{Keeps, collect-Holds}
use octeam.Workflow.Dag.Ready.{
  Walk, visit_all, visit_kind, visit, visit_join, push_ready, collect, branch_heads, successor,
}

-- How many indices below `n` have not been visited.
unvisited : ℕ → List ℕ → ℕ
unvisited zero visited = 0
unvisited (suc n) visited =
    let rest = unvisited n visited in if includes visited n then rest else suc rest

unvisited-le : (n : ℕ) (visited : List ℕ) → unvisited n visited ≤ n
unfolding unvisited
unvisited-le zero visited = omega arith
unvisited-le (suc n) visited = ground (arith, unvisited-le n visited)

unvisited_mono : (n i : ℕ) (visited : List ℕ) → unvisited n (i ∷ visited) ≤ unvisited n visited
unfolding unvisited includes
unvisited_mono zero i visited = omega arith
unvisited_mono (suc n) i visited = ground (arith, unvisited_mono n i visited)

unvisited_drop :
    (n i : ℕ) (visited : List ℕ)
    → i < n
    → includes visited i ≡ false
    → unvisited n (i ∷ visited) < unvisited n visited
unfolding unvisited includes
unvisited_drop zero i visited h new = elim h [ ]
unvisited_drop (suc n) i visited h new =
    ground (arith, nat_eq_iff i n, unvisited_drop n i visited, unvisited_mono n i visited)

module _ {F : Type 0} where
  -- What is left to visit.
  left : Walk F → ℕ
  unfolding unvisited
  left w = unvisited (length w.steps) w.visited

  -- The call ends, and nothing is left to visit that was not left before.
  abbrev Ends : ℕ → Option (Walk F) → Type 0
  Ends n r = (v : Walk F) × (r ≡ some v) × (left v ≤ n)

  visit_all-Ends :
      (go : ℕ → Walk F → Option (Walk F)) (n : ℕ)
      → ((i : ℕ) (w : Walk F) → left w ≤ n → Ends (left w) (go i w))
      → (is : List ℕ) (w : Walk F) → left w ≤ n
      → Ends (left w) (visit_all go is w)
  unfolding visit_all
  visit_all-Ends go n ends [] w h = (w, refl, omega arith)
  visit_all-Ends go n ends (i ∷ is) w h =
      let (v, e, le) = ends i w h in
      let (u, e', le') = visit_all-Ends go n ends is v (omega arith) in
      (u, rw (e, visit_all) e', omega arith)

module _ {F : Type 0} ⦃fr : Fraction F⦄ where
  left-push_ready : (i : ℕ) (w : Walk F) → left (push_ready i w) ≡ left w
  unfolding left push_ready
  left-push_ready i w = refl

  left-visit_join : (i : ℕ) (step : Step F) (w : Walk F) → left (visit_join i step w) ≡ left w
  unfolding left visit_join
  left-visit_join i step w = ground (
    arith,
    length-Skips w.steps (is_workflow_join_satisfied w.steps step).0
        (Skips-is_workflow_join_satisfied w.steps step),
  )

  visit_kind-Ends :
      (go : ℕ → Walk F → Option (Walk F)) (n : ℕ)
      → ((i : ℕ) (w : Walk F) → left w ≤ n → Ends (left w) (go i w))
      → (i : ℕ) (step : Step F) (kind : StepKind F) (w : Walk F) → left w ≤ n
      → Ends (left w) (visit_kind go i step kind w)
  unfolding visit_kind
  visit_kind-Ends go n ends i step (fanout m) w h = visit_all-Ends go n ends (branch_heads m) w h
  visit_kind-Ends go n ends i step (task t) w h = elim (Bool-cases step.completed) [
    | inl done ↦ rw done (ends (successor w.steps i step) w h)
    | inr todo ↦ rw todo (push_ready i w, refl, omega (arith, left-push_ready i w))
  ]
  visit_kind-Ends go n ends i step (gate g) w h = elim (Bool-cases step.completed) [
    | inl done ↦ rw done (ends (successor w.steps i step) w h)
    | inr todo ↦ rw todo (push_ready i w, refl, omega (arith, left-push_ready i w))
  ]
  visit_kind-Ends go n ends i step (join m) w h = elim (Bool-cases step.completed) [
    | inl done ↦ rw done (ends (successor w.steps i step) w h)
    | inr todo ↦ rw todo (visit_join i step w, refl, omega (arith, left-visit_join i step w))
  ]

  -- The walk as it enters an index.
  abbrev enter : ℕ → Walk F → Walk F
  enter i w = record w { visited = i ∷ w.visited }

  left-enter : (i : ℕ) (w : Walk F) → left (enter i w) ≤ left w
  unfolding left
  left-enter i w = unvisited_mono (length w.steps) i w.visited

  left-enter_new :
      (i : ℕ) (w : Walk F) (step : Step F)
      → get_elem? w.steps i ≡ some step
      → includes w.visited i ≡ false
      → left (enter i w) < left w
  unfolding left
  left-enter_new i w step found new =
      unvisited_drop (length w.steps) i w.visited (get_elem?-lt w.steps i step found) new

  weaken : (m n : ℕ) (r : Option (Walk F)) → m ≤ n → Ends m r → Ends n r
  weaken m n r h (v, e, le) = (v, e, omega arith)

  visit-Ends :
      (go : ℕ → Walk F → Option (Walk F)) (fuel : ℕ)
      → ((i : ℕ) (w : Walk F) → left w < fuel → Ends (left w) (go i w))
      → (i : ℕ) (w : Walk F) → left w ≤ fuel
      → Ends (left w) (visit go i w)
  unfolding visit
  visit-Ends go fuel ends i w h = elim (Bool-cases (includes w.visited i)) [
    | inl seen ↦ rw (seen, visit) (w, refl, omega arith)
    | inr new ↦ elim (Option-cases (get_elem? w.steps i)) [
      | inl missing ↦ rw (new, missing, visit) (enter i w, refl, left-enter i w)
      | inr (step, found) ↦
          let drop = left-enter_new i w step found new in
          rw (new, found, visit)
            (weaken (left (enter i w)) (left w) _ (omega arith) (
              visit_kind-Ends go (left (enter i w)) (λ j v le. ends j v (omega arith)) i step
                step.kind (enter i w) (omega arith)))
    ]
  ]

  collect-Ends : (fuel i : ℕ) (w : Walk F) → left w < fuel → Ends (left w) (collect fuel i w)
  unfolding collect
  collect-Ends zero i w h = elim h [ ]
  collect-Ends (suc fuel) i w h =
      visit-Ends (collect fuel) fuel (collect-Ends fuel) i w (omega arith)

  left-lt : (w : Walk F) (n : ℕ) → length w.steps < n → left w < n
  unfolding left
  left-lt w n h = omega (arith, unvisited-le (length w.steps) w.visited)

  -- The steps keep their number on the walk.
  abbrev HasLength : ℕ → Walk F → Type 0
  HasLength n w = length w.steps ≡ n

  length_keeps : (n : ℕ) → Keeps (HasLength n)
  unfolding push_ready visit_join
  length_keeps n = record {
    visited = λ w is p. p;
    pushed = λ w i step found todo kind p. p;
    joined = λ w i step found todo kind p. ground (
      arith,
      length-Skips w.steps (is_workflow_join_satisfied w.steps step).0
          (Skips-is_workflow_join_satisfied w.steps step),
    );
  }

  collect_active-some :
      (fuel : ℕ) (is : List ℕ) (w : Walk F)
      → length w.steps < fuel
      → (v : Walk F) × (collect_active fuel is w ≡ some v)
  unfolding collect_active
  collect_active-some fuel [] w h = (w, refl)
  collect_active-some fuel (i ∷ is) w h =
      let fresh : Walk F = record w { visited = [] } in
      let (v, e, le) = collect-Ends fuel i fresh (left-lt fresh fuel h) in
      let same : length v.steps ≡ length w.steps =
        rw e at (collect-Holds (length_keeps (length w.steps)) fuel i fresh refl) in
      let (u, e') = collect_active-some fuel is v (omega arith) in (u, rw (e, collect_active) e')

  -- The fuel `steps.length + 1` is enough: the call returns for every state of the task, also where
  -- its branch metadata form a cycle.
  pub ready_workflow_step_indices_total :
      (t : TaskView F) → (r : List (Step F) × List ℕ) × (ready_workflow_step_indices t ≡ some r)
  unfolding ready_workflow_step_indices
  ready_workflow_step_indices_total t =
      let before = get_or t.steps [] in
      let start : Walk F = record { steps = before; ready = []; visited = [] } in
      let (v, e) =
        collect_active-some (suc (length before)) (get_active_workflow_step_indices t) start
          (omega arith) in
      ((v.steps, v.ready), rw (e, ready_workflow_step_indices) refl)

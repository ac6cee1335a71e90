-- ===== src/Workflow/Dag/Ready/Sound.antt =====
-- What the ready set holds: each index once, of a task, gate or join that is still to be done, or
-- that the same call has skipped.
use octeam.Prelude.{
  ℕ, suc, ◌≡◌, refl, sym, true, false, inl, inr, ◌⊎◌, ◌||◌, some, List, [], ◌∷◌, arith, get_elem?,
  length, Bool-cases, Option-cases, eq_nat, get_or, nat_eq_iff,
}
use mathlib.Core.Bool.{false≢true}
use octeam.Prelude.Member.{includes, push_unique, push_unique-IsUnique, includes-append, IsUnique}
use octeam.Workflow.Types.{Step, StepKind, task, gate, fanout, join, TaskView}
use octeam.Workflow.JoinPolicy.Ieee.{Fraction}
use octeam.Workflow.Dag.Joins.{mark_skipped, is_workflow_join_satisfied}
use octeam.Workflow.Dag.Joins.Skip.{
  Skips, Skips-refl, Skips-trans, get_elem?-Skips, Skips-is_workflow_join_satisfied,
}
use octeam.Workflow.Dag.Actors.{get_active_workflow_step_indices}
use octeam.Workflow.Dag.Ready.{
  Walk, visit_join, push_ready, collect_active, ready_workflow_step_indices,
}
use octeam.Workflow.Dag.Ready.Induction.{Keeps, is_actor_kind, is_join_kind, collect_active-Holds}

includes-push_unique :
    (xs : List ℕ) (i j : ℕ)
    → includes (push_unique xs i) j ≡ true
    → (i ≡ j) ⊎ (includes xs j ≡ true)
unfolding push_unique includes
includes-push_unique xs i j h = ground (arith, includes-append xs (i ∷ []) j, nat_eq_iff i j)

module _ {F : Type 0} where
  is_join-waits :
      (kind : StepKind F)
      → is_join_kind kind ≡ true
      → (is_actor_kind kind || is_join_kind kind) ≡ true
  is_join-waits (join m) h = refl
  is_join-waits (task t) h = refl
  is_join-waits (gate g) h = refl
  is_join-waits (fanout m) h = h

  -- The step at the index may stand in the ready set.
  pub record IsReady (steps : List (Step F)) (i : ℕ) : Type 0 where
    pub step : Step F
    pub found : get_elem? steps i ≡ some step
    pub waits : (is_actor_kind step.kind || is_join_kind step.kind) ≡ true
    pub undone : (step.completed ≡ false) ⊎ (step.skipped ≡ some true)

  pub record IsSound (before : List (Step F)) (w : Walk F) : Type 0 where
    pub skips : Skips before w.steps
    pub unique : IsUnique w.ready
    pub ready : (i : ℕ) → includes w.ready i ≡ true → IsReady w.steps i

  IsReady-Skips : (xs ys : List (Step F)) (i : ℕ) → Skips xs ys → IsReady xs i → IsReady ys i
  unfolding mark_skipped
  IsReady-Skips xs ys i s r =
      let (step, found, how) = get_elem?-Skips xs ys i r.step s r.found in
      record {
        step = step;
        found = found;
        waits = elim how [ inl e ↦ rw e r.waits | inr e ↦ rw e r.waits ];
        undone = elim how [ inl e ↦ rw e r.undone | inr e ↦ rw e (inr refl) ];
      }

module _ {F : Type 0} ⦃fr : Fraction F⦄ (before : List (Step F)) where
  pushed-IsSound :
      (w : Walk F) (i : ℕ) → IsReady w.steps i → IsSound before w → IsSound before (push_ready i w)
  unfolding push_ready
  pushed-IsSound w i r s = record {
    skips = s.skips;
    unique = push_unique-IsUnique w.ready i s.unique;
    ready = λ j h. elim (includes-push_unique w.ready i j h) [
      | inl e ↦ rw (sym e) r
      | inr old ↦ s.ready j old
    ];
  }

  joined-IsSound :
      (w : Walk F) (i : ℕ) (step : Step F)
      → get_elem? w.steps i ≡ some step
      → step.completed ≡ false
      → is_join_kind step.kind ≡ true
      → IsSound before w
      → IsSound before (visit_join i step w)
  unfolding visit_join
  joined-IsSound w i step found todo kind s =
      let after = (is_workflow_join_satisfied w.steps step).0 in
      let skipped : Skips w.steps after = Skips-is_workflow_join_satisfied w.steps step in
      let v : Walk F = record w { steps = after } in
      let kept : IsSound before v = record {
        skips = Skips-trans before w.steps after s.skips skipped;
        unique = s.unique;
        ready = λ j h. IsReady-Skips w.steps after j skipped (s.ready j h);
      } in
      let here : IsReady w.steps i = record {
        step = step;
        found = found;
        waits = is_join-waits step.kind kind;
        undone = inl todo;
      } in
      elim (Bool-cases (is_workflow_join_satisfied w.steps step).1) [
        | inl opens ↦
            rw (opens, visit_join)
              (pushed-IsSound v i (IsReady-Skips w.steps after i skipped here) kept)
        | inr shut ↦ rw (shut, visit_join) kept
      ]

  Keeps-IsSound : Keeps (IsSound before)
  unfolding push_ready
  Keeps-IsSound = record {
    visited = λ w is s. record { skips = s.skips; unique = s.unique; ready = s.ready };
    pushed = λ w i step found todo kind s.
        pushed-IsSound w i
          (record { step = step; found = found; waits = rw kind refl; undone = inl todo }) s;
    joined = joined-IsSound;
  }

module _ {F : Type 0} ⦃fr : Fraction F⦄ where
  IsSound-start :
      (steps : List (Step F)) → IsSound steps (record { steps = steps; ready = []; visited = [] })
  unfolding includes
  IsSound-start steps = record {
    skips = Skips-refl steps;
    unique = tt;
    ready = λ i h. absurd (false≢true h);
  }

  -- Whatever the state, if the call returns then: it leaves each step as it was or marks it as
  -- skipped; the indices that it returns are distinct; and each is that of a task, a gate or a join
  -- in the array that is not completed, or that is marked as skipped.
  pub ready_workflow_step_indices_sound :
      (t : TaskView F) (steps : List (Step F)) (ready : List ℕ)
      → ready_workflow_step_indices t ≡ some (steps, ready)
      → Skips (get_or t.steps []) steps
        × IsUnique ready
        × ((i : ℕ) → includes ready i ≡ true → IsReady steps i)
  unfolding ready_workflow_step_indices
  ready_workflow_step_indices_sound t steps ready h =
      let before = get_or t.steps [] in
      let start : Walk F = record { steps = before; ready = []; visited = [] } in
      let indices = get_active_workflow_step_indices t in
      let walk = collect_active (suc (length before)) indices start in
      elim (Option-cases walk) [
        | inl e ↦ absurd (ground (arith, e))
        | inr (w, e) ↦
            let sound : IsSound before w = rw e at (
              collect_active-Holds (Keeps-IsSound before) (suc (length before)) indices start
                (IsSound-start before)) in
            let same_steps : w.steps ≡ steps = ground (arith, e) in
            let same_ready : w.ready ≡ ready = ground (arith, e) in
            rw (← same_steps, ← same_ready) (sound.skips, sound.unique, sound.ready)
      ]

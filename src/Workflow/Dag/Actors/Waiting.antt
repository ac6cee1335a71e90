-- ===== src/Workflow/Dag/Actors/Waiting.antt =====
-- The step that waits for a member, and what an unavailable verifier changes.
use octeam.Prelude.{
  ℕ, String, ◌≡◌, ◌≢◌, refl, true, false, inl, inr, ◌||◌, Option, none, some, List, [], ◌∷◌, arith,
  get_elem?, get_or, str_eq, eq_iff, eq_string, eq_nat, nat_eq_iff, if◌then◌else◌, Option-cases,
  is_some,
}
use octeam.Prelude.Assoc.{lookup-insert}
use octeam.Prelude.Member.{includes, includes-append}
use octeam.Workflow.Types.{Step, GateFields, StepKind, task, gate, fanout, join, TaskView}
use octeam.Workflow.Dag.Actors.{
  ensemble, ensemble_result, is_name, waits_for, find_waiting, is_pending_verifier,
  find_active_workflow_step_index_for_member, get_active_workflow_step_indices, workflow_step_actor,
  pending_verifiers, singleton, step_actors, collect_actors, get_active_workflow_step_actors,
  unavailable, record_vote, record_unavailable_ensemble_verifier,
}

singleton-includes :
    (o : Option String) (name : String) → includes (singleton o) name ≡ is_name o name
unfolding includes
singleton-includes none name = refl
singleton-includes (some actor) name = ground arith

module _ {F : Type 0} where
  pending-includes :
      (g : GateFields F) (names : List String) (name : String)
      → includes (pending_verifiers g names) name ≡ is_pending_verifier g names name
  unfolding pending_verifiers is_pending_verifier
  pending-includes g [] name = refl
  pending-includes g (n ∷ names) name = ground (arith, pending-includes g names name, eq_iff n name)

  -- A member for whom a step waits is among its actors.
  waits_for-actor :
      (s : Option (Step F)) (name : String)
      → waits_for s name ≡ true
      → includes (step_actors s) name ≡ true
  unfolding waits_for step_actors
  waits_for-actor none name h = absurd (cc)
  waits_for-actor (some step) name h = elim (Option-cases (ensemble step.kind)) [
    | inl e ↦ ground (arith, e, singleton-includes (workflow_step_actor (some step)) name)
    | inr ((g, names), e) ↦ ground (arith, e, pending-includes g names name)
  ]

  collect_actors-includes :
      (steps : List (Step F)) (is : List ℕ) (i : ℕ) (name : String)
      → includes is i ≡ true
      → includes (step_actors (get_elem? steps i)) name ≡ true
      → includes (collect_actors steps is) name ≡ true
  unfolding collect_actors includes
  collect_actors-includes steps [] i name h k = absurd (cc)
  collect_actors-includes steps (j ∷ js) i name h k = ground (
    arith,
    includes-append (step_actors (get_elem? steps j)) (collect_actors steps js) name,
    nat_eq_iff j i,
    collect_actors-includes steps js i name,
  )

  find_waiting-some :
      (steps : List (Step F)) (name : String) (is : List ℕ) (i : ℕ)
      → find_waiting steps name is ≡ some i
      → (includes is i ≡ true) × (waits_for (get_elem? steps i) name ≡ true)
  unfolding find_waiting includes
  find_waiting-some steps name [] i h = absurd (cc)
  find_waiting-some steps name (j ∷ js) i h =
      ground (arith, nat_eq_iff j i, find_waiting-some steps name js i)

  find_waiting-none :
      (steps : List (Step F)) (name : String) (is : List ℕ) (i : ℕ)
      → find_waiting steps name is ≡ none
      → includes is i ≡ true
      → waits_for (get_elem? steps i) name ≡ false
  unfolding find_waiting includes
  find_waiting-none steps name [] i h k = absurd (cc)
  find_waiting-none steps name (j ∷ js) i h k =
      ground (arith, nat_eq_iff j i, find_waiting-none steps name js i)

  -- If a step index is found for a member, it is one of the active indices, the step there waits for
  -- the member, and the member is among the active actors. If none is found, no active step waits
  -- for the member.
  find_active-actors :
      (t : TaskView F) (name : String)
      → ((i : ℕ)
          → find_active_workflow_step_index_for_member t name ≡ some i
          → (includes (get_active_workflow_step_indices t) i ≡ true)
            × (waits_for (get_elem? (get_or t.steps []) i) name ≡ true)
            × (includes (get_active_workflow_step_actors t) name ≡ true))
        × (find_active_workflow_step_index_for_member t name ≡ none
            → (i : ℕ) → includes (get_active_workflow_step_indices t) i ≡ true
            → waits_for (get_elem? (get_or t.steps []) i) name ≡ false)
  unfolding find_active_workflow_step_index_for_member get_active_workflow_step_actors
  find_active-actors t name =
      let steps = get_or t.steps [] in
      let active = get_active_workflow_step_indices t in
      (
        λ i h.
            let (here, waits) = find_waiting-some steps name active i h in
            (
              here,
              waits,
              collect_actors-includes steps active i name here
                  (waits_for-actor (get_elem? steps i) name waits),
            ),
        λ h i k. find_waiting-none steps name active i h k,
      )

  result-record_vote :
      (g : GateFields F) (name other : String)
      → is_some (ensemble_result (record_vote g name) other)
        ≡ (str_eq name other || is_some (ensemble_result g other))
  unfolding record_vote
  result-record_vote g name other =
      ground (arith, lookup-insert name other unavailable (get_or g.ensemble_results []))

  pending-record_vote :
      (g : GateFields F) (names : List String) (name other : String)
      → is_pending_verifier (record_vote g name) names other
        ≡ (if str_eq name other then false else is_pending_verifier g names other)
  unfolding is_pending_verifier
  pending-record_vote g names name other = ground (arith, result-record_vote g name other)

  -- What the call leaves of a step, where it returns true: the vote of an ensemble gate's verifier.
  recorded :
      (step after : Step F) (name : String)
      → record_unavailable_ensemble_verifier (some step) name ≡ (some after, true)
      → (g : GateFields F) × (names : List String) × (ensemble step.kind ≡ some (g, names))
        × (is_pending_verifier g names name ≡ true)
        × (after ≡ record step { kind = gate (record_vote g name) })
  unfolding record_unavailable_ensemble_verifier
  recorded step after name h = elim (Option-cases (ensemble step.kind)) [
    | inl e ↦ absurd (ground (arith, e))
    | inr ((g, names), e) ↦ (g, names, e, ground (arith, e), ground (arith, e))
  ]

  ensemble-verifiers :
      (kind : StepKind F) (g : GateFields F) (names : List String)
      → ensemble kind ≡ some (g, names)
      → g.verifiers ≡ some names
  ensemble-verifiers (gate x) g names h = ground arith
  ensemble-verifiers (task x) g names h = absurd (cc)
  ensemble-verifiers (fanout x) g names h = absurd (cc)
  ensemble-verifiers (join x) g names h = absurd (cc)

  ensemble-record_vote :
      (kind : StepKind F) (g : GateFields F) (names : List String) (name : String)
      → ensemble kind ≡ some (g, names)
      → ensemble (gate (record_vote g name)) ≡ some (record_vote g name, names)
  unfolding record_vote
  ensemble-record_vote kind g names name h = ground (arith, ensemble-verifiers kind g names h)

  -- A call that returns false changes nothing.
  unrecorded :
      (s : Option (Step F)) (name : String)
      → (record_unavailable_ensemble_verifier s name).1 ≡ false
      → (record_unavailable_ensemble_verifier s name).0 ≡ s
  unfolding record_unavailable_ensemble_verifier
  unrecorded none name h = refl
  unrecorded (some step) name h = elim (Option-cases (ensemble step.kind)) [
    | inl e ↦ ground (arith, e)
    | inr ((g, names), e) ↦ ground (arith, e)
  ]

  -- When recording an unavailable verifier returns true, the step no longer waits for that verifier,
  -- it waits for every other member as before, and a second call returns false and changes nothing.
  record_unavailable_effect :
      (step after : Step F) (name : String)
      → record_unavailable_ensemble_verifier (some step) name ≡ (some after, true)
      → (waits_for (some after) name ≡ false)
        × ((other : String)
            → other ≢ name
            → waits_for (some after) other ≡ waits_for (some step) other)
        × (record_unavailable_ensemble_verifier (some after) name ≡ (some after, false))
  unfolding waits_for record_unavailable_ensemble_verifier
  record_unavailable_effect step after name h =
      let (g, names, e, pending, same) = recorded step after name h in
      let voted = ensemble-record_vote step.kind g names name e in
      (
        rw same (ground (arith, voted, pending-record_vote g names name name, eq_iff name name)),
        λ other ne.
            rw same
              (ground (arith, voted, e, pending-record_vote g names name other, eq_iff name other)),
        rw same (ground (arith, voted, pending-record_vote g names name name, eq_iff name name)),
      )

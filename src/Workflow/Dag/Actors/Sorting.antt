-- ===== src/Workflow/Dag/Actors/Sorting.antt =====
-- `sortedWorkflowIndices` sorts: the result ascends and has the same indices, as often.
use octeam.Prelude.{
  ℕ, suc, ◌≤◌, ◌≡◌, refl, List, [], ◌∷◌, ◌||◌, arith, nat_eq, eq_nat, if◌then◌else◌,
}
use octeam.Prelude.Member.{includes}
use octeam.Workflow.Dag.Actors.{insert_sorted, sorted_workflow_indices}

-- Every index is at least `i`.
abbrev pub AllFrom : ℕ → List ℕ → Type 0
AllFrom i [] = Unit
AllFrom i (j ∷ js) = (i ≤ j) × AllFrom i js

abbrev pub IsAscending : List ℕ → Type 0
IsAscending [] = Unit
IsAscending (i ∷ is) = AllFrom i is × IsAscending is

abbrev pub count : ℕ → List ℕ → ℕ
count k [] = 0
count k (i ∷ is) = let rest = count k is in if nat_eq i k then suc rest else rest

AllFrom-le : (i j : ℕ) (is : List ℕ) → i ≤ j → AllFrom j is → AllFrom i is
AllFrom-le i j [] h a = tt
AllFrom-le i j (k ∷ ks) h a = (omega arith, AllFrom-le i j ks h a.1)

AllFrom-insert_sorted :
    (k i : ℕ) (is : List ℕ) → k ≤ i → AllFrom k is → AllFrom k (insert_sorted i is)
unfolding insert_sorted
AllFrom-insert_sorted k i [] h a = (h, tt)
AllFrom-insert_sorted k i (j ∷ js) h a = ground (arith, AllFrom-insert_sorted k i js h a.1)

insert_sorted-IsAscending :
    (i : ℕ) (is : List ℕ) → IsAscending is → IsAscending (insert_sorted i is)
unfolding insert_sorted
insert_sorted-IsAscending i [] a = (tt, tt)
insert_sorted-IsAscending i (j ∷ js) a =
    ground
      (arith, insert_sorted-IsAscending i js a.1, AllFrom-insert_sorted j i js, AllFrom-le i j js)

count-insert_sorted : (k i : ℕ) (is : List ℕ) → count k (insert_sorted i is) ≡ count k (i ∷ is)
unfolding insert_sorted
count-insert_sorted k i [] = refl
count-insert_sorted k i (j ∷ js) = ground (arith, count-insert_sorted k i js)

sorted-IsAscending : (is : List ℕ) → IsAscending (sorted_workflow_indices is)
unfolding sorted_workflow_indices
sorted-IsAscending [] = tt
sorted-IsAscending (i ∷ is) =
    insert_sorted-IsAscending i (sorted_workflow_indices is) (sorted-IsAscending is)

count-sorted : (k : ℕ) (is : List ℕ) → count k (sorted_workflow_indices is) ≡ count k is
unfolding sorted_workflow_indices
count-sorted k [] = refl
count-sorted k (i ∷ is) =
    ground (arith, count-insert_sorted k i (sorted_workflow_indices is), count-sorted k is)

-- The sorted indices ascend, and each index stands in them as often as before.
sorted_workflow_indices_sorts :
    (is : List ℕ)
    → IsAscending (sorted_workflow_indices is)
      × ((k : ℕ) → count k (sorted_workflow_indices is) ≡ count k is)
sorted_workflow_indices_sorts is = (sorted-IsAscending is, λ k. count-sorted k is)

includes-insert_sorted :
    (i k : ℕ) (is : List ℕ) → includes (insert_sorted i is) k ≡ (nat_eq i k || includes is k)
unfolding insert_sorted includes
includes-insert_sorted i k [] = refl
includes-insert_sorted i k (j ∷ js) = ground (arith, includes-insert_sorted i k js)

pub includes-sorted :
    (is : List ℕ) (k : ℕ) → includes (sorted_workflow_indices is) k ≡ includes is k
unfolding sorted_workflow_indices includes
includes-sorted [] k = refl
includes-sorted (i ∷ is) k =
    ground (arith, includes-insert_sorted i k (sorted_workflow_indices is), includes-sorted is k)

-- ===== src/Workflow/Invariants/Active.antt =====
-- The check of the active indices of invariants.ts against a description of what it accepts.
use octeam.Prelude.{
  ℕ, zero, suc, ◌≤◌, ◌<◌, ◌≡◌, refl, Bool, true, false, inl, inr, Option, none, some, List, [], ◌∷◌,
  ◌++◌, ◌↔◌, arith, get_elem?, get_elem?-lt, length, ltb, eq_nat, if◌then◌else◌, Option-cases,
}
use octeam.Prelude.Member.{includes}
use octeam.Workflow.Types.{Step}
use octeam.Workflow.JoinPolicy.Ieee.{Fraction}
use octeam.Workflow.Invariants.{
  Violation, report, active_step_violation, check_active_step, check_active_from,
  check_active_step_indices,
}

pub append-empty {ℓ} : {A : Type ℓ} (xs ys : List A) → xs ++ ys ≡ [] → (xs ≡ []) × (ys ≡ [])
append-empty [] ys h = (refl, h)
append-empty (x ∷ xs) ys h = absurd (cc)

pub get_elem?-none {ℓ} : {A : Type ℓ} (xs : List A) (i : ℕ) → get_elem? xs i ≡ none → length xs ≤ i
get_elem?-none [] i h = omega arith
get_elem?-none (x ∷ xs) zero h = absurd (cc)
get_elem?-none (x ∷ xs) (suc i) h = omega (arith, get_elem?-none xs i h)

else_empty {ℓ} :
    {A : Type ℓ} {b : Bool} (xs : List A) {ys : List A}
    → b ≡ false
    → (if b then xs else ys) ≡ []
    → ys ≡ []
else_empty xs e h = ground (arith, e, h)

ordered : (index above : ℕ) (v : Violation) → report (ltb index above) v ≡ [] → above ≤ index
ordered index above v h = ground (arith, h)

sorted : (index above : ℕ) → above ≤ index → ltb index above ≡ false
sorted index above h = ground (arith, h)

fresh :
    (seen : List ℕ) (index above : ℕ)
    → above ≤ index
    → (includes seen index ≡ true → index < above)
    → includes seen index ≡ false
fresh seen index above order below = ground (arith, order, below)

still_below :
    (seen : List ℕ) (index above k : ℕ)
    → above ≤ index
    → (includes seen k ≡ true → k < above)
    → includes (index ∷ seen) k ≡ true
    → k < suc index
unfolding includes
still_below seen index above k order below m = ground (arith, order, below, m)

no_violations :
    {t b : Bool} (v : Violation) (xs : List Violation) {ys zs : List Violation}
    → t ≡ false
    → b ≡ false
    → ys ≡ []
    → zs ≡ []
    → report t v ++ (if b then xs else ys ++ zs) ≡ []
no_violations v xs t b y z = rw (t, b, y, z) refl

no_step {ℓ} : {A : Type ℓ} {o : Option A} {a : A} → o ≡ none → o ≡ some a → ⊥
no_step e h = ground (arith, e, h)

module _ {F : Type 0} ⦃fr : Fraction F⦄ where
  -- There is a step at the index, and it can advance.
  abbrev pub CanAdvance : List (Step F) → ℕ → Type 0
  CanAdvance steps index =
      (step : Step F) × (get_elem? steps index ≡ some step)
      × (active_step_violation steps index step ≡ none)

  -- The indices ascend strictly from a bound on, and their steps can advance.
  abbrev pub IsActiveFrom : List (Step F) → ℕ → List ℕ → Type 0
  IsActiveFrom steps above [] = Unit
  IsActiveFrom steps above (index ∷ indices) =
      (above ≤ index) × CanAdvance steps index × IsActiveFrom steps (suc index) indices

  check_active_step-CanAdvance :
      (steps : List (Step F)) (position index : ℕ)
      → (check_active_step steps position index ≡ []) ↔ CanAdvance steps index
  unfolding check_active_step
  check_active_step-CanAdvance steps position index = elim (Option-cases (get_elem? steps index)) [
    | inl e ↦ (
      λ h. absurd (ground (arith, e, h, get_elem?-none steps index e)),
      λ c. absurd (no_step e c.1),
    )
    | inr (step, e) ↦ (
      λ h. (step, e, ground (arith, e, h, get_elem?-lt steps index step e)),
      λ c. ground (arith, e, c.1, c.2, get_elem?-lt steps index step e),
    )
  ]

  check_active_from-IsActiveFrom :
      (steps : List (Step F)) (position above : ℕ) (seen indices : List ℕ)
      → ((k : ℕ) → includes seen k ≡ true → k < above)
      → (check_active_from steps position above seen indices ≡ [])
        ↔ IsActiveFrom steps above indices
  unfolding check_active_from includes
  check_active_from-IsActiveFrom steps position above seen [] below = (λ h. tt, λ a. refl)
  check_active_from-IsActiveFrom steps position above seen (index ∷ indices) below =
      let next = λ (order : above ≤ index).
        check_active_from-IsActiveFrom steps (suc position) (suc index) (index ∷ seen) indices
          (λ k m. still_below seen index above k order (below k) m) in
      (
        λ h.
            let (in_order, checked) = append-empty _ _ h in
            let order = ordered index above _ in_order in
            let (own, later) =
              append-empty _ _
                (else_empty _ (fresh seen index above order (below index)) checked) in
            (
              order,
              (check_active_step-CanAdvance steps position index).0 own,
              (next order).0 later,
            ),
        λ a.
            no_violations _ _ (sorted index above a.0) (fresh seen index above a.0 (below index))
              ((check_active_step-CanAdvance steps position index).1 a.1) ((next a.0).1 a.2),
      )

  -- The check of the active indices finds nothing exactly when the indices ascend strictly, and each
  -- is the index of a step that can advance.
  pub check_active-IsActiveFrom :
      (steps : List (Step F)) (indices : List ℕ)
      → (check_active_step_indices steps (some indices) ≡ []) ↔ IsActiveFrom steps 0 indices
  unfolding check_active_step_indices includes
  check_active-IsActiveFrom steps indices =
      check_active_from-IsActiveFrom steps 0 0 [] indices (λ k m. absurd (cc))

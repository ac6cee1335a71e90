-- ===== src/Prelude/Member.antt =====
-- Membership as the program tests it: `xs.includes(a)`, `new Set(xs).has(a)`, `xs.indexOf(a)`.
use Prim.Native.Nat.{ℕ, zero, suc}
use octeam.Prelude.Tests.{Eq, ◌===◌, if◌then◌else◌, Bool-cases}
use octeam.Prelude.Lists.{get_elem?}
use mathlib.Core.Path.{◌≡◌, refl}
use mathlib.Core.Logic.{inl, inr}
use mathlib.Core.Bool.{Bool, true, false, ◌||◌}
use mathlib.Core.Option
use mathlib.Core.Option.{Option, none, some}
use mathlib.Core.List.{List, [], ◌∷◌, ◌++◌}
use native.Mathlib.Omega.{arith}

module _ {ℓ} {A : Type ℓ} ⦃e : Eq A⦄ where
  unfoldable pub includes : List A → A → Bool
  includes [] a = false
  includes (x ∷ xs) a = x === a || includes xs a

  -- `none` stands for -1.
  unfoldable pub index_of : List A → A → Option ℕ
  index_of [] a = none
  index_of (x ∷ xs) a = if x === a then some 0 else Option.map suc (index_of xs a)

  -- `if (!xs.includes(a)) xs.push(a)`
  unfoldable pub push_unique : List A → A → List A
  push_unique xs a = if includes xs a then xs else xs ++ a ∷ []

  -- No element twice.
  abbrev pub IsUnique : List A → Type 0
  IsUnique [] = Unit
  IsUnique (x ∷ xs) = (includes xs x ≡ false) × IsUnique xs

  pub includes-append :
      (xs ys : List A) (a : A) → includes (xs ++ ys) a ≡ (includes xs a || includes ys a)
  unfolding includes
  includes-append [] ys a = refl
  includes-append (x ∷ xs) ys a = ground (arith, includes-append xs ys a)

  pub includes-get_elem? :
      (xs : List A) (i : ℕ) (a : A) → get_elem? xs i ≡ some a → includes xs a ≡ true
  unfolding includes
  includes-get_elem? [] i a h = ground arith
  includes-get_elem? (x ∷ xs) zero a h = ground (arith, e.same_iff x a)
  includes-get_elem? (x ∷ xs) (suc i) a h = ground (arith, includes-get_elem? xs i a h)

  IsUnique-snoc :
      (xs : List A) (a : A) → IsUnique xs → includes xs a ≡ false → IsUnique (xs ++ a ∷ [])
  unfolding includes
  IsUnique-snoc [] a u h = (refl, tt)
  IsUnique-snoc (x ∷ xs) a u h = (
    ground (arith, includes-append xs (a ∷ []) x, e.same_iff x a, e.same_iff a x),
    IsUnique-snoc xs a u.1 (ground arith),
  )

  pub push_unique-IsUnique : (xs : List A) (a : A) → IsUnique xs → IsUnique (push_unique xs a)
  unfolding push_unique
  push_unique-IsUnique xs a u = elim (Bool-cases (includes xs a)) [
    | inl old ↦ rw old u
    | inr new ↦ rw new (IsUnique-snoc xs a u new)
  ]

  pub includes_one : (x a : A) → includes (x ∷ []) a ≡ true → x ≡ a
  unfolding includes
  includes_one x a h = ground (arith, e.same_iff x a, h)

  pub includes-push_unique :
      (xs : List A) (a b : A) → includes (push_unique xs a) b ≡ (includes xs b || (a === b))
  unfolding push_unique includes
  includes-push_unique xs a b = ground (arith, includes-append xs (a ∷ []) b, e.same_iff a b)

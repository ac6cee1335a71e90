-- ===== src/Prelude/Ranges.antt =====
-- A loop that writes the elements of an array from an index on, one after the other.
use Prim.Native.Nat.{ℕ, zero, suc, ◌+◌}
use octeam.Prelude.Tests.{ltb, leb, nat_eq, if◌then◌else◌}
use octeam.Prelude.Lists.{get_elem?, modify}
use mathlib.Core.Path.{◌≡◌, refl}
use mathlib.Core.Bool.{◌&&◌}
use mathlib.Core.Option
use mathlib.Core.Option.{Option}
use mathlib.Core.List.{List, [], ◌∷◌}
use native.Mathlib.Omega.{arith}

module _ {ℓ} {A : Type ℓ} where
  -- `for (let k = i; k < i + n; k++) if (xs[k]) xs[k] = f(k, xs[k])`
  unfoldable pub modify_range : (ℕ → A → A) → ℕ → ℕ → List A → List A
  modify_range f zero i xs = xs
  modify_range f (suc n) i xs = modify_range f n (suc i) (modify xs i (f i))

  pub get_elem?-modify :
      (xs : List A) (i k : ℕ) (f : A → A)
      → get_elem? (modify xs i f) k
        ≡ (if nat_eq i k then Option.map f (get_elem? xs k) else get_elem? xs k)
  get_elem?-modify [] i k f = ground arith
  get_elem?-modify (x ∷ xs) zero zero f = refl
  get_elem?-modify (x ∷ xs) zero (suc k) f = ground arith
  get_elem?-modify (x ∷ xs) (suc i) zero f = ground arith
  get_elem?-modify (x ∷ xs) (suc i) (suc k) f = ground (arith, get_elem?-modify xs i k f)

  pub get_elem?-modify_range :
      (f : ℕ → A → A) (n i k : ℕ) (xs : List A)
      → get_elem? (modify_range f n i xs) k
        ≡ (if leb i k && ltb k (i + n) then Option.map (f k) (get_elem? xs k) else get_elem? xs k)
  unfolding modify_range
  get_elem?-modify_range f zero i k xs = ground arith
  get_elem?-modify_range f (suc n) i k xs = ground (
    arith,
    get_elem?-modify_range f n (suc i) k (modify xs i (f i)),
    get_elem?-modify xs i k (f i),
  )

-- ===== src/Workflow/JoinPolicy/Ieee.antt =====
-- The JavaScript numbers that a join policy divides and compares: the operations that the code
-- calls, and what IEEE-754 says of them. A division by a total that is not 0 is correctly rounded,
-- so it is monotone and no NaN; on numbers that are no NaN, `<` is the negation of `>=`.
use octeam.Prelude.{ℕ, ◌*◌, ◌≤◌, ◌<◌, ◌≡◌, Bool, true, false, ◌&&◌, arith, ltb, leb}

pub record Fraction (F : Type 0) : Type 0 where
  pub zero : F
  pub div : ℕ → ℕ → F
  pub ge : F → F → Bool
  pub lt : F → F → Bool

pub record FractionLaws {F : Type 0} (fr : Fraction F) : Type 0 where
  pub ge_mono :
      (m n total : ℕ) (t : F)
      → m ≤ n
      → fr.ge (fr.div m total) t ≡ true
      → fr.ge (fr.div n total) t ≡ true
  -- also where the threshold or a quotient by 0 is NaN: then both tests are false
  pub lt_excludes : (a t : F) → fr.lt a t ≡ true → fr.ge a t ≡ false
  -- for a threshold `t` that is a number
  pub lt_complete :
      (n total : ℕ) (t : F)
      → 0 < total
      → fr.ge t t ≡ true
      → fr.lt (fr.div n total) t ≡ false
      → fr.ge (fr.div n total) t ≡ true

-- Exact fractions, with a denominator 0 for NaN: an instance at which the code runs.
pub record Ratio : Type 0 where
  pub num : ℕ
  pub den : ℕ

instance abbrev pub ratio_fraction : Fraction Ratio
ratio_fraction = record {
  zero = record { num = 0; den = 1 };
  div = λ n d. record { num = n; den = d };
  ge = λ a b. ltb 0 a.den && ltb 0 b.den && leb (b.num * a.den) (a.num * b.den);
  lt = λ a b. ltb 0 a.den && ltb 0 b.den && ltb (a.num * b.den) (b.num * a.den);
}

pub ratio_laws : FractionLaws ratio_fraction
ratio_laws = record {
  ge_mono = λ m n total t h e. grind arith;
  lt_excludes = λ a t h. grind arith;
  lt_complete = λ n total t p q h. grind arith;
}

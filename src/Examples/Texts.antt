-- ===== src/Examples/Texts.antt =====
-- Texts in UTF-8, whose outputs have no tags.
use Prim.Native.Nat.{Ordering, compare}
use Prim.Native.Char.{Char, code, len_utf8}
use Prim.Native.String.len
use Prim.Native.String.slice
use Prim.Native.String.{[], ◌∷◌, len, slice, fits, ◌++◌ as ◌<>◌}
use text.Mathlib.Text.{is_char_boundary}
use text.Mathlib.TextPositions.{len-append, boundary-zero, len_utf8-pos}
use octeam.Prelude.{
  ℕ, zero, suc, ◌+◌, ◌-◌, ◌/◌, ◌≤◌, ◌≡◌, inl, inr, refl, String, Bool, true, false, not, ◌&&◌,
  Option, none, some, List, arith, ltb, leb→le, nat_eq, if◌then◌else◌, Bool-cases, Option-cases,
  ◌*◌,
}
use octeam.Workflow.Advance.Truncate.{Texts, truncate_output}
use octeam.Workflow.Advance.Truncate.Fits.{TextsLaws}

abbrev after_one : Option ℕ → Option ℕ
after_one none = none
after_one (some i) = some (suc i)

-- The index of the first character with a code.
abbrev first_index : ℕ → String → Option ℕ
first_index wanted [] = none
first_index wanted (c ∷ s) =
    let later = after_one (first_index wanted s) in if nat_eq (code c) wanted then some 0 else later

abbrev last_index : ℕ → String → Option ℕ
last_index wanted [] = none
last_index wanted (c ∷ s) = elim (last_index wanted s) [
  | some i ↦ some (suc i)
  | none ↦ if nat_eq (code c) wanted then some 0 else none
]

abbrev has_after : ℕ → String → ℕ → Bool
has_after wanted [] i = false
has_after wanted (c ∷ s) zero = elim (first_index wanted (c ∷ s)) [ none ↦ false | some k ↦ true ]
has_after wanted (c ∷ s) (suc i) = has_after wanted s i

abbrev decimal : ℕ → ℕ → String
decimal zero n = ""
decimal (suc k) n =
    let higher = decimal k (n / 10) in
    let digit = slice "0123456789" (n - 10 * (n / 10)) (n - 10 * (n / 10) + 1) in
    if ltb n 10 then digit else higher <> digit

abbrev pub utf8 : Texts
utf8 = record {
  bytes = len;
  continues = λ s i. ltb i (len s) && not (is_char_boundary s i);
  decode = slice;
  last_open = last_index 60;
  first_open = first_index 60;
  first_close = first_index 62;
  closes_after = has_after 62;
  tag_pairs = λ s. List.[];
  tag_after = λ s i. none;
  digits = decimal 15;
}

-- Of an answer that is not "greater" the character is kept.
abbrev is_kept : Ordering → Bool
is_kept o = elim o [ Ordering.gt ↦ false | _ ↦ true ]

len-fits :
    (o : Ordering) (c : Char) (rest : String) (limit : ℕ)
    → (is_kept o ≡ true → len (c ∷ rest) ≤ limit)
    → len (fits o c rest) ≤ limit
len-fits Ordering.lt c rest limit h = h refl
len-fits Ordering.eq c rest limit h = h refl
len-fits Ordering.gt c rest limit h = rw len.nil (omega arith)

len-slice : (s : String) (a b : ℕ) → len (slice s a b) ≤ b - a
len-slice [] a b = rw (slice.nil a b, len.nil) (omega arith)
len-slice (c ∷ s) zero b =
    let rest = slice s zero (b - len_utf8 c) in
    rw (slice.cons-zero c s b) (
      len-fits (compare (len_utf8 c) b) c rest (b - zero) (λ kept.
        let before = leb→le (len_utf8 c) b kept in
        let later = len-slice s zero (b - len_utf8 c) in
        let whole = len.cons c rest in omega arith))
len-slice (c ∷ s) (suc a) b =
    rw (slice.cons-suc c s a b)
      (let rest = len-slice s (suc a - len_utf8 c) (b - len_utf8 c) in omega arith)

len-decimal : (k n : ℕ) → len (decimal k n) ≤ k
len-decimal zero n = rw len.nil (omega arith)
len-decimal (suc k) n =
    let at = n - 10 * (n / 10) in
    let higher = len-decimal k (n / 10) in
    let one = len-slice "0123456789" at (at + 1) in
    let both = len-append (decimal k (n / 10)) (slice "0123456789" at (at + 1)) in
    elim (Bool-cases (ltb n 10)) [
      | inl small ↦ rw small (omega arith)
      | inr large ↦ rw large (omega arith)
    ]

last_index-within : (wanted : ℕ) (s : String) (i : ℕ) → last_index wanted s ≡ some i → i ≤ len s
last_index-within wanted [] i h = absurd (cc)
last_index-within wanted (c ∷ s) i h =
    let wide = len_utf8-pos c in
    let whole = len.cons c s in
    elim (Option-cases (last_index wanted s)) [
      | inl e ↦ let zero_at : i ≡ 0 = ground (arith, h, e) in omega (arith, whole)
      | inr (k, e) ↦
          let within = last_index-within wanted s k e in
          let same : suc k ≡ i = ground (arith, h, e) in omega (arith, whole, wide.1)
    ]

pub utf8_laws : TextsLaws utf8
utf8_laws = record {
  bytes_empty = len.nil;
  bytes_before = refl;
  bytes_behind = refl;
  bytes-append = λ s t. omega (arith, len-append s t);
  bytes-digits = λ n _. len-decimal 15 n;
  starts_at_zero = λ s. ground (arith, boundary-zero s);
  ends_outside = λ s i h. ground (arith, h);
  bytes-decode = λ s a b _ _. len-slice s a b;
  open_within = last_index-within 60;
}

-- Of 60 bytes, one at each end fits beside the marker.
middle_is_dropped :
    truncate_output utf8 "a2345678901234567890123456789012345678901234567890123456789z" 50
    ≡ "a\n...[truncated 58 middle bytes]...\nz"
unfolding truncate_output
middle_is_dropped = refl

-- A character that does not fit whole is left out.
no_half_character : truncate_output utf8 "ééé" 4 ≡ "…"
unfolding truncate_output
no_half_character = refl

-- ===== src/State/Untouched.antt =====
-- A caller that changed nothing leaves the disk as it is.
use octeam.Prelude.{
  ◌≡◌, refl, ap, ◌∙◌, String, Bool, true, not, Option, none, some, arith, str_eq, eq_iff,
  Option-cases, inl, inr, Bool-cases,
}
use octeam.State.Json.{
  Json, null, boolean, number, text, array, object, Items, no_item, item, Fields, no_field, field,
  json_equal_refl, count_items, find, keep_fields, HasUniqueKeys,
}
use octeam.State.Merge.{
  top_rule, is_removed, same_lengths, merge_objects, merge_items, merge_fields,
}

-- The value, if it is an object, has no key twice, and so has every object in the arrays of the value.
-- The fields of an object may hold anything.
unfoldable mutual
  pub IsWellFormed : Json → Type 0
  IsWellFormed (array xs) = AreWellFormed xs
  IsWellFormed (object fs) = HasUniqueKeys fs
  IsWellFormed _ = Unit

  pub AreWellFormed : Items → Type 0
  AreWellFormed no_item = Unit
  AreWellFormed (item x xs) = IsWellFormed x × AreWellFormed xs

top_rule-untouched : (d : Option Json) (a : Json) → top_rule d (some a) a ≡ d
top_rule-untouched d a = ground (arith, json_equal_refl a)

-- Every field from one on is a field of the whole.
fields-untouched :
    (ds bs cs result : Fields)
    → ((key : String) (v : Json) → find key cs ≡ some v → find key bs ≡ some v)
    → HasUniqueKeys cs
    → merge_fields ds bs cs result ≡ result
unfolding merge_fields find
fields-untouched ds bs no_field result whole unique = refl
fields-untouched ds bs (field k v cs) result whole unique =
    let here : find k bs ≡ some v = whole k v (ground (arith, eq_iff k k)) in
    let rest : (key : String) (w : Json) → find key cs ≡ some w → find key bs ≡ some w = λ key w h.
      elim (Bool-cases (str_eq k key)) [
        | inl own ↦
            let e : k ≡ key = (eq_iff k key).0 own in
            absurd (ground (arith, h, unique.0, ap (λ x. find x cs) e))
        | inr other ↦ whole key w (ground (arith, other, h))
      ] in
    let kept = json_equal_refl v in rw (here, kept) (fields-untouched ds bs cs result rest unique.1)

keep_all :
    (test : String → Bool) (fs : Fields) → ((k : String) → test k ≡ true) → keep_fields test fs ≡ fs
unfolding keep_fields
keep_all test no_field all = refl
keep_all test (field k v fs) all = ground (arith, all k, keep_all test fs all)

array-by_disk :
    (disk : Option Json) (bs : Items)
    → ((ds : Items)
        → merge_objects (some (array ds)) (some (array bs)) (array bs) ≡ some (array ds))
    → merge_objects disk (some (array bs)) (array bs) ≡ disk
unfolding merge_objects
array-by_disk none bs same_kind = top_rule-untouched none (array bs)
array-by_disk (some null) bs same_kind = top_rule-untouched (some null) (array bs)
array-by_disk (some (boolean x)) bs same_kind = top_rule-untouched (some (boolean x)) (array bs)
array-by_disk (some (number x)) bs same_kind = top_rule-untouched (some (number x)) (array bs)
array-by_disk (some (text x)) bs same_kind = top_rule-untouched (some (text x)) (array bs)
array-by_disk (some (array x)) bs same_kind = same_kind x
array-by_disk (some (object x)) bs same_kind = top_rule-untouched (some (object x)) (array bs)

object-by_disk :
    (disk : Option Json) (bs : Fields)
    → ((ds : Fields)
        → merge_objects (some (object ds)) (some (object bs)) (object bs) ≡ some (object ds))
    → merge_objects disk (some (object bs)) (object bs) ≡ disk
unfolding merge_objects
object-by_disk none bs same_kind = top_rule-untouched none (object bs)
object-by_disk (some null) bs same_kind = top_rule-untouched (some null) (object bs)
object-by_disk (some (boolean x)) bs same_kind = top_rule-untouched (some (boolean x)) (object bs)
object-by_disk (some (number x)) bs same_kind = top_rule-untouched (some (number x)) (object bs)
object-by_disk (some (text x)) bs same_kind = top_rule-untouched (some (text x)) (object bs)
object-by_disk (some (array x)) bs same_kind = top_rule-untouched (some (array x)) (object bs)
object-by_disk (some (object x)) bs same_kind = same_kind x

lengths_lem : (ds bs : Items) → same_lengths ds bs bs ≡ true → count_items ds ≡ count_items bs
lengths_lem ds bs h = ground (arith, h)

not_removed : (bs : Fields) (key : String) → not (is_removed bs bs key) ≡ true
not_removed bs key = elim (Option-cases (find key bs)) [
  | inl e ↦ ground (arith, e)
  | inr (v, e) ↦ ground (arith, e)
]

object-untouched :
    (ds bs : Fields)
    → HasUniqueKeys bs
    → merge_objects (some (object ds)) (some (object bs)) (object bs) ≡ some (object ds)
unfolding merge_objects
object-untouched ds bs unique =
    ap (λ fs. some (object fs))
      (ap (keep_fields (λ key. not (is_removed bs bs key)))
          (fields-untouched ds bs bs ds (λ key v h. h) unique)
        ∙ keep_all (λ key. not (is_removed bs bs key)) ds (not_removed bs))

array-untouched :
    (ds bs : Items)
    → (count_items ds ≡ count_items bs → merge_items ds bs bs ≡ ds)
    → merge_objects (some (array ds)) (some (array bs)) (array bs) ≡ some (array ds)
unfolding merge_objects
array-untouched ds bs by_items = elim (Bool-cases (same_lengths ds bs bs)) [
  | inl lengths ↦
      rw (merge_objects, lengths)
        (ap (λ xs. some (array xs)) (by_items (lengths_lem ds bs lengths)))
  | inr differ ↦ rw (merge_objects, differ) (top_rule-untouched (some (array ds)) (array bs))
]

mutual
  unfolding merge_objects IsWellFormed

  value-untouched :
      (disk : Option Json) (a : Json) → IsWellFormed a → merge_objects disk (some a) a ≡ disk
  value-untouched disk null well = top_rule-untouched disk null
  value-untouched disk (boolean b) well = top_rule-untouched disk (boolean b)
  value-untouched disk (number n) well = top_rule-untouched disk (number n)
  value-untouched disk (text t) well = top_rule-untouched disk (text t)
  value-untouched disk (array bs) well =
      array-by_disk disk bs (λ ds. array-untouched ds bs (items-untouched ds bs well))
  value-untouched disk (object bs) well = object-by_disk disk bs (λ ds. object-untouched ds bs well)

  items-untouched :
      (ds bs : Items)
      → AreWellFormed bs
      → count_items ds ≡ count_items bs
      → merge_items ds bs bs ≡ ds
  items-untouched no_item no_item well lengths = refl
  items-untouched no_item (item b bs) well lengths = refl
  items-untouched (item d ds) no_item well lengths = absurd (ground (arith, lengths))
  items-untouched (item d ds) (item b bs) well lengths =
      let first = value-untouched (some d) b well.0 in
      let rest = items-untouched ds bs well.1 (ground (arith, lengths)) in rw (first, rest) refl

-- A caller that changed nothing since it read the ancestor leaves any value on the disk as it is, where
-- the ancestor, if it is an object, has no key twice, and the same holds of the objects in its arrays.
merge_objects_untouched :
    (disk : Option Json) (a : Json) → IsWellFormed a → merge_objects disk (some a) a ≡ disk
merge_objects_untouched disk a well = value-untouched disk a well

-- ===== src/State/ByName.antt =====
-- The merge of the members of store.ts, name by name.
use octeam.Prelude.{
  ◌∙◌, not, false, ◌≡◌, refl, ap, String, ◌||◌, Option, none, some, List, [], ◌∷◌, map, arith,
  eq_string, str_eq, eq_iff, is_some, if◌then◌else◌, Option-cases, Bool-cases, inl, inr,
}
use octeam.Prelude.Member.{includes, push_unique, includes-push_unique}
use octeam.Prelude.Assoc.{lookup}
use octeam.State.Json.{Json, Fields, find, json_equal}
use octeam.State.Merge.{put_option}
use octeam.State.Fieldwise.{find-put_option}
use octeam.State.Members.{
  written_fields, apply_entries, unchanged, as_written, StoredMember, LiveMember, find_named,
  member_name, live_name, add_names, merge_member, merge_names, merge_members,
}

module _ {ℓ} {A : Type ℓ} (name_of : A → String) where
  find_named-name :
      (name : String) (xs : List A) (x : A) → find_named name_of name xs ≡ some x → name_of x ≡ name
  unfolding find_named
  find_named-name name [] x h = absurd (cc)
  find_named-name name (y ∷ ys) x h = elim (Bool-cases (str_eq (name_of y) name)) [
    | inl own ↦ ground (arith, h, own, (eq_iff (name_of y) name).0 own)
    | inr other ↦ find_named-name name ys x (ground (arith, h, other))
  ]

  includes-names :
      (name : String) (xs : List A)
      → includes (map name_of xs) name ≡ is_some (find_named name_of name xs)
  unfolding find_named includes
  includes-names name [] = refl
  includes-names name (x ∷ xs) = ground (arith, includes-names name xs)

-- The merged member has the name that its sources have.
merge_member-name :
    (name : String) (d a : Option StoredMember) (c : Option LiveMember) (m : StoredMember)
    → ((x : StoredMember) → d ≡ some x → x.name ≡ name)
    → ((x : LiveMember) → c ≡ some x → x.name ≡ name)
    → merge_member d a c ≡ some m
    → m.name ≡ name
unfolding merge_member
merge_member-name name d none none m of_d of_c h = of_d m h
merge_member-name name d (some a) none m of_d of_c h = absurd (cc)
merge_member-name name none none (some c) m of_d of_c h = ground (arith, h, of_c c refl)
merge_member-name name none (some a) (some c) m of_d of_c h = absurd (cc)
merge_member-name name (some d) none (some c) m of_d of_c h = ground (arith, h, of_c c refl)
merge_member-name name (some d) (some a) (some c) m of_d of_c h = ground (arith, h, of_d d refl)

module _ (disk ancestor : List StoredMember) (current : List LiveMember) where
  abbrev merged_at : String → Option StoredMember
  merged_at name =
      merge_member (find_named member_name name disk) (find_named member_name name ancestor)
        (find_named live_name name current)

  merged_at-name : (name : String) (m : StoredMember) → merged_at name ≡ some m → m.name ≡ name
  merged_at-name name m h =
      merge_member-name name (find_named member_name name disk)
        (find_named member_name name ancestor) (find_named live_name name current) m
        (find_named-name member_name name disk) (find_named-name live_name name current) h

  find-merge_names :
      (names : List String) (name : String)
      → find_named member_name name (merge_names disk ancestor current names)
        ≡ (if includes names name then merged_at name else none)
  unfolding find_named merge_names includes
  find-merge_names [] name = refl
  find-merge_names (n ∷ names) name = elim (Option-cases (merged_at n)) [
    | inl e ↦ elim (Bool-cases (str_eq n name)) [
      | inl own ↦
          let same_name : n ≡ name = (eq_iff n name).0 own in
          ground (arith, e, own, find-merge_names names name, ap merged_at same_name)
      | inr other ↦ ground (arith, e, other, find-merge_names names name)
    ]
    | inr (m, e) ↦ elim (Bool-cases (str_eq n name)) [
      | inl own ↦
          let same_name : n ≡ name = (eq_iff n name).0 own in
          ground (
            arith,
            e,
            own,
            merged_at-name n m e,
            eq_iff m.name name,
            same_name,
            ap merged_at same_name,
          )
      | inr other ↦ ground (
        arith,
        e,
        other,
        merged_at-name n m e,
        ap (λ x. str_eq x name) (merged_at-name n m e),
        find-merge_names names name,
      )
    ]
  ]

includes-add_names :
    (names new : List String) (name : String)
    → includes (add_names names new) name ≡ (includes names name || includes new name)
unfolding add_names includes
includes-add_names names [] name = ground arith
includes-add_names names (n ∷ new) name =
    ground
      (arith, includes-add_names (push_unique names n) new name, includes-push_unique names n name)

nobody : (a : Option StoredMember) → merge_member none a none ≡ none
unfolding merge_member
nobody none = refl
nobody (some a) = refl

-- The member that the merge has at a name.
by_name :
    (disk ancestor : List StoredMember) (current : List LiveMember) (name : String)
    → find_named member_name name (merge_members disk ancestor current)
      ≡ merge_member
          (find_named member_name name disk)
          (find_named member_name name ancestor)
          (find_named live_name name current)
unfolding merge_members includes
by_name disk ancestor current name =
    let disk_names = add_names [] (map member_name disk) in
    let found =
      find-merge_names disk ancestor current (add_names disk_names (map live_name current)) name in
    let listed = includes-add_names disk_names (map live_name current) name in
    let from_disk = includes-add_names [] (map member_name disk) name in
    let of_disk = includes-names member_name name disk in
    let of_current = includes-names live_name name current in
    elim (Option-cases (find_named member_name name disk)) [
      | inl d ↦ elim (Option-cases (find_named live_name name current)) [
        | inl c ↦ ground (
          arith,
          found,
          listed,
          from_disk,
          of_disk,
          of_current,
          d,
          c,
          nobody (find_named member_name name ancestor),
        )
        | inr (m, c) ↦ ground (arith, found, listed, from_disk, of_disk, of_current, d, c)
      ]
      | inr (m, d) ↦ ground (arith, found, listed, from_disk, of_disk, of_current, d)
    ]

-- No key twice.
abbrev pub HasUniqueEntries : List (String × Option Json) → Type 0
HasUniqueEntries [] = Unit
HasUniqueEntries ((key, value) ∷ entries) = (lookup key entries ≡ none) × HasUniqueEntries entries

-- The member, key by key.
abbrev pub Holds : String → (String → Option Json) → Option StoredMember → Type 0
Holds name value_at o =
    (m : StoredMember) × (o ≡ some m)
    × (m.name ≡ name)
    × ((key : String) → find key m.fields ≡ value_at key)

-- The caller's value; one that is `undefined` is not written.
abbrev pub value_of_caller : LiveMember → String → Option Json
value_of_caller c key = elim (lookup key c.entries) [ none ↦ none | some value ↦ value ]

-- The caller's value where it differs from the ancestor's, and else the disk's.
abbrev pub value_of_both : StoredMember → StoredMember → LiveMember → String → Option Json
value_of_both d a c key = elim (lookup key c.entries) [
  | none ↦ find key d.fields
  | some value ↦
      if elim value [
        | none ↦ not (is_some (find key a.fields))
        | some v ↦ elim (find key a.fields) [ none ↦ false | some old ↦ json_equal old v ]
      ]
      then find key d.fields
      else value
]

-- What the merge has, from the disk, the ancestor and the caller.
abbrev pub IsMerged :
    Option StoredMember → Option StoredMember → Option LiveMember → Option StoredMember → Type 0
IsMerged d none none o = o ≡ d
IsMerged d (some a) none o = o ≡ none
IsMerged none (some a) (some c) o = o ≡ none
IsMerged none none (some c) o = Holds c.name (value_of_caller c) o
IsMerged (some d) none (some c) o = Holds c.name (value_of_caller c) o
IsMerged (some d) (some a) (some c) o = Holds d.name (value_of_both d a c) o

find-written_fields :
    (entries : List (String × Option Json)) (key : String)
    → HasUniqueEntries entries
    → find key (written_fields entries)
      ≡ elim (lookup key entries) [ none ↦ none | some value ↦ value ]
unfolding find written_fields lookup
find-written_fields [] key unique = refl
find-written_fields ((k, none) ∷ entries) key unique = elim (Bool-cases (str_eq k key)) [
  | inl own ↦
      let e : k ≡ key = (eq_iff k key).0 own in
      ground (
        arith,
        own,
        find-written_fields entries key unique.1,
        unique.0,
        ap (λ x. lookup x entries) e,
      )
  | inr other ↦ ground (arith, other, find-written_fields entries key unique.1)
]
find-written_fields ((k, some v) ∷ entries) key unique =
    ground (arith, find-written_fields entries key unique.1)

find-apply_entries :
    (before : Fields) (entries : List (String × Option Json)) (result : Fields) (key : String)
    → HasUniqueEntries entries
    → find key (apply_entries before entries result) ≡ elim (lookup key entries) [
      | none ↦ find key result
      | some value ↦ if unchanged (find key before) value then find key result else value
    ]
unfolding apply_entries lookup
find-apply_entries before [] result key unique = refl
find-apply_entries before ((k, v) ∷ entries) result key unique =
    let next = if unchanged (find k before) v then result else put_option k v result in
    elim (Bool-cases (str_eq k key)) [
      | inl own ↦
          let e : k ≡ key = (eq_iff k key).0 own in
          ground (
            arith,
            own,
            unique.0,
            find-apply_entries before entries next key unique.1,
            find-put_option k key v result,
            ap (λ x. lookup x entries) e,
            ap (λ x. unchanged (find x before) v) e,
          )
      | inr other ↦ ground (
        arith,
        other,
        find-apply_entries before entries next key unique.1,
        find-put_option k key v result,
      )
    ]

changed_value :
    (o : Option (Option Json)) (before on_disk : Option Json)
    → (elim o [ none ↦ on_disk | some value ↦ if unchanged before value then on_disk else value ])
      ≡ elim o [
        | none ↦ on_disk
        | some value ↦
            if elim value [
              | none ↦ not (is_some before)
              | some v ↦ elim before [ none ↦ false | some old ↦ json_equal old v ]
            ]
            then on_disk
            else value
      ]
changed_value none before on_disk = refl
changed_value (some none) before on_disk = refl
changed_value (some (some v)) none on_disk = refl
changed_value (some (some v)) (some old) on_disk = refl

merged_value :
    (d a : StoredMember) (c : LiveMember) (key : String)
    → HasUniqueEntries c.entries
    → find key (apply_entries a.fields c.entries d.fields) ≡ value_of_both d a c key
merged_value d a c key unique =
    find-apply_entries a.fields c.entries d.fields key unique
    ∙ changed_value (lookup key c.entries) (find key a.fields) (find key d.fields)

merge_member-IsMerged :
    (d a : Option StoredMember) (c : Option LiveMember)
    → ((x : LiveMember) → c ≡ some x → HasUniqueEntries x.entries)
    → IsMerged d a c (merge_member d a c)
unfolding merge_member
merge_member-IsMerged d none none unique = refl
merge_member-IsMerged d (some a) none unique = refl
merge_member-IsMerged none (some a) (some c) unique = refl
merge_member-IsMerged none none (some c) unique =
    (as_written c, refl, refl, λ key. find-written_fields c.entries key (unique c refl))
merge_member-IsMerged (some d) none (some c) unique =
    (as_written c, refl, refl, λ key. find-written_fields c.entries key (unique c refl))
merge_member-IsMerged (some d) (some a) (some c) unique = (
  record { name = d.name; fields = apply_entries a.fields c.entries d.fields },
  refl,
  refl,
  λ key. merged_value d a c key (unique c refl),
)

-- Where no key of the caller's member with a name is there twice, the merge has at the name: the
-- disk's member where neither the ancestor nor the caller has one; none where the ancestor has one and
-- the caller or the disk has none; the caller's where the ancestor has none; and else the disk's, in
-- which each value of the caller that differs from the ancestor's is the caller's.
pub merge_members_by_name :
    (disk ancestor : List StoredMember) (current : List LiveMember) (name : String)
    → ((x : LiveMember) → find_named live_name name current ≡ some x → HasUniqueEntries x.entries)
    → IsMerged
        (find_named member_name name disk)
        (find_named member_name name ancestor)
        (find_named live_name name current)
        (find_named member_name name (merge_members disk ancestor current))
merge_members_by_name disk ancestor current name unique = rw (by_name disk ancestor current name) (
    merge_member-IsMerged (find_named member_name name disk) (find_named member_name name ancestor)
      (find_named live_name name current) unique)

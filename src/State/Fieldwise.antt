-- ===== src/State/Fieldwise.antt =====
-- The merge of objects of store.ts, key by key.
use octeam.Prelude.{
  ◌≡◌, inl, inr, refl, ap, ◌∙◌, String, not, ◌&&◌, Option, none, some, arith, str_eq, eq_iff,
  is_some, if◌then◌else◌, Bool-cases,
}
use octeam.State.Json.{
  Json, object, Fields, no_field, field, same_json, find, keep_fields, HasUniqueKeys, find-put,
  find-keep_fields,
}
use octeam.State.Merge.{put_option, is_removed, merge_objects, merge_fields}

-- What the merge has at a key, from what the disk, the ancestor and the caller have there: the disk's
-- value where the caller changed nothing, no value where the caller removed it, and else the merge
-- of the three values.
abbrev pub three_way : Option Json → Option Json → Option Json → Option Json
three_way disk ancestor none = if is_some ancestor then none else disk
three_way disk ancestor (some c) =
    if same_json ancestor c then disk else merge_objects disk ancestor c

pub find-put_option :
    (key other : String) (value : Option Json) (fs : Fields)
    → find other (put_option key value fs) ≡ (if str_eq key other then value else find other fs)
find-put_option key other none fs =
    ground (
      arith,
      find-keep_fields (λ k. not (str_eq k key)) other fs,
      eq_iff key other,
      eq_iff other key,
    )
find-put_option key other (some value) fs = find-put key other value fs

-- The keys of the caller from one on.
abbrev at_key : Fields → Fields → Fields → Fields → String → Option Json
at_key ds bs cs result key = elim (find key cs) [
  | none ↦ find key result
  | some c ↦
      if same_json (find key bs) c
      then find key result
      else merge_objects (find key ds) (find key bs) c
]

find-merge_fields :
    (ds bs cs result : Fields) (key : String)
    → HasUniqueKeys cs
    → find key (merge_fields ds bs cs result) ≡ at_key ds bs cs result key
unfolding merge_fields find
find-merge_fields ds bs no_field result key unique = refl
find-merge_fields ds bs (field k v cs) result key unique =
    let merged = merge_objects (find k ds) (find k bs) v in
    let next = if same_json (find k bs) v then result else put_option k merged result in
    elim (Bool-cases (str_eq k key)) [
      | inl own ↦
          let e : k ≡ key = (eq_iff k key).0 own in
          ground (
            arith,
            own,
            e,
            unique.0,
            find-merge_fields ds bs cs next key unique.1,
            find-put_option k key merged result,
            ap (λ x. find x cs) e,
            ap (λ x. same_json (find x bs) v) e,
            ap (λ x. merge_objects (find x ds) (find x bs) v) e,
          )
      | inr other ↦ ground (
        arith,
        other,
        find-merge_fields ds bs cs next key unique.1,
        find-put_option k key merged result,
      )
    ]

kept_or_merged :
    (c a d : Option Json)
    → (if not (is_some a && not (is_some c))
        then elim c [ none ↦ d | some v ↦ if same_json a v then d else merge_objects d a v ]
        else none)
      ≡ three_way d a c
kept_or_merged none none d = refl
kept_or_merged none (some a) d = refl
kept_or_merged (some c) none d = refl
kept_or_merged (some c) (some a) d = refl

-- The merge of two objects with their common ancestor has at each key what the three-way merge of the
-- values there says, for a caller's object that has no key twice. So a key that the caller did not
-- touch keeps what another process wrote, and a key that the caller removed is gone.
pub merge_objects_fieldwise :
    (ds bs cs : Fields) (key : String)
    → HasUniqueKeys cs
    → (merged : Fields) × (merge_objects (some (object ds)) (some (object bs)) (object cs)
        ≡ some (object merged))
      × (find key merged ≡ three_way (find key ds) (find key bs) (find key cs))
unfolding merge_objects
merge_objects_fieldwise ds bs cs key unique = (
  keep_fields (λ k. not (is_removed bs cs k)) (merge_fields ds bs cs ds),
  refl,
  find-keep_fields (λ k. not (is_removed bs cs k)) key (merge_fields ds bs cs ds)
      ∙ ap (λ o. if not (is_removed bs cs key) then o else none)
          (find-merge_fields ds bs cs ds key unique)
      ∙ kept_or_merged (find key cs) (find key bs) (find key ds),
)

-- ===== src/State/Members.antt =====
-- src/state/store.ts: `mergeMembers`. A member is its name and its other fields. The caller's members
-- are live objects: a key of theirs may have the value `undefined`, which is no value. No two members
-- of a valid state have the same name, so a Map by name and a search find the same member.
use octeam.Prelude.{
  String, Bool, not, Option, none, some, List, [], ◌∷◌, map, eq_string, str_eq, is_some,
  if◌then◌else◌,
}
use octeam.Prelude.Member.{includes, push_unique}
use octeam.State.Json.{Json, Fields, no_field, field, json_equal, same_json, find, put, keep_fields}
use octeam.State.Merge.{put_option}

pub record StoredMember : Type 0 where
  pub name : String
  pub fields : Fields

pub record LiveMember : Type 0 where
  pub name : String
  pub entries : List (String × Option Json)

-- `items.find((item) => item.name === name)`
unfoldable pub find_named {ℓ} : {A : Type ℓ} → (A → String) → String → List A → Option A
find_named name_of name [] = none
find_named name_of name (x ∷ xs) =
    let later = find_named name_of name xs in if str_eq (name_of x) name then some x else later

abbrev pub member_name : StoredMember → String
member_name m = m.name

abbrev pub live_name : LiveMember → String
live_name m = m.name

-- The names of a list, each once, after those of another.
unfoldable pub add_names : List String → List String → List String
unfolding push_unique includes
add_names names [] = names
add_names names (n ∷ ns) = add_names (push_unique names n) ns

-- A live member as it is written: without the keys that are `undefined`.
unfoldable pub written_fields : List (String × Option Json) → Fields
written_fields [] = no_field
written_fields ((key, none) ∷ entries) = written_fields entries
written_fields ((key, some value) ∷ entries) = field key value (written_fields entries)

abbrev pub as_written : LiveMember → StoredMember
unfolding written_fields
as_written m = record { name = m.name; fields = written_fields m.entries }

-- `jsonEqual(current[key], ancestor[key])`
abbrev pub unchanged : Option Json → Option Json → Bool
unchanged ancestor none = not (is_some ancestor)
unchanged ancestor (some value) = same_json ancestor value

-- The entries of the caller that differ from the ancestor's, written to the disk's.
unfoldable pub apply_entries : Fields → List (String × Option Json) → Fields → Fields
unfolding json_equal find put keep_fields
apply_entries before [] result = result
apply_entries before ((key, value) ∷ entries) result =
    apply_entries before entries
      (if unchanged (find key before) value then result else put_option key value result)

-- The member with a name in the result, where there is one.
unfoldable pub merge_member :
    Option StoredMember → Option StoredMember → Option LiveMember → Option StoredMember
unfolding apply_entries written_fields
merge_member disk ancestor none = if is_some ancestor then none else disk
merge_member none ancestor (some c) = if is_some ancestor then none else some (as_written c)
merge_member (some d) none (some c) = some (as_written c)
merge_member (some d) (some a) (some c) =
    some (record { name = d.name; fields = apply_entries a.fields c.entries d.fields })

abbrev pub add_member : Option StoredMember → List StoredMember → List StoredMember
add_member none ms = ms
add_member (some m) ms = m ∷ ms

unfoldable pub merge_names :
    List StoredMember → List StoredMember → List LiveMember → List String → List StoredMember
unfolding find_named merge_member
merge_names disk ancestor current [] = []
merge_names disk ancestor current (name ∷ names) =
    add_member
      (merge_member (find_named member_name name disk) (find_named member_name name ancestor)
        (find_named live_name name current))
      (merge_names disk ancestor current names)

unfoldable pub merge_members :
    List StoredMember → List StoredMember → List LiveMember → List StoredMember
unfolding merge_names add_names
merge_members disk ancestor current =
    merge_names disk ancestor current
      (add_names (add_names [] (map member_name disk)) (map live_name current))

-- ===== src/State/Merge.antt =====
-- src/state/store.ts: `mergeObjects`, the merge of a value on disk with the value of a caller and their
-- common ancestor. A missing key is `none`.
use octeam.Prelude.{
  String, Bool, not, ◌&&◌, Option, none, some, get_or, nat_eq, str_eq, is_some, if◌then◌else◌,
}
use octeam.State.Json.{
  Json, null, boolean, number, text, array, object, Items, no_item, item, Fields, no_field, field,
  json_equal, same_json, count_items, find, put, keep_fields,
}

-- `jsonEqual(current, ancestor) ? disk : current`
abbrev pub top_rule : Option Json → Option Json → Json → Option Json
top_rule disk ancestor current = if same_json ancestor current then disk else some current

abbrev pub put_option : String → Option Json → Fields → Fields
put_option key none fs = keep_fields (λ k. not (str_eq k key)) fs
put_option key (some value) fs = put key value fs

abbrev pub same_lengths : Items → Items → Items → Bool
same_lengths ds bs cs =
    nat_eq (count_items ds) (count_items bs) && nat_eq (count_items ds) (count_items cs)

-- The keys of the disk that the caller removed.
abbrev pub is_removed : Fields → Fields → String → Bool
is_removed bs cs key = is_some (find key bs) && not (is_some (find key cs))

abbrev pub arrays : Option Json → Option Json → Option (Items × Items)
arrays (some (array ds)) (some (array bs)) = some (ds, bs)
arrays _ _ = none

abbrev pub objects : Option Json → Option Json → Option (Fields × Fields)
objects (some (object ds)) (some (object bs)) = some (ds, bs)
objects _ _ = none

unfoldable mutual
  unfolding json_equal count_items find put keep_fields

  pub merge_objects : Option Json → Option Json → Json → Option Json
  merge_objects disk ancestor (array cs) = elim (arrays disk ancestor) [
    | none ↦ top_rule disk ancestor (array cs)
    | some (ds, bs) ↦
        let merged = merge_items ds bs cs in
        if same_lengths ds bs cs then some (array merged) else top_rule disk ancestor (array cs)
  ]
  merge_objects disk ancestor (object cs) = elim (objects disk ancestor) [
    | none ↦ top_rule disk ancestor (object cs)
    | some (ds, bs) ↦
        some (object (keep_fields (λ key. not (is_removed bs cs key)) (merge_fields ds bs cs ds)))
  ]
  merge_objects disk ancestor null = top_rule disk ancestor null
  merge_objects disk ancestor (boolean c) = top_rule disk ancestor (boolean c)
  merge_objects disk ancestor (number c) = top_rule disk ancestor (number c)
  merge_objects disk ancestor (text c) = top_rule disk ancestor (text c)

  -- Index by index.
  pub merge_items : Items → Items → Items → Items
  merge_items (item d ds) (item a bs) (item c cs) =
      item (get_or (merge_objects (some d) (some a) c) c) (merge_items ds bs cs)
  merge_items _ _ _ = no_item

  -- The keys of the caller, merged into the result so far.
  pub merge_fields : Fields → Fields → Fields → Fields → Fields
  merge_fields ds bs no_field result = result
  merge_fields ds bs (field key value cs) result =
      let merged = merge_objects (find key ds) (find key bs) value in
      merge_fields ds bs cs
        (if same_json (find key bs) value then result else put_option key merged result)

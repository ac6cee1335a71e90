-- ===== src/Examples/Merges.antt =====
-- Merges of two processes' changes.
use octeam.Prelude.{arith, ◌≡◌, refl, some, [], ◌∷◌}
use octeam.Prelude.Assoc.{lookup}
use octeam.State.Json.{number, text, object, Fields, no_field, field, find}
use octeam.State.Merge.{merge_objects}
use octeam.State.Fieldwise.{three_way, merge_objects_fieldwise}
use octeam.State.Members.{
  StoredMember, LiveMember, find_named, member_name, live_name, merge_members,
}
use octeam.State.ByName.{HasUniqueEntries, IsMerged, merge_members_by_name}

-- Another process added a turn; the caller changed the status and removed the note.
abbrev task_before : Fields
task_before =
    field "status" (text "idle") (field "turns" (number "1") (field "note" (text "x") no_field))

abbrev task_on_disk : Fields
task_on_disk =
    field "status" (text "idle") (field "turns" (number "2") (field "note" (text "x") no_field))

abbrev task_of_caller : Fields
task_of_caller = field "status" (text "running") (field "turns" (number "1") no_field)

both_changes_survive :
    merge_objects (some (object task_on_disk)) (some (object task_before)) (object task_of_caller)
    ≡ some (object (field "status" (text "running") (field "turns" (number "2") no_field)))
unfolding merge_objects
both_changes_survive = refl

merge_objects_fieldwise_example :
    (merged : Fields) × (merge_objects
        (some (object task_on_disk))
        (some (object task_before))
        (object task_of_caller)
      ≡ some (object merged))
    × (find "turns" merged
        ≡ three_way
            (find "turns" task_on_disk)
            (find "turns" task_before)
            (find "turns" task_of_caller))
unfolding find
merge_objects_fieldwise_example =
    merge_objects_fieldwise task_on_disk task_before task_of_caller "turns" (refl, (refl, tt))

abbrev ann : StoredMember
ann = record { name = "ann"; fields = task_before }

abbrev bob : StoredMember
bob = record { name = "bob"; fields = task_before }

-- Another process added bob; the caller marks ann as running.
abbrev live_ann : LiveMember
live_ann = record { name = "ann"; entries = ("status", some (text "running")) ∷ [] }

unique_entries :
    (x : LiveMember)
    → find_named live_name "ann" (live_ann ∷ []) ≡ some x
    → HasUniqueEntries x.entries
unfolding find_named lookup
unique_entries x found = let same : live_ann ≡ x = ground (arith, found) in rw (← same) (refl, tt)

merge_members_by_name_example :
    IsMerged
      (some ann)
      (some ann)
      (some live_ann)
      (find_named member_name "ann" (merge_members (ann ∷ bob ∷ []) (ann ∷ []) (live_ann ∷ [])))
unfolding find_named
merge_members_by_name_example =
    merge_members_by_name (ann ∷ bob ∷ []) (ann ∷ []) (live_ann ∷ []) "ann" unique_entries

bob_is_kept :
    find_named member_name "bob" (merge_members (ann ∷ bob ∷ []) (ann ∷ []) (live_ann ∷ []))
    ≡ some bob
unfolding merge_members find_named
bob_is_kept = refl

-- ===== src/State/Team.antt =====
-- src/state/store.ts: `mergeTeamState`. A state is its members, its active task and its other fields;
-- the caller's is a live object. The number that a JSON number stands for, and its text, are the
-- runtime's.
pub mod Counters
use octeam.Prelude.{
  ℕ, ◌+◌, ◌-◌, ◌≡◌, String, Bool, false, not, ◌&&◌, ◌||◌, Option, none, some, List, [], ◌∷◌, get_or,
  ltb, str_eq, is_some, eq_string, if◌then◌else◌,
}
use octeam.State.Json.{
  Json, number, text, object, Fields, no_field, field, json_equal, same_json, find, put,
  keep_fields,
}
use octeam.State.Merge.{put_option, merge_objects}
use octeam.State.Members.{StoredMember, LiveMember, unchanged, merge_members}

pub record Numerals : Type 0 where
  pub value : String → ℕ
  pub digits : ℕ → String

-- A number that is written is read as itself.
pub record NumeralLaws (numerals : Numerals) : Type 0 where
  pub value-digits : (n : ℕ) → numerals.value (numerals.digits n) ≡ n

pub record StoredTeam : Type 0 where
  pub fields : Fields
  pub members : List StoredMember
  pub active_task : Option Json

pub record LiveTeam : Type 0 where
  pub entries : List (String × Option Json)
  pub members : List LiveMember
  pub active_task : Option Json

-- `jsonEqual(a, b)` where both sides may be `undefined`
abbrev pub same_option : Option Json → Option Json → Bool
same_option ancestor none = not (is_some ancestor)
same_option ancestor (some value) = same_json ancestor value

-- The caller cleared the fencing token, and another process has set it since.
unfoldable pub is_fenced_pid : Fields → Fields → String → Option Json → Bool
unfolding json_equal find
is_fenced_pid disk before key value =
    str_eq key "runnerPid"
    && not (is_some value)
    && is_some (find key disk)
    && not (same_option (find key before) (find key disk))

-- The entries of the caller that differ from the ancestor's, written to the disk's.
unfoldable pub merge_entries : Fields → Fields → List (String × Option Json) → Fields → Fields
unfolding json_equal find put keep_fields is_fenced_pid
merge_entries disk before [] result = result
merge_entries disk before ((key, value) ∷ entries) result = merge_entries disk before entries (
    if unchanged (find key before) value || is_fenced_pid disk before key value
    then result
    else put_option key value result)

abbrev pub fields_of : Json → Option Fields
fields_of (object fs) = some fs
fields_of _ = none

abbrev pub string_of : Json → Option String
string_of (text t) = some t
string_of _ = none

abbrev pub number_of : Json → Option String
number_of (number n) = some n
number_of _ = none

-- `task?.[key]`
unfoldable pub task_field : Option Json → String → Option Json
unfolding find
task_field none key = none
task_field (some t) key = elim (fields_of t) [ none ↦ none | some fs ↦ find key fs ]

unfoldable pub run_id_of : Option Json → Option String
unfolding task_field
run_id_of task = elim (task_field task "runId") [ none ↦ none | some id ↦ string_of id ]

abbrev pub same_name : Option String → String → Bool
same_name none id = false
same_name (some other) id = str_eq other id

-- The disk has a run that neither the caller nor the ancestor knows.
unfoldable pub is_new_run : Option Json → Option Json → Option Json → Bool
unfolding run_id_of
is_new_run disk ancestor current = elim (run_id_of disk) [
  | none ↦ false
  | some id ↦ not (same_name (run_id_of current) id) && not (same_name (run_id_of ancestor) id)
]

abbrev pub greater : ℕ → ℕ → ℕ
greater a b = if ltb a b then b else a

-- `mergeObjects` of the tasks, where the caller's may be `undefined`
abbrev pub merge_task : Option Json → Option Json → Option Json → Option Json
unfolding merge_objects
merge_task disk ancestor none = if is_some ancestor then none else disk
merge_task disk ancestor (some current) = merge_objects disk ancestor current

module _ (numerals : Numerals) where
  unfoldable pub count_of : Option Json → String → Option ℕ
  unfolding task_field
  count_of task key = elim (task_field task key) [
    | none ↦ none
    | some n ↦ elim (number_of n) [ none ↦ none | some digits ↦ some (numerals.value digits) ]
  ]

  abbrev pub written_number : ℕ → Json
  written_number n = number (numerals.digits n)

  -- The caller's change since the ancestor, on top of the disk's value; never below 0.
  unfoldable pub merge_messages_sent : Option Json → Option Json → Option Json → Fields → Fields
  unfolding count_of put
  merge_messages_sent disk ancestor current merged = elim (count_of disk "messagesSent") [
    | none ↦ merged
    | some d ↦ elim (count_of current "messagesSent") [
      | none ↦ merged
      | some c ↦
          put "messagesSent" (written_number (d + c - get_or (count_of ancestor "messagesSent") 0))
            merged
    ]
  ]

  unfoldable pub sum_values : Fields → ℕ
  sum_values no_field = 0
  sum_values (field key value fs) =
      elim (number_of value) [ none ↦ 0 | some digits ↦ numerals.value digits ] + sum_values fs

  unfoldable pub total_tokens : Fields → ℕ → ℕ → ℕ
  unfolding find sum_values
  total_tokens merged d c = elim (find "tokensByMember" merged) [
    | none ↦ greater d c
    | some counts ↦ elim (fields_of counts) [ none ↦ greater d c | some fs ↦ sum_values fs ]
  ]

  unfoldable pub merge_tokens_used : Option Json → Option Json → Fields → Fields
  unfolding count_of put total_tokens
  merge_tokens_used disk current merged = elim (count_of disk "tokensUsed") [
    | none ↦ merged
    | some d ↦ elim (count_of current "tokensUsed") [
      | none ↦ merged
      | some c ↦ put "tokensUsed" (written_number (total_tokens merged d c)) merged
    ]
  ]

  abbrev pub merge_counters : Option Json → Option Json → Option Json → Option Json → Option Json
  unfolding merge_messages_sent merge_tokens_used
  merge_counters disk ancestor current (some (object merged)) =
      if is_some current && is_some disk
      then some (
          object
            (merge_tokens_used disk current (merge_messages_sent disk ancestor current merged)))
      else some (object merged)
  merge_counters disk ancestor current merged = merged

  unfoldable pub merge_active_task : Option Json → Option Json → Option Json → Option Json
  unfolding is_new_run merge_task merge_counters
  merge_active_task disk ancestor current =
      if is_new_run disk ancestor current
      then disk
      else merge_counters disk ancestor current (merge_task disk ancestor current)

  unfoldable pub merge_team_state : StoredTeam → StoredTeam → LiveTeam → StoredTeam
  unfolding merge_entries merge_members merge_active_task
  merge_team_state disk ancestor current = record {
    fields = merge_entries disk.fields ancestor.fields current.entries disk.fields;
    members = merge_members disk.members ancestor.members current.members;
    active_task = merge_active_task disk.active_task ancestor.active_task current.active_task;
  }

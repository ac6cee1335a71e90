-- ===== src/State/Team/Counters.antt =====
-- What concurrent writers keep of a team's state in store.ts.
use octeam.Prelude.{
  ℕ, ◌+◌, ◌-◌, ◌≡◌, inl, inr, refl, ap, ◌∙◌, String, Option, some, arith, Bool-cases, Option-cases,
  if◌then◌else◌, eq_string,
}
use octeam.State.Json.{Json, object, Fields, find, find-put}
use octeam.State.Merge.{merge_objects}
use octeam.State.Team.{
  Numerals, NumeralLaws, task_field, count_of, written_number, is_new_run, merge_task,
  merge_messages_sent, merge_tokens_used, merge_counters, merge_active_task,
}

module _ (numerals : Numerals) (laws : NumeralLaws numerals) where
  -- The field of an active task is this number.
  abbrev Counts : Fields → String → ℕ → Type 0
  Counts fs key n = find key fs ≡ some (written_number numerals n)

  count_of-Counts :
      (fs : Fields) (key : String) (n : ℕ)
      → Counts fs key n
      → count_of numerals (some (object fs)) key ≡ some n
  unfolding count_of task_field
  count_of-Counts fs key n h = rw (count_of, task_field, h) (ap some (laws.value-digits n))

  tokens_used-keeps :
      (disk current : Option Json) (merged : Fields)
      → find "messagesSent" (merge_tokens_used numerals disk current merged)
        ≡ find "messagesSent" merged
  unfolding merge_tokens_used
  tokens_used-keeps disk current merged =
      elim (Option-cases (count_of numerals disk "tokensUsed")) [
        | inl e ↦ rw (merge_tokens_used, e) refl
        | inr (d, e) ↦ elim (Option-cases (count_of numerals current "tokensUsed")) [
          | inl gone ↦ rw (merge_tokens_used, e, gone) refl
          | inr (c, has) ↦
              rw (merge_tokens_used, e, has) (find-put "tokensUsed" "messagesSent" _ merged)
        ]
      ]

  messages_sent-Counts :
      (disk ancestor current merged : Fields) (start mine theirs : ℕ)
      → Counts disk "messagesSent" (start + theirs)
      → Counts ancestor "messagesSent" start
      → Counts current "messagesSent" (start + mine)
      → Counts
          (merge_messages_sent numerals
            (some (object disk))
            (some (object ancestor))
            (some (object current))
            merged)
          "messagesSent"
          (start + mine + theirs)
  unfolding merge_messages_sent
  messages_sent-Counts disk ancestor current merged start mine theirs d a c =
      let sum : start + theirs + (start + mine) - start ≡ start + mine + theirs = omega arith in
      rw
        (
          merge_messages_sent,
          count_of-Counts disk "messagesSent" (start + theirs) d,
          count_of-Counts current "messagesSent" (start + mine) c,
          count_of-Counts ancestor "messagesSent" start a,
        )
        (find-put "messagesSent" "messagesSent" _ merged
          ∙ ap (λ n. some (written_number numerals n)) sum)

  merges_objects :
      (disk ancestor current : Fields)
      → (merged : Fields) × (merge_task
            (some (object disk))
            (some (object ancestor))
            (some (object current))
          ≡ some (object merged))
  unfolding merge_task merge_objects
  merges_objects disk ancestor current = (_, refl)

  -- Two writers of one run start from a count of messages and add to it: when the second saves, the
  -- count in the merged task has both their messages. Where the disk has a run that neither the second
  -- nor the common ancestor knows, the merged task is that of the disk.
  pub messages_survive :
      (disk ancestor current : Fields) (start mine theirs : ℕ)
      → Counts disk "messagesSent" (start + theirs)
      → Counts ancestor "messagesSent" start
      → Counts current "messagesSent" (start + mine)
      → let merged =
          merge_active_task numerals
            (some (object disk))
            (some (object ancestor))
            (some (object current)) in
        if is_new_run (some (object disk)) (some (object ancestor)) (some (object current))
        then merged ≡ some (object disk)
        else (count_of numerals merged "messagesSent" ≡ some (start + mine + theirs))
  unfolding merge_active_task
  messages_survive disk ancestor current start mine theirs d a c =
      let old = is_new_run (some (object disk)) (some (object ancestor)) (some (object current)) in
      elim (Bool-cases old) [
        | inl fenced ↦ rw (merge_active_task, fenced) refl
        | inr same_run ↦
            rw (merge_active_task, same_run)
              (let (merged, e) = merges_objects disk ancestor current in
                let d' = some (object disk) in
                let a' = some (object ancestor) in
                let c' = some (object current) in
                ap (λ o. count_of numerals (merge_counters numerals d' a' c' o) "messagesSent") e
                ∙ count_of-Counts
                    (merge_tokens_used numerals d' c'
                      (merge_messages_sent numerals d' a' c' merged))
                    "messagesSent" (start + mine + theirs)
                    (tokens_used-keeps d' c' (merge_messages_sent numerals d' a' c' merged)
                      ∙ messages_sent-Counts disk ancestor current merged start mine theirs d a c))
      ]

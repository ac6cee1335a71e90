-- ===== src/Examples/Saves.antt =====
-- The counters of a task that two processes save. A number is written in tallies.
use Prim.Native.String.{count, ◌++◌ as ◌<>◌}
use text.Mathlib.TextLemmas.{length-append}
use octeam.Prelude.{ℕ, zero, suc, ◌≡◌, refl, String, false, some, arith, if◌then◌else◌, eq_string}
use octeam.State.Json.{number, text as text_json, object, Fields, no_field, field, find}
use octeam.State.Team.{Numerals, NumeralLaws, is_new_run, merge_active_task, count_of}
use octeam.State.Team.Counters.{messages_survive}

tally : ℕ → String
tally zero = ""
tally (suc n) = "i" <> tally n

count-tally : (n : ℕ) → count (tally n) ≡ n
unfolding tally
count-tally zero = refl
count-tally (suc n) = omega (arith, length-append "i" (tally n), count-tally n)

abbrev tallies : Numerals
unfolding tally
tallies = record { value = count; digits = tally }

tallies_laws : NumeralLaws tallies
unfolding tallies
tallies_laws = record { value-digits = count-tally }

abbrev task_of : String → String → Fields
task_of run sent = field "runId" (text_json run) (field "messagesSent" (number sent) no_field)

-- One message was sent when both began; the other process sent two, and this one sends one.
messages_survive_example :
    let merged =
      merge_active_task tallies
        (some (object (task_of "r" "iii")))
        (some (object (task_of "r" "i")))
        (some (object (task_of "r" "ii"))) in
    if is_new_run
      (some (object (task_of "r" "iii")))
      (some (object (task_of "r" "i")))
      (some (object (task_of "r" "ii")))
    then merged ≡ some (object (task_of "r" "iii"))
    else (count_of tallies merged "messagesSent" ≡ some 4)
unfolding merge_active_task is_new_run count_of tallies tally find
messages_survive_example =
    messages_survive tallies tallies_laws (task_of "r" "iii") (task_of "r" "i") (task_of "r" "ii") 1
      1 2 refl refl refl

same_run :
    is_new_run
      (some (object (task_of "r" "iii")))
      (some (object (task_of "r" "i")))
      (some (object (task_of "r" "ii")))
    ≡ false
unfolding is_new_run
same_run = refl

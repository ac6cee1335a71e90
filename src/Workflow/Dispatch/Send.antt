-- ===== src/Workflow/Dispatch/Send.antt =====
-- src/orchestration/workflow/engine.ts: the actor of a step, the guard on what a step reads, and
-- `dispatchTaskStep`, up to the prompt. The step is left as it is when its actor is prompted.
use octeam.Prelude.{
  ℕ, String, Bool, false, not, ◌&&◌, ◌||◌, Option, none, some, List, [], ◌∷◌, get_or, or_else,
  get_elem?, str_eq, is_some, if◌then◌else◌,
}
use octeam.Workflow.Types.{TaskFields, task, gate, fanout, join, Step}
use octeam.Workflow.JoinPolicy.{is_true}
use octeam.Workflow.Engine.State.{
  WorkflowRun, Next, input_skipped, steps_of_run, finish, drop_response,
  mark_workflow_step_dispatched,
}
use octeam.Workflow.Verdicts.Settle.{update_step}
use octeam.Modes.Barriers.{is_errored}
use octeam.Modes.Signoff.{Reviewer, find_reviewer}

-- What a dispatch returns: `false`, or `true` with the members that are prompted, or `true` for an
-- ensemble whose verifiers have all answered, with what its verdict goes on to.
pub data Dispatched : Type 0 where
  not_dispatched : Dispatched
  sends : List String → Dispatched
  settled : Next → Dispatched

-- `sessionId !== undefined && status !== "errored"`
abbrev pub has_live_session : Reviewer → Bool
has_live_session member = is_some member.session_id && not (is_errored member.status)

unfoldable pub find_live : List Reviewer → Option String → Option Reviewer
unfolding find_reviewer
find_live members name = elim (find_reviewer members (get_or name "")) [
  | none ↦ none
  | some member ↦ if has_live_session member then some member else none
]

unfoldable pub live_workflow_actor : List Reviewer → Option String → Option String → Option Reviewer
unfolding find_live
live_workflow_actor members primary fallback =
    or_else (find_live members primary) (find_live members fallback)

-- The names that pass a test.
unfoldable pub keep_names : (String → Bool) → List String → List String
keep_names test [] = []
keep_names test (name ∷ names) =
    let rest = keep_names test names in if test name then name ∷ rest else rest

abbrev pub last_name : Option String → List String → Option String
last_name default [] = default
last_name default (name ∷ names) = last_name (some name) names

abbrev pub reaches : List Reviewer → (String → Bool) → String → Bool
reaches members send name = is_some (find_live members (some name)) && send name

module _ {F : Type 0} where
  -- Completed and not skipped: its output may be read.
  abbrev pub is_supplied : Option (Step F) → Bool
  is_supplied none = false
  is_supplied (some step) = step.completed && not (is_true step.skipped)

  unfoldable pub missing_inputs : List (Step F) → List ℕ → List ℕ
  missing_inputs steps [] = []
  missing_inputs steps (i ∷ is) =
      let rest = missing_inputs steps is in
      if is_supplied (get_elem? steps i) then rest else i ∷ rest

  abbrev pub clear_last_output : Step F → Step F
  clear_last_output step = record step {
    runtime = record step.runtime { approval_before_granted = none; output = none };
  }

  -- The step when its actor is prompted.
  unfoldable pub prompted : ℕ → String → String → Step F → Step F
  unfolding mark_workflow_step_dispatched
  prompted now uuid actor step =
      let cleared = clear_last_output step in
      mark_workflow_step_dispatched now (record cleared {
        runtime = record cleared.runtime {
          dispatched_actor = some actor;
          correlation_id = some uuid;
        };
      })

  -- The run ends where a step that is read was skipped or is not completed.
  abbrev pub refuse_or :
      ℕ → List ℕ → WorkflowRun F → WorkflowRun F × Dispatched → WorkflowRun F × Dispatched
  refuse_or index [] run next = next
  refuse_or index (i ∷ is) run next = (finish (input_skipped index (i ∷ is)) run, not_dispatched)

  abbrev pub prompt_one : ℕ → String → WorkflowRun F → ℕ → Reviewer → WorkflowRun F × Dispatched
  unfolding prompted
  prompt_one now uuid run index actor = (
    update_step index (prompted now uuid actor.name) (drop_response run actor.name),
    sends (actor.name ∷ []),
  )

  -- The task at an index.
  abbrev pub task_at : List (Step F) → ℕ → Option (Step F × TaskFields)
  task_at steps index = elim (get_elem? steps index) [
    | none ↦ none
    | some step ↦ elim step.kind [
      | task t ↦ some (step, t)
      | gate g ↦ none
      | fanout m ↦ none
      | join m ↦ none
    ]
  ]

  unfoldable pub dispatch_task_step :
      List Reviewer → ℕ → String → WorkflowRun F → ℕ → WorkflowRun F × Dispatched
  unfolding live_workflow_actor missing_inputs prompted
  dispatch_task_step members now uuid run index = elim (task_at (steps_of_run run) index) [
    | none ↦ (run, not_dispatched)
    | some (step, t) ↦
        if str_eq t.member "" || str_eq t.task ""
        then (run, not_dispatched)
        else elim (live_workflow_actor members (some t.member) t.fallback_member) [
          | none ↦ (run, not_dispatched)
          | some actor ↦
              refuse_or index (missing_inputs (steps_of_run run) (get_or step.inputs [])) run
                (prompt_one now uuid run index actor)
        ]
  ]

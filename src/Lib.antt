-- ===== src/Lib.antt =====
-- Verification of the coordination core of OCTeam.
--
-- The program is an OpenCode plugin: a leader session activates a team of member sessions and starts
-- one orchestration task on it. The model follows the code that decides what such a task does next;
-- files, timers, prompts and the plugin host are left out.
--
-- Parts and files (source paths are relative to the root of the repository):
--
-- - Workflow/Types.antt: src/core/types/workflow.ts, the runtime step graph. `Step` is the
--   discriminated union `WorkflowStep`: the shared fields in `runtime`, the fields of a kind in
--   `kind`. An optional field is an `Option`.
-- - Workflow/JoinPolicy.antt: src/orchestration/workflow/join-policy.ts. The quotient of branch
--   counts and its comparison with the quorum are IEEE arithmetic of the runtime: the operations are
--   the interface `Fraction` of Workflow/JoinPolicy/Ieee.antt, what is assumed of them is
--   `FractionLaws`, and exact fractions are an instance.
-- - Workflow/Dag: src/orchestration/workflow/dag.ts. Actors.antt resolves the member that a step
--   waits for; Joins.antt is `isWorkflowJoinSatisfied` with the writes of `any_success` to the
--   array of steps; Ready.antt is `readyWorkflowStepIndices`, whose two mutually recursive helpers
--   share the steps, the result and the visited set (the record `Walk`); Validate.antt is
--   `validateWorkflowDag`. The proofs stand in the modules below each of these.
-- - Workflow/Fanout.antt: src/orchestration/workflow/fanout.ts, `markWorkflowFanoutBranchErrored` and
--   what it calls: a member of a branch failed, the branch is recorded at its join and skipped, and
--   the verdict says whether the run fails.
-- - Modes: src/orchestration/control/barriers.ts, src/orchestration/modes/quorum.ts, and of
--   src/orchestration/control/signoff.ts the settlement of a signoff by its peers. The tagged JSON
--   of a ballot and `trim` are parameters; `finishRun` is the value it is called with.
-- - Workflow/Invariants.antt: src/orchestration/workflow/invariants.ts, the checks of the active
--   indices and of the fanout markers; Invariants/GateChecks.antt has the check of a gate, and
--   Invariants/StepChecks.antt those of branch metadata and joins and `checkWorkflowInvariants`;
--   Workflow/Ranges.antt has the range tests.
-- - Workflow/Gates: Targets.antt is src/orchestration/workflow/gate-targets.ts; Conditions.antt (the
--   `where` condition, `gatedGotoIndex`) and Ensemble.antt (`aggregateEnsembleVerdict`) are of
--   src/orchestration/workflow/gate.ts.
-- - Workflow/Engine: of src/orchestration/workflow/engine.ts the jump of a gate. State.antt has the
--   run (`WorkflowRun`: the task's view, responses, approval request and final reason), Rerun.antt
--   what a jump back resets, Goto.antt `gotoWorkflowStep` up to the dispatch of its target. What a
--   handler goes on to is a value of `Next`: nothing, `advanceWorkflowStep`, the target of a jump,
--   or a new dispatch of a step. `finishRun` is recorded as the reason that it is called with;
--   prompts, events and saving are left out.
-- - Workflow/Verdicts: src/orchestration/workflow/verdict.ts. Settle.antt has the reset of a settled
--   step and the approvals that a run waits for (src/orchestration/control/approval.ts, without
--   its notification), Invalid.antt `handleInvalidVerdict`, Routes.antt `handleGatePass`,
--   `handleGateFail` and `handleGateRetry`, Collect.antt `collectEnsembleVerdicts` and
--   `handleGateVerdict`, where the reading of a verdict from a response is a parameter.
-- - Workflow/Dispatch: of src/orchestration/workflow/engine.ts the dispatch of a task, of a gate and of
--   an ensemble, up to the prompts that are sent; a verifier that no prompt reaches is found by the
--   parameter `send`, and the ids of a dispatch are arguments.
-- - Workflow/Advance: how a run goes on. Truncate.antt is `truncateOutput` of
--   src/orchestration/protocol/output.ts, where Buffers, the searches in strings and the regular
--   expressions of the runtime are the interface `Texts`, and what is assumed of them is `TextsLaws`;
--   Outputs.antt is `buildBranchWorkflowOutput` and `buildJoinedWorkflowOutput` of
--   src/orchestration/workflow/fanout.ts;
--   Joins.antt has the survivors of a join, the dispatch of its reducer, `completeWorkflowJoinStep`
--   and `handleWorkflowDispatchUnavailable`; Sweep.antt has one round over the ready steps (`sweep`)
--   and the record `Host`, with the actors' answers and whether `maybeTriggerSignoff` takes over at
--   the end; Loop.antt is `advanceWorkflowStep` of src/orchestration/workflow/engine.ts and
--   `follow_next`, which carries out a value of `Next`: the dispatch of a jump's target at the end of
--   `gotoWorkflowStep`, a step that runs again, or the loop.
-- - Workflow/Idle: src/orchestration/workflow/handler.ts, the idle of a member. Tasks.antt has a
--   task's with its retries on an output, Joins.antt a join's with the response of its reducer or
--   selector, Idle.antt the choice between them and a gate's. `trim`, `includes` and regular
--   expressions are the interface `OutputTests`; the tagged JSON of a selection is read by a
--   parameter.
-- - State: of src/state/store.ts the three-way merge of a team's state when it is saved. Json.antt has
--   JSON values, Merge.antt `mergeObjects`, Members.antt `mergeMembers`, Team.antt
--   `mergeTeamState` with the fences and the counters of a task. A number is its text.
-- - Tasks: src/state/tasks.ts and src/core/types/task.ts. Types.antt has the task and the errors;
--   Text.antt the shape of an id and the limit on a result's bytes; Store.antt the files of a team
--   (`TaskStore`: task files and claim locks), `readTaskFile`, `getTask` and `updateTask`;
--   Claims.antt `createTask`, `listAllTasks` and `claimTask`; Claims/Reaper.antt `reapStaleClaims`.
--   A call takes the clock as an argument and runs to its end, as it does under the locks that it
--   takes; a thrown error is the constructor `err` with the store that it leaves.
-- - Prelude: arrays, membership and dictionaries as the code uses them.
-- - Examples: the theorems at concrete inputs, and runs.
--
-- Fuel: `collect` takes the depth of its calls as fuel, one more than there are steps; a theorem
-- below shows that this is enough for every state. `advance_frontier` and `follow_next` take the rounds
-- of the loop, and the calls that follow one another, as fuel, and answer `none` without it; the code
-- does not bound them.
--
-- Indices and counters are natural numbers. The code also tests for negative or fractional indices
-- in a restored state; those values are not modelled.
--
-- Not modelled: the idle handlers of the modes other than workflows and quorum votes; lifecycle,
-- messaging, locks, worktrees and run records, which are mostly calls of the file system and of the
-- plugin host; the tools, which check arguments; and the terminal view.
pub mod Prelude
pub mod Modes
pub mod Tasks
pub mod Workflow
pub mod State
mod Examples

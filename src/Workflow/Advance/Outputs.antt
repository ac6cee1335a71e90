-- ===== src/Workflow/Advance/Outputs.antt =====
-- src/orchestration/workflow/fanout.ts: the outputs of branches as one text, within the byte limit of
-- src/orchestration/workflow/upstream.ts. The blocks so far are the text that joins them.
pub mod Budget
use Prim.Native.String.{◌++◌ as ◌<>◌}
use octeam.Prelude.{
  ℕ, zero, suc, ◌+◌, ◌-◌, ◌/◌, ◌≤◌, ◌≡◌, String, Bool, true, false, not, ◌&&◌, ◌||◌, Option, none,
  some, List, [], ◌∷◌, map, get_or, get_elem?, ltb, str_eq, eq_string, if◌then◌else◌,
}
use octeam.Workflow.Advance.Truncate.{Texts, truncate_output}
use octeam.Prelude.Member.{includes, index_of}
use octeam.Workflow.Types.{
  BranchRange, FanoutMetadata, JoinMetadata, StepKind, task, fanout, join, Step,
}
use octeam.Workflow.JoinPolicy.{is_true}
use octeam.Workflow.Dag.Joins.{fanout_of}
use octeam.Workflow.Fanout.{join_of}

abbrev pub max_upstream_output_bytes : ℕ
max_upstream_output_bytes = 65536

-- The cap of one step's text in a joined output.
abbrev pub max_step_bytes : ℕ
max_step_bytes = 8192

abbrev pub least : ℕ → ℕ → ℕ
least a b = if ltb a b then a else b

abbrev pub separator : Option String → String
separator none = ""
separator (some blocks) = "\n\n"

abbrev pub add_block : Option String → String → Option String
add_block none block = some block
add_block (some blocks) block = some (blocks <> ("\n\n" <> block))

-- The step's member and output, where it is a completed task that exposes one.
abbrev pub task_output : {F : Type 0} → StepKind F → Step F → Option (String × String)
task_output (task t) step =
    if step.completed && not (str_eq (get_or step.output "") "") && get_or step.expose_output true
    then some (t.member, get_or step.output "")
    else none
task_output _ step = none

abbrev pub block_of : {F : Type 0} → Option (Step F) → Option (String × String)
block_of none = none
block_of (some step) = task_output step.kind step

abbrev pub unskipped_block_of : {F : Type 0} → Option (Step F) → Option (String × String)
unskipped_block_of none = none
unskipped_block_of (some step) = if is_true step.skipped then none else task_output step.kind step

abbrev pub drops_branch : {F : Type 0} → List (Step F) → JoinMetadata F → String → ℕ → Bool
unfolding includes
drops_branch steps j id i =
    includes (get_or j.errored_branch_ids []) id || elim (get_elem? j.branch_tail_indices i) [
      | none ↦ false
      | some t ↦ elim (get_elem? steps t) [ none ↦ false | some tail ↦ is_true tail.skipped ]
    ]

-- Of the branches, or of their tails where the fanout is not known.
abbrev pub output_ranges :
    {F : Type 0} → Option (FanoutMetadata F) → JoinMetadata F → List BranchRange
output_ranges none j = map (λ t. record { start_index = t; end_index = t }) j.branch_tail_indices
output_ranges (some m) j = m.branch_ranges

module _ (texts : Texts) where
  abbrev pub step_label : ℕ → String → String
  step_label i member = "[Step " <> (texts.digits (suc i) <> (" output from " <> (member <> "]\n")))

  abbrev pub branch_label : String → String
  branch_label id = "[Branch " <> (id <> "]\n")

  -- `n` steps from `i` on, up to the limit; `bound` bounds the bytes of one step's output.
  unfoldable pub step_blocks :
      {F : Type 0}
      → (Option (Step F) → Option (String × String))
      → ℕ
      → (ℕ → ℕ)
      → List (Step F)
      → ℕ
      → ℕ
      → Option String
      → ℕ
      → Option String
  unfolding truncate_output
  step_blocks shown limit bound steps zero i blocks used = blocks
  step_blocks shown limit bound steps (suc n) i blocks used = elim (shown (get_elem? steps i)) [
    | none ↦ step_blocks shown limit bound steps n (suc i) blocks used
    | some (member, output) ↦
        let label = step_label i member in
        elim (limit - used - texts.bytes (separator blocks <> label)) [
          | zero ↦ blocks
          | suc left ↦
              let block = label <> truncate_output texts output (bound (suc left)) in
              step_blocks shown limit bound steps n (suc i) (add_block blocks block)
                (used + texts.bytes (separator blocks <> block))
        ]
  ]

  unfoldable pub branch_output :
      {F : Type 0} → List (Step F) → FanoutMetadata F → String → Option BranchRange → String
  unfolding step_blocks
  branch_output steps m id none = ""
  branch_output steps m id (some range) =
      elim (step_blocks block_of max_upstream_output_bytes (λ left. left) steps
        (suc range.end_index - range.start_index) range.start_index none
        (texts.bytes (branch_label id))) [ none ↦ "" | some blocks ↦ branch_label id <> blocks ]

  unfoldable pub named_output :
      {F : Type 0} → List (Step F) → Option (FanoutMetadata F) → String → String
  unfolding branch_output index_of
  named_output steps none id = ""
  named_output steps (some m) id = elim (index_of m.branch_ids id) [
    | none ↦ ""
    | some i ↦ branch_output steps m id (get_elem? m.branch_ranges i)
  ]

  -- One branch of a fanout, `""` where it has no output.
  unfoldable pub build_branch_workflow_output : {F : Type 0} → List (Step F) → ℕ → String → String
  unfolding named_output
  build_branch_workflow_output steps join_index id = elim (join_of (get_elem? steps join_index)) [
    | none ↦ ""
    | some j ↦ named_output steps (fanout_of (get_elem? steps j.fanout_index)) id
  ]

  -- A branch without an id is numbered.
  abbrev pub output_branch_id : {F : Type 0} → Option (FanoutMetadata F) → ℕ → String
  output_branch_id none i = "branch-" <> texts.digits (suc i)
  output_branch_id (some m) i =
      get_or (get_elem? m.branch_ids i) ("branch-" <> texts.digits (suc i))

  unfoldable pub count_surviving :
      {F : Type 0}
      → List (Step F)
      → JoinMetadata F
      → Option (FanoutMetadata F)
      → List BranchRange
      → ℕ
      → ℕ
  unfolding includes
  count_surviving steps j m [] i = 0
  count_surviving steps j m (range ∷ ranges) i =
      let rest = count_surviving steps j m ranges (suc i) in
      if drops_branch steps j (output_branch_id m i) i then rest else suc rest

  abbrev pub truncation_marker : String
  truncation_marker =
      "[…joined output truncated at " <> (texts.digits max_upstream_output_bytes <> " bytes]")

  abbrev pub close_output : Option String → ℕ → Option String
  close_output blocks used =
      if ltb max_upstream_output_bytes
        (used + texts.bytes (separator blocks) + texts.bytes truncation_marker)
      then blocks
      else add_block blocks truncation_marker

  -- The branches from the `i`-th on; the first that does not fit ends the text.
  unfoldable pub branch_texts :
      {F : Type 0}
      → List (Step F)
      → JoinMetadata F
      → Option (FanoutMetadata F)
      → ℕ
      → List BranchRange
      → ℕ
      → Option String
      → ℕ
      → Option String
  unfolding step_blocks includes
  branch_texts steps j m share [] i blocks used = blocks
  branch_texts steps j m share (range ∷ ranges) i blocks used =
      let id = output_branch_id m i in
      let skip = branch_texts steps j m share ranges (suc i) blocks used in
      if drops_branch steps j id i
      then skip
      else elim (step_blocks unskipped_block_of share (λ left. least left max_step_bytes) steps
          (suc range.end_index - range.start_index) range.start_index none
          (texts.bytes (separator blocks <> branch_label id))) [
            | none ↦ skip
            | some own ↦
                let block = branch_label id <> own in
                let size = texts.bytes (separator blocks) + texts.bytes block in
                let rest =
                  branch_texts steps j m share ranges (suc i) (add_block blocks block)
                    (used + size) in
                if ltb max_upstream_output_bytes (used + size)
                then close_output blocks used
                else rest
          ]

  -- All surviving branches, each with an equal share of the bytes.
  unfoldable pub build_joined_workflow_output : {F : Type 0} → List (Step F) → ℕ → String
  unfolding branch_texts count_surviving
  build_joined_workflow_output steps join_index = elim (join_of (get_elem? steps join_index)) [
    | none ↦ ""
    | some j ↦
        let m = fanout_of (get_elem? steps j.fanout_index) in
        let ranges = output_ranges m j in
        let surviving = count_surviving steps j m ranges 0 in
        let share = max_upstream_output_bytes / (if ltb surviving 1 then 1 else surviving) in
        get_or (branch_texts steps j m share ranges 0 none 0) ""
  ]

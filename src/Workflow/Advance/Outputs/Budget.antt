-- ===== src/Workflow/Advance/Outputs/Budget.antt =====
-- The outputs of branches stay within the byte limit of fanout.ts.
use Prim.Native.String.{◌++◌ as ◌<>◌}
use Prim.Native.String.append
use text.Mathlib.TextLemmas.{append_assoc}
use octeam.Prelude.{
  ℕ, zero, suc, ◌+◌, ◌-◌, ◌≤◌, ◌<◌, ◌≡◌, ◌⊎◌, inl, inr, refl, ap, String, true, Option, none, some,
  List, [], ◌∷◌, eq_string, arith, get_elem?, is_some, get_or, ltb, le_of_not_ltb, Option-cases,
  Bool-cases,
}
use octeam.Prelude.Member.{index_of}
use octeam.Workflow.Types.{
  StepKind, task, gate, fanout, join, BranchRange, FanoutMetadata, JoinMetadata, Step,
}
use octeam.Workflow.Dag.Joins.{fanout_of}
use octeam.Workflow.Fanout.{join_of}
use octeam.Workflow.Advance.Truncate.{Texts, truncate_output}
use octeam.Workflow.Advance.Truncate.Fits.{TextsLaws, truncate_output-fits}
use octeam.Workflow.Advance.Outputs.{
  max_upstream_output_bytes, separator, add_block, step_label, branch_label, block_of,
  unskipped_block_of, least, max_step_bytes, drops_branch, output_branch_id, step_blocks,
  task_output, branch_output, named_output, build_branch_workflow_output, truncation_marker,
  close_output, branch_texts, build_joined_workflow_output,
}

zero-or-suc : (n : ℕ) → (n ≡ 0) ⊎ ((m : ℕ) × (n ≡ suc m))
zero-or-suc zero = inl refl
zero-or-suc (suc m) = inr (m, refl)

module _ (texts : Texts) (laws : TextsLaws texts) where
  -- The bytes of the text so far.
  abbrev size : Option String → ℕ
  size none = 0
  size (some blocks) = texts.bytes blocks

  size-add_block :
      (blocks : Option String) (block : String)
      → size (add_block blocks block) ≤ size blocks + texts.bytes (separator blocks <> block)
  size-add_block none block = rw (append.nil block) (omega arith)
  size-add_block (some blocks) block = laws.bytes-append blocks ("\n\n" <> block)

  -- A label with its text, behind the separator.
  bytes-labelled :
      (s label : String) (text : String)
      → texts.bytes (s <> (label <> text)) ≤ texts.bytes (s <> label) + texts.bytes text
  bytes-labelled s label text =
      rw (← append_assoc s label text) (laws.bytes-append (s <> label) text)

  stops :
      (blocks : Option String) (base used limit : ℕ) (t : String)
      → base + size blocks ≤ used
      → (is_some blocks ≡ true → used ≤ limit)
      → blocks ≡ some t
      → base + texts.bytes t ≤ limit
  stops none base used limit t inv fits e = absurd (cc)
  stops (some blocks) base used limit t inv fits e =
      let same = ap size e in omega (arith, inv, fits refl, same)

  close_output-fits :
      (blocks : Option String) (used : ℕ)
      → size blocks ≤ used
      → used ≤ max_upstream_output_bytes
      → size (close_output texts blocks used) ≤ max_upstream_output_bytes
  close_output-fits blocks used inv fits =
      let marker = truncation_marker texts in
      let grown = size-add_block blocks marker in
      let apart = laws.bytes-append (separator blocks) marker in
      elim (Bool-cases (
        ltb max_upstream_output_bytes
          (used + texts.bytes (separator blocks) + texts.bytes marker))) [
            | inl over ↦ rw over (omega arith)
            | inr room ↦
                let small = le_of_not_ltb max_upstream_output_bytes _ room in rw room (omega arith)
          ]

  built-fits :
      (o : Option String)
      → size o ≤ max_upstream_output_bytes
      → texts.bytes (get_or o "") ≤ max_upstream_output_bytes
  built-fits none h = omega (arith, laws.bytes_empty)
  built-fits (some t) h = h

  module _ {F : Type 0} where
    -- No step's output has a thousand million million bytes.
    abbrev pub HasShortOutputs : List (Step F) → Type 0
    HasShortOutputs steps =
        (i : ℕ) (step : Step F)
        → get_elem? steps i ≡ some step
        → texts.bytes (get_or step.output "") < 1000000000000000

    abbrev ShowsShort : (Option (Step F) → Option (String × String)) → List (Step F) → Type 0
    ShowsShort shown steps =
        (i : ℕ) (member output : String)
        → shown (get_elem? steps i) ≡ some (member, output)
        → texts.bytes output < 1000000000000000

    task_output-output :
        (kind : StepKind F) (step : Step F) (member output : String)
        → task_output kind step ≡ some (member, output)
        → get_or step.output "" ≡ output
    task_output-output (task t) step member output h = ground (arith, h)
    task_output-output (gate g) step member output h = absurd (cc)
    task_output-output (fanout m) step member output h = absurd (cc)
    task_output-output (join m) step member output h = absurd (cc)

    block_of-short : (steps : List (Step F)) → HasShortOutputs steps → ShowsShort block_of steps
    block_of-short steps short i member output h = elim (Option-cases (get_elem? steps i)) [
      | inl gone ↦ absurd (ground (arith, h, gone))
      | inr (step, at) ↦
          let same : get_or step.output "" ≡ output =
            task_output-output step.kind step member output (rw at at h) in
          rw (← same) (short i step at)
    ]

    unskipped-short :
        (steps : List (Step F)) → HasShortOutputs steps → ShowsShort unskipped_block_of steps
    unskipped-short steps short i member output h = elim (Option-cases (get_elem? steps i)) [
      | inl gone ↦ absurd (ground (arith, h, gone))
      | inr (step, at) ↦
          let same : get_or step.output "" ≡ output =
            task_output-output step.kind step member output (ground (arith, h, at)) in
          rw (← same) (short i step at)
    ]

    step_blocks-fits :
        (shown : Option (Step F) → Option (String × String)) (limit : ℕ) (bound : ℕ → ℕ)
        (small : (k : ℕ) → bound k ≤ k) (steps : List (Step F)) (n i : ℕ) (blocks : Option String)
        (used base : ℕ) (t : String)
        → ShowsShort shown steps
        → base + size blocks ≤ used
        → (is_some blocks ≡ true → used ≤ limit)
        → step_blocks texts shown limit bound steps n i blocks used ≡ some t
        → base + texts.bytes t ≤ limit
    unfolding step_blocks
    step_blocks-fits shown limit bound small steps zero i blocks used base t short inv fits =
        λ e. stops blocks base used limit t inv fits e
    step_blocks-fits shown limit bound small steps (suc n) i blocks used base t short inv fits =
        elim (Option-cases (shown (get_elem? steps i))) [
          | inl e ↦
              rw (step_blocks, e)
                (step_blocks-fits shown limit bound small steps n (suc i) blocks used base t short
                  inv fits)
          | inr ((member, output), e) ↦
              let label = step_label texts i member in
              let room = limit - used - texts.bytes (separator blocks <> label) in
              elim (zero-or-suc room) [
                | inl full ↦ rw (step_blocks, e, full) (stops blocks base used limit t inv fits)
                | inr (left, has) ↦
                    let block = label <> truncate_output texts output (bound (suc left)) in
                    let more =
                      bytes-labelled (separator blocks) label
                        (truncate_output texts output (bound (suc left))) in
                    let small_text =
                      truncate_output-fits texts laws output (bound (suc left))
                        (short i member output e) in
                    let under = small (suc left) in
                    let grown = size-add_block blocks block in
                    rw (step_blocks, e, has)
                      (step_blocks-fits shown limit bound small steps n (suc i)
                        (add_block blocks block) (used + texts.bytes (separator blocks <> block))
                        base t short (omega arith) (λ _. omega arith))
              ]
        ]

    branch_output-fits :
        (steps : List (Step F)) (m : FanoutMetadata F) (id : String) (range : Option BranchRange)
        → HasShortOutputs steps
        → texts.bytes (branch_output texts steps m id range) ≤ max_upstream_output_bytes
    unfolding branch_output
    branch_output-fits steps m id none short = omega (arith, laws.bytes_empty)
    branch_output-fits steps m id (some range) short =
        let own = branch_label texts id in
        let blocks =
          step_blocks texts block_of max_upstream_output_bytes (λ left. left) steps
            (suc range.end_index - range.start_index) range.start_index none (texts.bytes own) in
        elim (Option-cases blocks) [
          | inl e ↦ rw (branch_output, e) (omega (arith, laws.bytes_empty))
          | inr (t, e) ↦
              let fits =
                step_blocks-fits block_of max_upstream_output_bytes (λ left. left)
                  (λ k. omega arith) steps (suc range.end_index - range.start_index)
                  range.start_index none (texts.bytes own) (texts.bytes own) t
                  (block_of-short steps short) (omega arith) (λ h. absurd (cc)) e in
              let joined = laws.bytes-append own t in rw (branch_output, e) (omega arith)
        ]

    named_output-fits :
        (steps : List (Step F)) (m : Option (FanoutMetadata F)) (id : String)
        → HasShortOutputs steps
        → texts.bytes (named_output texts steps m id) ≤ max_upstream_output_bytes
    unfolding index_of named_output
    named_output-fits steps none id short = omega (arith, laws.bytes_empty)
    named_output-fits steps (some m) id short = elim (Option-cases (index_of m.branch_ids id)) [
      | inl e ↦ rw (named_output, e) (omega (arith, laws.bytes_empty))
      | inr (i, e) ↦
          rw (named_output, e) (branch_output-fits steps m id (get_elem? m.branch_ranges i) short)
    ]

    branch_texts-fits :
        (steps : List (Step F)) (j : JoinMetadata F) (m : Option (FanoutMetadata F)) (share : ℕ)
        (ranges : List BranchRange) (i : ℕ) (blocks : Option String) (used : ℕ)
        → HasShortOutputs steps
        → size blocks ≤ used
        → used ≤ max_upstream_output_bytes
        → size (branch_texts texts steps j m share ranges i blocks used) ≤ max_upstream_output_bytes
    unfolding branch_texts
    branch_texts-fits steps j m share [] i blocks used short inv fits = omega arith
    branch_texts-fits steps j m share (range ∷ ranges) i blocks used short inv fits =
        let id = output_branch_id texts m i in
        let later = branch_texts-fits steps j m share ranges (suc i) blocks used short inv fits in
        let own =
          step_blocks texts unskipped_block_of share (λ left. least left max_step_bytes) steps
            (suc range.end_index - range.start_index) range.start_index none
            (texts.bytes (separator blocks <> branch_label texts id)) in
        elim (Bool-cases (drops_branch steps j id i)) [
          | inl dropped ↦ rw (branch_texts, dropped) later
          | inr kept ↦ elim (Option-cases own) [
            | inl e ↦ rw (branch_texts, kept, e) later
            | inr (t, e) ↦
                let block = branch_label texts id <> t in
                let grown = size-add_block blocks block in
                let apart = laws.bytes-append (separator blocks) block in
                let total = used + (texts.bytes (separator blocks) + texts.bytes block) in
                elim (Bool-cases (ltb max_upstream_output_bytes total)) [
                  | inl over ↦
                      rw (branch_texts, kept, e, over) (close_output-fits blocks used inv fits)
                  | inr room ↦
                      let small = le_of_not_ltb max_upstream_output_bytes total room in
                      rw (branch_texts, kept, e, room)
                        (branch_texts-fits steps j m share ranges (suc i) (add_block blocks block)
                          total short (omega arith) small)
                ]
          ]
        ]

    -- Where every step's output has less than 10 to the 15th bytes, the output of one branch and the
    -- joined output of all branches take at most 65536 bytes of UTF-8, whatever the labels and the
    -- number of branches are. Of the runtime's texts only `TextsLaws` is assumed.
    pub outputs-fit :
        (steps : List (Step F)) (join_index : ℕ) (id : String)
        → HasShortOutputs steps
        → (texts.bytes (build_branch_workflow_output texts steps join_index id)
            ≤ max_upstream_output_bytes)
          × (texts.bytes (build_joined_workflow_output texts steps join_index)
              ≤ max_upstream_output_bytes)
    unfolding build_branch_workflow_output build_joined_workflow_output
    outputs-fit steps join_index id short =
        elim (Option-cases (join_of (get_elem? steps join_index))) [
          | inl e ↦
              rw (build_branch_workflow_output, build_joined_workflow_output, e)
                (omega (arith, laws.bytes_empty), omega (arith, laws.bytes_empty))
          | inr (j, e) ↦
              rw (build_branch_workflow_output, build_joined_workflow_output, e)
                (
                  named_output-fits steps (fanout_of (get_elem? steps j.fanout_index)) id short,
                  built-fits
                      (branch_texts texts steps j (fanout_of (get_elem? steps j.fanout_index)) _ _ 0
                        none 0)
                      (branch_texts-fits steps j (fanout_of (get_elem? steps j.fanout_index)) _ _ 0
                        none 0 short (omega arith) (omega arith)),
                )
        ]

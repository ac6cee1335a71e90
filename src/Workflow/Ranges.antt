-- ===== src/Workflow/Ranges.antt =====
-- Branch ranges, as src/orchestration/workflow/invariants.ts tests them.
use octeam.Prelude.{ℕ, Bool, ◌&&◌, leb}
use octeam.Workflow.Types.{BranchRange}

abbrev pub includes_workflow_index : BranchRange → ℕ → Bool
includes_workflow_index range i = leb range.start_index i && leb i range.end_index

abbrev pub ranges_overlap : BranchRange → BranchRange → Bool
ranges_overlap left right =
    leb left.start_index right.end_index && leb right.start_index left.end_index

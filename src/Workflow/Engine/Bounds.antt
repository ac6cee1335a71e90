-- ===== src/Workflow/Engine/Bounds.antt =====
-- The bounds on the jumps of engine.ts: no jump, and no run again, resets a count of jumps or of loops.
use octeam.Prelude.{ℕ, Option, none, some, List, get_or, get_elem?}
use octeam.Workflow.Types.{GateFields, LoopConfig, StepKind, gate, Step}
use octeam.Workflow.Engine.State.{default_max_jumps}

-- The counts that bound a gate's jumps and loops, with their caps.
pub record Bounds : Type 0 where
  pub jumps : ℕ
  pub loops : ℕ
  pub jump_cap : ℕ
  pub loop : Option LoopConfig

module _ {F : Type 0} where
  abbrev pub gate_bounds : GateFields F → Bounds
  gate_bounds g = record {
    jumps = get_or g.jump_count 0;
    loops = get_or g.loop_iterations 0;
    jump_cap = get_or g.max_jumps default_max_jumps;
    loop = g.loop;
  }

  abbrev pub kind_bounds : StepKind F → Option Bounds
  kind_bounds (gate g) = some (gate_bounds g)
  kind_bounds _ = none

  -- The bounds of the gate at an index.
  abbrev pub bounds_at : List (Step F) → ℕ → Option Bounds
  bounds_at steps k = elim (get_elem? steps k) [ none ↦ none | some step ↦ kind_bounds step.kind ]

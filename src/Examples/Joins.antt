-- ===== src/Examples/Joins.antt =====
-- The joins of the sample workflow.
use octeam.Prelude.{ℕ, zero, suc, ◌≡◌, refl, true, some, List, [], arith, eq_string, eq_nat}
use octeam.Prelude.Member.{includes, index_of}
use octeam.Workflow.Types.{any_success, Step}
use octeam.Workflow.JoinPolicy.Ieee.{Ratio, ratio_fraction}
use octeam.Workflow.Dag.Joins.{is_join_metadata_satisfied, losing_range}
use octeam.Workflow.Dag.Joins.Settled.{IsLinked, IsSettled}
use octeam.Workflow.Dag.Joins.Opens.{open_join-IsSettled, open_join_stable}
use octeam.Examples.Steps.{join_by, marker, steps_of}

-- Only the tails 1 and 3, and step 2 of the right branch, have a known range.
steps-IsLinked : (t : ℕ) → IsLinked (some marker) (steps_of true) t
unfolding losing_range index_of
steps-IsLinked zero b r found range = absurd (ground (arith, found, range))
steps-IsLinked (suc zero) b r found range = ground (arith, found, range)
steps-IsLinked (suc (suc zero)) b r found range = ground (arith, found, range)
steps-IsLinked (suc (suc (suc zero))) b r found range = ground (arith, found, range)
steps-IsLinked (suc (suc (suc (suc zero)))) b r found range = absurd (ground (arith, found, range))
steps-IsLinked (suc (suc (suc (suc (suc zero))))) b r found range =
    absurd (ground (arith, found, range))
steps-IsLinked (suc (suc (suc (suc (suc (suc t)))))) b r found range =
    absurd (ground (arith, found))

-- The left branch is done: the join opens, and skips both steps of the right branch.
abbrev after_open : List (Step Ratio)
after_open = (is_join_metadata_satisfied (steps_of true) (join_by any_success)).0

opens : is_join_metadata_satisfied (steps_of true) (join_by any_success) ≡ (after_open, true)
unfolding is_join_metadata_satisfied
opens = refl

open_join-IsSettled_example : IsSettled [] after_open 3
unfolding includes
open_join-IsSettled_example =
    open_join-IsSettled (steps_of true) after_open (join_by any_success) (λ t _. steps-IsLinked t)
      opens 3 refl

open_join_stable_example :
    is_join_metadata_satisfied after_open (join_by any_success) ≡ (after_open, true)
open_join_stable_example =
    open_join_stable (steps_of true) after_open (join_by any_success) (λ t _. steps-IsLinked t)
      opens

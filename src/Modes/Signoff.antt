-- ===== src/Modes/Signoff.antt =====
-- src/orchestration/control/signoff.ts, the settlement of a peer-quorum signoff, with
-- `isQuorumReached` of src/orchestration/protocol/decisions.ts.
pub mod Votes
use octeam.Prelude.{
  ℕ, suc, String, Bool, false, not, ◌&&◌, Option, none, some, List, [], ◌∷◌, str_eq, eq_string, ltb,
  leb, length, get_or, is_some, if◌then◌else◌, ap,
}
use octeam.Prelude.Assoc.{lookup}
use octeam.Prelude.Member.{includes}
use octeam.Workflow.JoinPolicy.{is_true}
use octeam.Workflow.JoinPolicy.Ieee.{Fraction}
use octeam.Modes.Barriers.{MemberStatus, is_errored}

-- The fields of `MemberState` that a signoff reads.
pub record Reviewer : Type 0 where
  pub name : String
  pub session_id : Option String
  pub status : MemberStatus
  pub is_master : Option Bool

pub data SignoffPolicy : Type 0 where
  off decider peer_quorum : SignoffPolicy

pub record SignoffTask (F : Type 0) : Type 0 where
  pub signoff_stage : Option Bool
  pub signoff_policy : Option SignoffPolicy
  pub signoff_reviewers : Option (List String)
  pub signoff_approvals : Option (List (String × Bool))
  pub signoff_quorum : Option F

-- The reason and the status that the run is finished with.
pub data SignoffOutcome : Type 0 where
  quorum_reached quorum_not_reached : SignoffOutcome

-- An empty id counts as absent.
abbrev pub has_session : Reviewer → Bool
has_session reviewer = elim reviewer.session_id [ none ↦ false | some id ↦ not (str_eq id "") ]

unfoldable pub find_reviewer : List Reviewer → String → Option Reviewer
find_reviewer [] name = none
find_reviewer (member ∷ members) name =
    let rest = find_reviewer members name in if str_eq member.name name then some member else rest

-- Without a recorded roster: all members with a session but the master.
unfoldable pub default_roster : List Reviewer → List String
default_roster [] = []
default_roster (member ∷ members) =
    let rest = default_roster members in
    if not (is_true member.is_master) && has_session member then member.name ∷ rest else rest

-- A reviewer counts while it has a session, unless it errored before it voted.
unfoldable pub counts : List Reviewer → List (String × Bool) → String → Bool
unfolding find_reviewer lookup
counts members approvals name = elim (find_reviewer members name) [
  | none ↦ false
  | some reviewer ↦
      has_session reviewer
      && not (is_errored reviewer.status && not (is_some (lookup name approvals)))
]

unfoldable pub live_reviewers : List Reviewer → List (String × Bool) → List String → List String
unfolding counts
live_reviewers members approvals [] = []
live_reviewers members approvals (name ∷ names) =
    let rest = live_reviewers members approvals names in
    if counts members approvals name then name ∷ rest else rest

unfoldable pub active_approvals : List String → List (String × Bool) → List (String × Bool)
unfolding includes
active_approvals reviewers [] = []
active_approvals reviewers (vote ∷ votes) =
    let rest = active_approvals reviewers votes in
    if includes reviewers vote.0 then vote ∷ rest else rest

unfoldable pub approved_count : List (String × Bool) → ℕ
approved_count [] = 0
approved_count (vote ∷ votes) = let rest = approved_count votes in if vote.1 then suc rest else rest

abbrev is_settling : Option Bool → Option SignoffPolicy → Bool
is_settling stage (some peer_quorum) = is_true stage
is_settling stage _ = false

module _ {F : Type 0} ⦃fr : Fraction F⦄ where
  -- Whether all have responded, and whether the quorum is reached.
  unfoldable pub is_quorum_reached : List (String × Bool) → ℕ → F → Bool × Bool
  unfolding approved_count
  is_quorum_reached approvals reviewer_count quorum =
      let all_responded = leb reviewer_count (length approvals) in
      (
        all_responded,
        all_responded
            && ltb 0 reviewer_count
            && fr.ge (fr.div (approved_count approvals) reviewer_count) quorum,
      )

  -- `none` while the signoff waits. The default quorum 0.5 is the quotient of 1 and 2.
  unfoldable pub settle : List String → List (String × Bool) → F → Option SignoffOutcome
  unfolding is_quorum_reached active_approvals
  settle reviewers approvals quorum =
      let (responded, reached) =
        is_quorum_reached (active_approvals reviewers approvals) (length reviewers) quorum in
      if not responded
      then none
      else if reached
      then some quorum_reached
      else some quorum_not_reached

  unfoldable pub evaluate_signoff_quorum : List Reviewer → SignoffTask F → Option SignoffOutcome
  unfolding settle live_reviewers default_roster
  evaluate_signoff_quorum members task =
      let approvals = get_or task.signoff_approvals [] in
      let roster = get_or task.signoff_reviewers (default_roster members) in
      if is_settling task.signoff_stage task.signoff_policy
      then settle (live_reviewers members approvals roster) approvals
          (get_or task.signoff_quorum (fr.div 1 2))
      else none

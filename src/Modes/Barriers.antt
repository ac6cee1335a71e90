-- ===== src/Modes/Barriers.antt =====
-- src/orchestration/control/barriers.ts: a phase goes on once each of its members is ready.
use octeam.Prelude.{
  String, Bool, true, false, ◌&&◌, Option, none, some, List, [], ◌∷◌, str_eq, all, if◌then◌else◌,
}
use octeam.Workflow.JoinPolicy.{is_true}

pub data MemberStatus : Type 0 where
  pending running idle errored : MemberStatus

-- The fields of `MemberState` that a barrier and a tally read.
pub record Member : Type 0 where
  pub name : String
  pub status : MemberStatus
  pub declared_done : Option Bool

-- `members.find(candidate => candidate.name === name)`
unfoldable pub find_member : List Member → String → Option Member
find_member [] name = none
find_member (member ∷ members) name =
    let rest = find_member members name in if str_eq member.name name then some member else rest

abbrev pub is_idle : MemberStatus → Bool
is_idle idle = true
is_idle _ = false

abbrev pub is_errored : MemberStatus → Bool
is_errored errored = true
is_errored _ = false

unfoldable pub is_ready : List Member → Bool → String → Bool
unfolding find_member
is_ready members require_done_ack name = elim (find_member members name) [
  | none ↦ false
  | some member ↦
      if is_errored member.status
      then true
      else if require_done_ack
      then is_true member.declared_done && is_idle member.status
      else is_idle member.status
]

-- The state after the call; `on_barrier` is the transition that the caller supplies.
unfoldable pub maybe_advance_barrier {ℓ} :
    {S : Type ℓ} → List Member → Option Bool → List String → (S → S) → S → S
unfolding is_ready
maybe_advance_barrier members require_done_ack names on_barrier s =
    if all (is_ready members (is_true require_done_ack)) names then on_barrier s else s

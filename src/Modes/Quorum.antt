-- ===== src/Modes/Quorum.antt =====
-- src/orchestration/modes/quorum.ts: each participant casts a ballot, and a strict majority of the
-- valid ballots decides. The tagged JSON of a ballot and `trim` are parameters; a finished run is
-- the value `Finish`, with the arguments of `finishRun`.
pub mod Counting
pub mod Verdict
pub mod Majority
use octeam.Prelude.{
  ℕ, ◌+◌, ◌-◌, ◌/◌, String, Bool, true, false, ◌&&◌, Option, none, some, List, [], ◌∷◌, str_eq, ltb,
  leb, nat_eq, length, map, get_or, eq_string, if◌then◌else◌,
}
use octeam.Prelude.Assoc.{lookup, insert}
use octeam.Prelude.Member.{includes}
use octeam.Modes.Barriers.{Member, find_member, is_errored, maybe_advance_barrier}

pub data BallotStatus : Type 0 where
  valid invalid errored : BallotStatus

pub record Ballot : Type 0 where
  pub vote : String
  pub rationale : Option String
  pub status : BallotStatus

-- A field of the parsed ballot, as `typeof` tells it.
pub data Json : Type 0 where
  text : String → Json
  other : Json

pub record QuorumTask : Type 0 where
  pub vote_key : String
  pub vote_options : Option (List String)
  pub participants : List String
  pub responses : List (String × String)
  pub require_done_ack : Option Bool
  pub ballots : Option (List (String × Ballot))
  pub errored_count : Option ℕ
  pub n_eff : Option ℕ
  pub threshold : Option ℕ
  pub winning_option : Option String

-- The reasons of the four ways to finish.
pub data Reason : Type 0 where
  all_abstained : ℕ → ℕ → Reason
  all_errored all_malformed no_majority : Reason
  succeeded : String → Reason

-- `none` while the run goes on.
pub record QuorumState : Type 0 where
  pub task : QuorumTask
  pub finished : Option Reason

pub record Tally : Type 0 where
  pub ballots : List (String × Ballot)
  pub abstain_count : ℕ
  pub malformed_count : ℕ
  pub errored_member_count : ℕ

abbrev invalid_ballot : String → Ballot
invalid_ballot vote = record { vote = vote; rationale = none; status = invalid }

abbrev pub errored_ballot : Ballot
errored_ballot = record { vote = ""; rationale = none; status = errored }

abbrev text_of : Option Json → Option String
text_of (some (text s)) = some s
text_of _ = none

abbrev pub is_valid : Ballot → Bool
is_valid ballot = elim ballot.status [ valid ↦ true | _ ↦ false ]

unfoldable pub is_errored_member : List Member → String → Bool
unfolding find_member
is_errored_member members name = elim (find_member members name) [
  | none ↦ false
  | some member ↦ is_errored member.status
]

module _ (extract_tagged_json : String → Option (List (String × Json)))
    (trim : String → String) where
  unfoldable check_vote : List (String × Json) → Option (List String) → String → Ballot
  unfolding lookup includes
  check_vote parsed options vote = if str_eq vote "" then invalid_ballot "" else elim options [
    | none ↦ record { vote = vote; rationale = text_of (lookup "rationale" parsed); status = valid }
    | some names ↦
        if includes (map trim names) vote
        then record { vote = vote; rationale = text_of (lookup "rationale" parsed); status = valid }
        else invalid_ballot vote
  ]

  unfoldable pub parse_ballot : Option String → String → Option (List String) → Ballot
  unfolding check_vote lookup
  parse_ballot none vote_key options = invalid_ballot ""
  parse_ballot (some output) vote_key options =
      if str_eq output "" then invalid_ballot "" else elim (extract_tagged_json output) [
        | none ↦ invalid_ballot ""
        | some parsed ↦ elim (text_of (lookup vote_key parsed)) [
          | none ↦ invalid_ballot ""
          | some raw ↦ check_vote parsed options (trim raw)
        ]
      ]

  -- The body of the first loop.
  unfoldable pub take_ballot : List Member → QuorumTask → String → Tally → Tally
  unfolding is_errored_member parse_ballot insert lookup
  take_ballot members task name tally =
      let ballot = parse_ballot (lookup name task.responses) task.vote_key task.vote_options in
      if is_errored_member members name
      then record tally {
        ballots = insert name errored_ballot tally.ballots;
        abstain_count = tally.abstain_count + 1;
        errored_member_count = tally.errored_member_count + 1;
      }
      else if is_valid ballot
      then record tally { ballots = insert name ballot tally.ballots }
      else record tally {
        ballots = insert name ballot tally.ballots;
        abstain_count = tally.abstain_count + 1;
        malformed_count = tally.malformed_count + 1;
      }

  unfoldable pub take_ballots : List Member → QuorumTask → List String → Tally → Tally
  unfolding take_ballot
  take_ballots members task [] tally = tally
  take_ballots members task (name ∷ names) tally =
      take_ballots members task names (take_ballot members task name tally)

-- `counts[b.vote] = (counts[b.vote] ?? 0) + 1` for each participant with a valid ballot
unfoldable pub count_vote : Option Ballot → List (String × ℕ) → List (String × ℕ)
unfolding insert lookup
count_vote none counts = counts
count_vote (some ballot) counts =
    if is_valid ballot
    then insert ballot.vote (get_or (lookup ballot.vote counts) 0 + 1) counts
    else counts

unfoldable pub count_votes :
    List (String × Ballot) → List String → List (String × ℕ) → List (String × ℕ)
unfolding count_vote lookup
count_votes ballots [] counts = counts
count_votes ballots (name ∷ names) counts =
    count_votes ballots names (count_vote (lookup name ballots) counts)

unfoldable pub find_winner : ℕ → List (String × ℕ) → Option String
find_winner threshold [] = none
find_winner threshold (entry ∷ counts) =
    let rest = find_winner threshold counts in if leb threshold entry.1 then some entry.0 else rest

unfoldable pub abstained_reason : Tally → Reason
abstained_reason tally =
    if ltb 0 tally.errored_member_count && ltb 0 tally.malformed_count
    then all_abstained tally.errored_member_count tally.malformed_count
    else if ltb 0 tally.errored_member_count
    then all_errored
    else all_malformed

abbrev pub no_ballots : Tally
no_ballots = record {
  ballots = [];
  abstain_count = 0;
  malformed_count = 0;
  errored_member_count = 0;
}

-- The verdict on a tally, from the fields that the handler writes.
unfoldable pub decide : QuorumTask → Tally → QuorumState
unfolding count_votes find_winner abstained_reason
decide task tally =
    let n_eff = length task.participants - tally.abstain_count in
    let threshold = n_eff / 2 + 1 in
    let counted = record task {
      ballots = some tally.ballots;
      errored_count = some tally.abstain_count;
      n_eff = some n_eff;
      threshold = some threshold;
    } in
    if nat_eq n_eff 0
    then record { task = counted; finished = some (abstained_reason tally) }
    else elim (find_winner threshold (count_votes tally.ballots task.participants [])) [
      | none ↦ record { task = counted; finished = some no_majority }
      | some option ↦ record {
        task = record counted { winning_option = some option };
        finished = some (succeeded option);
      }
    ]

module _ (extract_tagged_json : String → Option (List (String × Json)))
    (trim : String → String) where
  unfoldable pub handle_quorum_idle : List Member → QuorumState → QuorumState
  unfolding maybe_advance_barrier take_ballots decide
  handle_quorum_idle members s =
      maybe_advance_barrier members s.task.require_done_ack s.task.participants
        (λ at.
          decide at.task
            (take_ballots extract_tagged_json trim members at.task at.task.participants no_ballots))
        s

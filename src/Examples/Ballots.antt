-- ===== src/Examples/Ballots.antt =====
-- A vote of three members on two options.
use octeam.Prelude.{
  ◌*◌, ◌≤◌, ◌<◌, ◌≡◌, ◌⊎◌, ◌↔◌, refl, String, true, none, some, Option, List, [], ◌∷◌,
}
use octeam.Modes.Barriers.{Member, MemberStatus, idle, errored, running}
use octeam.Modes.Quorum.{
  Json, text, QuorumState, Reason, succeeded, no_majority, handle_quorum_idle,
}
use octeam.Modes.Quorum.Counting.{valid_count, votes_for}
use octeam.Modes.Quorum.Verdict.{is_abstained}
use octeam.Modes.Quorum.Majority.{ballot_of, quorum_majority, quorum_settles}

abbrev member : String → MemberStatus → Member
member name status = record { name = name; status = status; declared_done = none }

-- Each output is the vote itself.
abbrev extract : String → Option (List (String × Json))
extract output = some (("vote", text output) ∷ [])

abbrev trim : String → String
trim s = s

abbrev vote : QuorumState
vote = record {
  task = record {
    vote_key = "vote";
    vote_options = some ("yes" ∷ "no" ∷ []);
    participants = "ann" ∷ "bob" ∷ "cem" ∷ [];
    responses = ("ann", "yes") ∷ ("bob", "no") ∷ ("cem", "yes") ∷ [];
    require_done_ack = none;
    ballots = none;
    errored_count = none;
    n_eff = none;
    threshold = none;
    winning_option = none;
  };
  finished = none;
}

abbrev all_idle : List Member
all_idle = member "ann" idle ∷ member "bob" idle ∷ member "cem" idle ∷ []

abbrev one_errored : List Member
one_errored = member "ann" errored ∷ member "bob" idle ∷ member "cem" idle ∷ []

abbrev one_running : List Member
one_running = member "ann" running ∷ member "bob" idle ∷ member "cem" idle ∷ []

yes_wins : (handle_quorum_idle extract trim all_idle vote).finished ≡ some (succeeded "yes")
unfolding handle_quorum_idle
yes_wins = refl

-- Without the vote of an errored member it is one against one.
no_one_wins : (handle_quorum_idle extract trim one_errored vote).finished ≡ some no_majority
unfolding handle_quorum_idle
no_one_wins = refl

still_waits : handle_quorum_idle extract trim one_running vote ≡ vote
unfolding handle_quorum_idle
still_waits = refl

quorum_majority_example :
    ((handle_quorum_idle extract trim all_idle vote).task.n_eff
      ≡ some (valid_count (ballot_of extract trim all_idle vote.task) vote.task.participants))
    × (((handle_quorum_idle extract trim all_idle vote).finished ≡ some (succeeded "yes")) ↔ (
        valid_count (ballot_of extract trim all_idle vote.task) vote.task.participants
        < 2 * votes_for (ballot_of extract trim all_idle vote.task) "yes" vote.task.participants))
unfolding handle_quorum_idle
quorum_majority_example = quorum_majority extract trim all_idle vote "yes" refl

quorum_settles_example :
    ((valid_count (ballot_of extract trim one_errored vote.task) vote.task.participants ≡ 0)
      × ((reason : Reason) × ((handle_quorum_idle extract trim one_errored vote).finished
            ≡ some reason)
          × (is_abstained reason ≡ true)))
    ⊎ ((option : String) × (valid_count
            (ballot_of extract trim one_errored vote.task)
            vote.task.participants
          < 2
            * votes_for
                (ballot_of extract trim one_errored vote.task)
                option
                vote.task.participants)
        × ((handle_quorum_idle extract trim one_errored vote).finished ≡ some (succeeded option)))
    ⊎ ((0 < valid_count (ballot_of extract trim one_errored vote.task) vote.task.participants)
        × ((handle_quorum_idle extract trim one_errored vote).finished ≡ some no_majority)
        × ((option : String)
            → 2
                * votes_for
                    (ballot_of extract trim one_errored vote.task)
                    option
                    vote.task.participants
              ≤ valid_count (ballot_of extract trim one_errored vote.task) vote.task.participants))
unfolding handle_quorum_idle
quorum_settles_example = quorum_settles extract trim one_errored vote refl

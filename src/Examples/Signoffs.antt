-- ===== src/Examples/Signoffs.antt =====
-- A signoff with two reviewers, one of which errors after its vote.
use octeam.Prelude.{
  String, ◌≡◌, refl, true, false, none, some, List, [], ◌∷◌, arith, eq_string, get_or,
}
use octeam.Prelude.Assoc.{lookup}
use octeam.Workflow.JoinPolicy.Ieee.{Ratio, ratio_fraction}
use octeam.Modes.Barriers.{MemberStatus, idle, errored}
use octeam.Modes.Signoff.{
  Reviewer, peer_quorum, SignoffTask, quorum_reached, find_reviewer, evaluate_signoff_quorum,
}
use octeam.Modes.Signoff.Votes.{is_in_session, has_failed, recorded_votes_stand}

abbrev reviewer : String → MemberStatus → Reviewer
reviewer name status = record {
  name = name;
  session_id = some "session";
  status = status;
  is_master = none;
}

abbrev before : List Reviewer
before = reviewer "ann" idle ∷ reviewer "bob" idle ∷ []

abbrev after : List Reviewer
after = reviewer "ann" errored ∷ reviewer "bob" idle ∷ []

abbrev review : SignoffTask Ratio
review = record {
  signoff_stage = some true;
  signoff_policy = some peer_quorum;
  signoff_reviewers = some ("ann" ∷ "bob" ∷ []);
  signoff_approvals = some (("ann", false) ∷ ("bob", true) ∷ []);
  signoff_quorum = none;
}

half_is_enough : evaluate_signoff_quorum before review ≡ some quorum_reached
unfolding evaluate_signoff_quorum
half_is_enough = refl

same_session :
    (name : String)
    → is_in_session (find_reviewer after name) ≡ is_in_session (find_reviewer before name)
unfolding find_reviewer
same_session name = ground arith

same_failure :
    (name : String)
    → lookup name (get_or review.signoff_approvals []) ≡ none
    → has_failed (find_reviewer after name) ≡ has_failed (find_reviewer before name)
unfolding find_reviewer lookup
same_failure name h = ground (arith, h)

recorded_votes_stand_example :
    evaluate_signoff_quorum after review ≡ evaluate_signoff_quorum before review
recorded_votes_stand_example =
    recorded_votes_stand before after review ("ann" ∷ "bob" ∷ []) refl (λ name m. same_session name)
      (λ name m. same_failure name)

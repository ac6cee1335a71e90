-- ===== src/Modes/Signoff/Votes.antt =====
-- A recorded vote of a signoff stands, whatever becomes of the member that cast it.
use octeam.Prelude.{
  String, ◌≡◌, Bool, true, false, not, ◌&&◌, Option, none, some, List, [], ◌∷◌, arith, eq_string,
  eq_iff, get_or, is_some, refl, Option-cases, inl, inr,
}
use octeam.Prelude.Assoc.{lookup}
use octeam.Prelude.Member.{includes}
use octeam.Workflow.JoinPolicy.Ieee.{Fraction}
use octeam.Modes.Barriers.{is_errored}
use octeam.Modes.Signoff.{
  Reviewer, SignoffTask, has_session, find_reviewer, counts, live_reviewers,
  evaluate_signoff_quorum,
}

-- What a settlement reads of a member.
abbrev pub is_in_session : Option Reviewer → Bool
is_in_session none = false
is_in_session (some reviewer) = has_session reviewer

abbrev pub has_failed : Option Reviewer → Bool
has_failed none = false
has_failed (some reviewer) = is_errored reviewer.status

counts_by :
    (members : List Reviewer) (approvals : List (String × Bool)) (name : String)
    → counts members approvals name ≡ (
        is_in_session (find_reviewer members name)
        && not (has_failed (find_reviewer members name) && not (is_some (lookup name approvals))))
unfolding counts
counts_by members approvals name = elim (Option-cases (find_reviewer members name)) [
  | inl e ↦ ground (arith, e)
  | inr (reviewer, e) ↦ ground (arith, e)
]

same_live :
    (before after : List Reviewer) (approvals : List (String × Bool)) (names : List String)
    → ((name : String)
        → includes names name ≡ true
        → counts after approvals name ≡ counts before approvals name)
    → live_reviewers after approvals names ≡ live_reviewers before approvals names
unfolding live_reviewers includes
same_live before after approvals [] h = refl
same_live before after approvals (name ∷ names) h = ground (
  arith,
  h name,
  eq_iff name name,
  same_live before after approvals names (λ x m. h x (ground (arith, m))),
)

module _ {F : Type 0} ⦃fr : Fraction F⦄ where
  -- The settlement of a signoff with a recorded roster is the same for two states of the members that
  -- agree, for each name of the roster, on whether the member has a session and, where it has not
  -- voted, on whether it has errored. An error after the vote thus changes nothing.
  pub recorded_votes_stand :
      (before after : List Reviewer) (task : SignoffTask F) (roster : List String)
      → task.signoff_reviewers ≡ some roster
      → ((name : String)
          → includes roster name ≡ true
          → is_in_session (find_reviewer after name) ≡ is_in_session (find_reviewer before name))
      → ((name : String)
          → includes roster name ≡ true
          → lookup name (get_or task.signoff_approvals []) ≡ none
          → has_failed (find_reviewer after name) ≡ has_failed (find_reviewer before name))
      → evaluate_signoff_quorum after task ≡ evaluate_signoff_quorum before task
  unfolding evaluate_signoff_quorum
  recorded_votes_stand before after task roster recorded session error =
      let approvals = get_or task.signoff_approvals [] in
      ground (
        arith,
        recorded,
        same_live before after approvals roster (λ name m. ground (
          arith,
          counts_by after approvals name,
          counts_by before approvals name,
          session name m,
          error name m,
          Option-cases (lookup name approvals),
        )),
      )

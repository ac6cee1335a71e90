-- ===== src/Modes/Quorum/Majority.antt =====
-- The verdict of quorum.ts against the ballots: who votes for what, and who wins.
use octeam.Prelude.{
  ◌+◌, ◌-◌, ◌*◌, ◌/◌, ◌≤◌, ◌<◌, ◌≡◌, ◌⊎◌, ◌↔◌, inl, inr, refl, subst, ap, ◌∙◌, String, true, Option,
  some, List, [], ◌∷◌, arith, str_eq, eq_string, eq_iff, length, get_or, all, if◌then◌else◌,
  Bool-cases, Option-cases,
}
use octeam.Prelude.Assoc.{lookup, lookup-insert}
use octeam.Prelude.Member.{includes}
use octeam.Workflow.JoinPolicy.{is_true}
use octeam.Modes.Barriers.{Member, is_ready, maybe_advance_barrier}
use octeam.Modes.Quorum.{
  Ballot, Json, QuorumTask, QuorumState, Reason, succeeded, no_majority, Tally, errored_ballot,
  is_errored_member, parse_ballot, take_ballot, take_ballots, count_votes, find_winner, no_ballots,
  decide, handle_quorum_idle,
}
use octeam.Modes.Quorum.Verdict.{decide-succeeded, Decided, decide-Decided, is_abstained, no_most}
use octeam.Modes.Quorum.Counting.{
  valid_count, votes_for, votes_for-le, votes_for_apart, count_votes-UniqueKeys,
  count_votes-votes_for, find_winner-some, find_winner-none,
}

counted :
    (ballots : List (String × Ballot)) (ballot : String → Ballot) (names : List String)
    (option : String)
    → ((name : String) → includes names name ≡ true → lookup name ballots ≡ some (ballot name))
    → get_or (lookup option (count_votes ballots names [])) 0 ≡ votes_for ballot option names
unfolding lookup
counted ballots ballot names option h =
    omega (arith, count_votes-votes_for ballots ballot option names [] h)

-- The threshold is a strict majority: one option at most reaches it, and the search finds it.
pub winner-votes_for :
    (ballots : List (String × Ballot)) (ballot : String → Ballot) (names : List String)
    (option : String)
    → ((name : String) → includes names name ≡ true → lookup name ballots ≡ some (ballot name))
    → (find_winner (valid_count ballot names / 2 + 1) (count_votes ballots names []) ≡ some option)
      ↔ (valid_count ballot names < 2 * votes_for ballot option names)
winner-votes_for ballots ballot names option h =
    let threshold = valid_count ballot names / 2 + 1 in
    let counts = count_votes ballots names [] in
    let unique = count_votes-UniqueKeys ballots names [] tt in
    let votes = λ (o : String). counted ballots ballot names o h in
    (
      λ found. omega (arith, find_winner-some threshold counts option unique found, votes option),
      λ most. elim (Option-cases (find_winner threshold counts)) [
        | inl missed ↦ absurd (
            omega
              (arith, find_winner-none threshold counts option (omega arith) missed, votes option))
        | inr (other, found) ↦ elim (Bool-cases (str_eq other option)) [
          | inl same ↦ found ∙ ap some ((eq_iff other option).0 same)
          | inr ne ↦ absurd (
              omega (
                arith,
                find_winner-some threshold counts other unique found,
                votes other,
                votes_for_apart ballot other option names
                    (λ e. ground (arith, ne, eq_iff other option, e)),
              ))
        ]
      ],
    )

module _ (extract_tagged_json : String → Option (List (String × Json))) (trim : String → String)
    (members : List Member) where
  -- The ballot of a participant: that of an errored member counts as errored, whatever it wrote.
  abbrev pub ballot_of : QuorumTask → String → Ballot
  ballot_of task name =
      if is_errored_member members name
      then errored_ballot
      else parse_ballot extract_tagged_json trim (lookup name task.responses) task.vote_key
          task.vote_options

  lookup-take_ballots :
      (task : QuorumTask) (names : List String) (tally : Tally) (other : String)
      → lookup other (take_ballots extract_tagged_json trim members task names tally).ballots
        ≡ (if includes names other then some (ballot_of task other) else lookup other tally.ballots)
  unfolding take_ballots take_ballot includes
  lookup-take_ballots task [] tally other = refl
  lookup-take_ballots task (name ∷ names) tally other = ground (
    arith,
    lookup-take_ballots task names (take_ballot extract_tagged_json trim members task name tally)
        other,
    lookup-insert name other (ballot_of task name) tally.ballots,
    eq_iff name other,
  )

  -- Each participant either has a valid ballot or abstains.
  take_ballots-abstain :
      (task : QuorumTask) (names : List String) (tally : Tally)
      → (take_ballots extract_tagged_json trim members task names tally).abstain_count
          + valid_count (ballot_of task) names
        ≡ tally.abstain_count + length names
  unfolding take_ballots take_ballot
  take_ballots-abstain task [] tally = refl
  take_ballots-abstain task (name ∷ names) tally = ground (
    arith,
    take_ballots-abstain task names (take_ballot extract_tagged_json trim members task name tally),
  )

  taken : QuorumTask → Tally
  unfolding take_ballots
  taken task = take_ballots extract_tagged_json trim members task task.participants no_ballots

  valid_count-taken :
      (task : QuorumTask)
      → length task.participants - (taken task).abstain_count
        ≡ valid_count (ballot_of task) task.participants
  unfolding taken
  valid_count-taken task = omega (arith, take_ballots-abstain task task.participants no_ballots)

  winner-taken :
      (task : QuorumTask) (option : String)
      → (find_winner
            (valid_count (ballot_of task) task.participants / 2 + 1)
            (count_votes (taken task).ballots task.participants [])
          ≡ some option)
        ↔ (valid_count (ballot_of task) task.participants
            < 2 * votes_for (ballot_of task) option task.participants)
  unfolding taken
  winner-taken task option =
      winner-votes_for (taken task).ballots (ballot_of task) task.participants option
        (λ name m. ground (arith, lookup-take_ballots task task.participants no_ballots name, m))

  handled :
      (s : QuorumState)
      → all (is_ready members (is_true s.task.require_done_ack)) s.task.participants ≡ true
      → handle_quorum_idle extract_tagged_json trim members s ≡ decide s.task (taken s.task)
  unfolding handle_quorum_idle maybe_advance_barrier taken
  handled s ready = rw (handle_quorum_idle, maybe_advance_barrier, ready) refl

  -- Once every participant is ready, the handler records how many valid ballots there are, and the
  -- run succeeds with an option exactly when more than half of the valid ballots are for it, where
  -- the ballot of a participant that errored counts as errored, whatever it wrote.
  pub quorum_majority :
      (s : QuorumState) (option : String)
      → all (is_ready members (is_true s.task.require_done_ack)) s.task.participants ≡ true
      → ((handle_quorum_idle extract_tagged_json trim members s).task.n_eff
          ≡ some (valid_count (ballot_of s.task) s.task.participants))
        × (((handle_quorum_idle extract_tagged_json trim members s).finished
              ≡ some (succeeded option))
            ↔ (valid_count (ballot_of s.task) s.task.participants
                < 2 * votes_for (ballot_of s.task) option s.task.participants))
  quorum_majority s option ready =
      let n = valid_count (ballot_of s.task) s.task.participants in
      let (counted, decided) =
        decide-succeeded s.task (taken s.task) n option (valid_count-taken s.task) in
      let winner = winner-taken s.task option in
      let few = votes_for-le (ballot_of s.task) option s.task.participants in
      rw (handled s ready) (
        counted,
        (
          λ h. winner.0 (decided.0 h).1,
          λ most. decided.1 (omega (arith, most, few), winner.1 most),
        ),
      )

  -- Once every participant is ready, the run finishes: without a valid ballot, with one of the
  -- reasons for that; with an option that more than half of the valid ballots are for; or, where
  -- there are valid ballots and no option has more than half of them, with no majority.
  pub quorum_settles :
      (s : QuorumState)
      → all (is_ready members (is_true s.task.require_done_ack)) s.task.participants ≡ true
      → ((valid_count (ballot_of s.task) s.task.participants ≡ 0)
          × ((reason : Reason) × ((handle_quorum_idle extract_tagged_json trim members s).finished
                ≡ some reason)
              × (is_abstained reason ≡ true)))
        ⊎ ((option : String) × (valid_count (ballot_of s.task) s.task.participants
              < 2 * votes_for (ballot_of s.task) option s.task.participants)
            × ((handle_quorum_idle extract_tagged_json trim members s).finished
                ≡ some (succeeded option)))
        ⊎ ((0 < valid_count (ballot_of s.task) s.task.participants)
            × ((handle_quorum_idle extract_tagged_json trim members s).finished ≡ some no_majority)
            × ((option : String)
                → 2 * votes_for (ballot_of s.task) option s.task.participants
                  ≤ valid_count (ballot_of s.task) s.task.participants))
  quorum_settles s ready =
      rw (handled s ready)
        (elim (subst (Decided s.task (taken s.task)) (valid_count-taken s.task)
          (decide-Decided s.task (taken s.task))) [
            | inl (empty, finished) ↦ inl (empty, finished)
            | inr (inl (option, found, finished)) ↦
                inr (inl (option, (winner-taken s.task option).0 found, finished))
            | inr (inr (some_ballot, missed, finished)) ↦ inr (
                inr
                  (some_ballot, finished, λ option. no_most missed (winner-taken s.task option).1))
          ])

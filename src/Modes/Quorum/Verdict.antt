-- ===== src/Modes/Quorum/Verdict.antt =====
-- The last part of quorum.ts: the verdict on a tally.
use octeam.Prelude.{
  ℕ, ◌+◌, ◌-◌, ◌/◌, ◌≤◌, ◌<◌, ◌≡◌, ◌≢◌, ◌⊎◌, ◌↔◌, inl, inr, refl, String, Bool, true, false, Option,
  none, some, [], arith, eq_string, length, nat_eq, nat_eq_iff, Bool-cases, Option-cases,
}
use octeam.Modes.Quorum.{
  QuorumTask, Reason, succeeded, all_abstained, all_errored, all_malformed, no_majority, Tally,
  abstained_reason, count_votes, find_winner, decide,
}

abstained-succeeded : (tally : Tally) (option : String) → abstained_reason tally ≢ succeeded option
unfolding abstained_reason
abstained-succeeded tally option e = ground (arith, e)

-- A verdict names an option exactly when there is a valid ballot and the search finds the option.
pub decide-succeeded :
    (task : QuorumTask) (tally : Tally) (n : ℕ) (option : String)
    → length task.participants - tally.abstain_count ≡ n
    → ((decide task tally).task.n_eff ≡ some n)
      × (((decide task tally).finished ≡ some (succeeded option)) ↔ (
          (0 < n)
          × (find_winner (n / 2 + 1) (count_votes tally.ballots task.participants [])
              ≡ some option)))
unfolding decide
decide-succeeded task tally n option e = elim (Bool-cases (nat_eq n 0)) [
  | inl empty ↦ rw (decide, e, empty) (ground (arith, abstained-succeeded tally option, empty))
  | inr some_ballot ↦
      elim (Option-cases
        (find_winner (n / 2 + 1) (count_votes tally.ballots task.participants []))) [
          | inl missed ↦ rw (decide, e, some_ballot, missed) (ground (arith, some_ballot))
          | inr (o, found) ↦ rw (decide, e, some_ballot, found) (ground (arith, some_ballot))
        ]
]

-- The reasons for a run in which nobody cast a valid ballot.
abbrev pub is_abstained : Reason → Bool
is_abstained (all_abstained e m) = true
is_abstained all_errored = true
is_abstained all_malformed = true
is_abstained _ = false

abstained_reason-is_abstained : (tally : Tally) → is_abstained (abstained_reason tally) ≡ true
unfolding abstained_reason
abstained_reason-is_abstained tally = ground arith

-- The three kinds of verdict on `n` valid ballots.
abbrev pub Decided : QuorumTask → Tally → ℕ → Type 0
Decided task tally n =
    ((n ≡ 0)
      × ((reason : Reason) × ((decide task tally).finished ≡ some reason)
          × (is_abstained reason ≡ true)))
    ⊎ ((option : String) × (find_winner (n / 2 + 1) (count_votes tally.ballots task.participants [])
          ≡ some option)
        × ((decide task tally).finished ≡ some (succeeded option)))
    ⊎ ((0 < n)
        × (find_winner (n / 2 + 1) (count_votes tally.ballots task.participants []) ≡ none)
        × ((decide task tally).finished ≡ some no_majority))

pub decide-Decided :
    (task : QuorumTask) (tally : Tally)
    → Decided task tally (length task.participants - tally.abstain_count)
unfolding decide
decide-Decided task tally =
    let n = length task.participants - tally.abstain_count in
    let winner = find_winner (n / 2 + 1) (count_votes tally.ballots task.participants []) in
    elim (Bool-cases (nat_eq n 0)) [
      | inl empty ↦ inl (
        (nat_eq_iff n 0).0 empty,
        (abstained_reason tally, rw (decide, empty) refl, abstained_reason-is_abstained tally),
      )
      | inr some_ballot ↦ elim (Option-cases winner) [
        | inl missed ↦
            inr (inr (ground (arith, some_ballot), missed, rw (decide, some_ballot, missed) refl))
        | inr (o, found) ↦ inr (inl (o, found, rw (decide, some_ballot, found) refl))
      ]
    ]

pub no_most :
    {w : Option String} {option : String} {n m : ℕ} → w ≡ none → (n < m → w ≡ some option) → m ≤ n
no_most missed h = ground (arith, missed, h)

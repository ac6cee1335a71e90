-- ===== src/Modes/Quorum/Counting.antt =====
-- What the loops of quorum.ts count.
use octeam.Prelude.{
  ℕ, suc, ◌+◌, ◌≤◌, ◌<◌, ◌≡◌, ◌≢◌, inl, inr, refl, String, true, ◌&&◌, none, some, List, [], ◌∷◌,
  arith, str_eq, eq_string, eq_iff, get_or, if◌then◌else◌, Option-cases,
}
use octeam.Prelude.Assoc.{lookup, insert, lookup-insert}
use octeam.Prelude.Member.{includes}
use octeam.Modes.Quorum.{Ballot, is_valid, count_vote, count_votes, find_winner}

-- How many of the names have a valid ballot, and how many one for an option.
abbrev pub valid_count : (String → Ballot) → List String → ℕ
valid_count ballot [] = 0
valid_count ballot (name ∷ names) =
    let rest = valid_count ballot names in if is_valid (ballot name) then suc rest else rest

abbrev pub votes_for : (String → Ballot) → String → List String → ℕ
votes_for ballot option [] = 0
votes_for ballot option (name ∷ names) =
    let rest = votes_for ballot option names in
    if is_valid (ballot name) && str_eq (ballot name).vote option then suc rest else rest

pub votes_for-le :
    (ballot : String → Ballot) (option : String) (names : List String)
    → votes_for ballot option names ≤ valid_count ballot names
votes_for-le ballot option [] = omega arith
votes_for-le ballot option (name ∷ names) = ground (arith, votes_for-le ballot option names)

-- Two options share the valid ballots.
pub votes_for_apart :
    (ballot : String → Ballot) (one two : String) (names : List String)
    → one ≢ two
    → votes_for ballot one names + votes_for ballot two names ≤ valid_count ballot names
votes_for_apart ballot one two [] ne = omega arith
votes_for_apart ballot one two (name ∷ names) ne = ground (
  arith,
  votes_for_apart ballot one two names ne,
  eq_iff (ballot name).vote one,
  eq_iff (ballot name).vote two,
)

-- No key twice.
abbrev pub UniqueKeys : List (String × ℕ) → Type 0
UniqueKeys [] = Unit
UniqueKeys (entry ∷ entries) = (lookup entry.0 entries ≡ none) × UniqueKeys entries

insert-UniqueKeys :
    (key : String) (value : ℕ) (entries : List (String × ℕ))
    → UniqueKeys entries
    → UniqueKeys (insert key value entries)
unfolding insert lookup
insert-UniqueKeys key value [] u = (refl, tt)
insert-UniqueKeys key value ((old, v) ∷ entries) u = ground (
  arith,
  insert-UniqueKeys key value entries u.1,
  lookup-insert key old value entries,
  eq_iff old key,
  eq_iff key old,
)

pub count_votes-UniqueKeys :
    (ballots : List (String × Ballot)) (names : List String) (counts : List (String × ℕ))
    → UniqueKeys counts
    → UniqueKeys (count_votes ballots names counts)
unfolding count_votes count_vote
count_votes-UniqueKeys ballots [] counts u = u
count_votes-UniqueKeys ballots (name ∷ names) counts u = elim (Option-cases (lookup name ballots)) [
  | inl e ↦ rw (count_votes, e) (count_votes-UniqueKeys ballots names counts u)
  | inr (b, e) ↦
      rw (count_votes, e)
        (count_votes-UniqueKeys ballots names (count_vote (some b) counts)
          (ground (arith, insert-UniqueKeys b.vote (get_or (lookup b.vote counts) 0 + 1) counts u)))
]

pub count_votes-votes_for :
    (ballots : List (String × Ballot)) (ballot : String → Ballot) (option : String)
    (names : List String) (counts : List (String × ℕ))
    → ((name : String) → includes names name ≡ true → lookup name ballots ≡ some (ballot name))
    → get_or (lookup option (count_votes ballots names counts)) 0
      ≡ get_or (lookup option counts) 0 + votes_for ballot option names
unfolding count_votes count_vote includes
count_votes-votes_for ballots ballot option [] counts h = omega arith
count_votes-votes_for ballots ballot option (name ∷ names) counts h =
    let b = ballot name in
    ground (
      arith,
      h name,
      eq_iff name name,
      lookup-insert b.vote option (get_or (lookup b.vote counts) 0 + 1) counts,
      eq_iff b.vote option,
      count_votes-votes_for ballots ballot option names (count_vote (some b) counts)
          (λ x m. h x (ground (arith, m))),
    )

pub find_winner-some :
    (threshold : ℕ) (entries : List (String × ℕ)) (option : String)
    → UniqueKeys entries
    → find_winner threshold entries ≡ some option
    → threshold ≤ get_or (lookup option entries) 0
unfolding find_winner lookup
find_winner-some threshold [] option u h = absurd (cc)
find_winner-some threshold ((key, count) ∷ entries) option u h =
    ground (arith, find_winner-some threshold entries option u.1, eq_iff key option, u.0)

pub find_winner-none :
    (threshold : ℕ) (entries : List (String × ℕ)) (option : String)
    → 0 < threshold
    → find_winner threshold entries ≡ none
    → get_or (lookup option entries) 0 < threshold
unfolding find_winner lookup
find_winner-none threshold [] option p h = ground (arith, p)
find_winner-none threshold ((key, count) ∷ entries) option p h =
    ground (arith, find_winner-none threshold entries option p, p)

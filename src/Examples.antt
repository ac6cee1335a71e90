-- ===== src/Examples.antt =====
-- The theorems at concrete inputs, and runs of the definitions.
mod Texts
mod Steps
mod JoinPolicies
mod Joins
mod ReadySets
mod Actors
mod TaskList
mod ClaimRuns
mod Fanouts
mod Ballots
mod Checks
mod Signoffs
mod Gates
mod Jumps
mod Verdicts
mod Workflows
mod Dispatches
mod Advances
mod Loops
mod Saves
mod Merges

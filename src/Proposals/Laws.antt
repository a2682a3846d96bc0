-- ===== src/Proposals/Laws.antt =====
-- The numbers of votes fit together.
use ic_govmind.Base.{ℕ, ◌+◌, ◌≤◌, Bool, List, [], ◌∷◌, length, keep, if◌then◌else◌, arith}
use ic_govmind.Js.Text.{Text, codes, text_eq}
use ic_govmind.Proposals.{Vote, chooses, count, weight_of, calculate_vote_stats}

disjoint :
    (t : Text)
    → (if text_eq t (codes "Yes") then 1 else 0)
        + ((if text_eq t (codes "No") then 1 else 0)
            + (if text_eq t (codes "Abstain") then 1 else 0))
      ≤ 1
unfolding text_eq
disjoint [] = omega arith
disjoint (a ∷ t) = ground arith

counts_le :
    (votes : List Vote)
    → count (codes "Yes") votes + (count (codes "No") votes + count (codes "Abstain") votes)
      ≤ length votes
counts_le [] = omega arith
counts_le (v ∷ votes) = ground (arith, disjoint v.choice, counts_le votes)

weight-keep-le :
    (test : Vote → Bool) (votes : List Vote) → weight_of (keep test votes) ≤ weight_of votes
unfolding weight_of
weight-keep-le test [] = omega arith
weight-keep-le test (v ∷ votes) = ground (arith, weight-keep-le test votes)

-- No vote is counted for two choices, so that the three counts together are at most the number of
-- votes, and the weight in favour is at most the whole weight.
pub calculate_vote_stats_le :
    (percent : ℕ → ℕ → ℕ) (votes : List Vote)
    → (let s = calculate_vote_stats percent votes in
        (s.yes_votes + (s.no_votes + s.abstain_votes) ≤ s.total_votes)
        × (s.yes_weight ≤ s.total_weight))
unfolding calculate_vote_stats
calculate_vote_stats_le percent votes =
    (counts_le votes, weight-keep-le (chooses (codes "Yes")) votes)

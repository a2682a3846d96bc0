-- ===== src/Proposals/Tests.antt =====
-- A count of votes, and the theorem at it.
use ic_govmind.Base.{◌+◌, ◌≤◌, ◌≡◌, refl, List, [], ◌∷◌}
use ic_govmind.Js.Text.{codes, text_eq}
use ic_govmind.Proposals.{Vote, weight_of, calculate_vote_stats}
use ic_govmind.Proposals.Laws.{calculate_vote_stats_le}

abbrev votes : List Vote
votes =
    (record { choice = codes "Yes"; weight = 30 })
    ∷ (record { choice = codes "No"; weight = 10 })
    ∷ (record { choice = codes "Yes"; weight = 5 })
    ∷ []

counts :
    ((calculate_vote_stats (λ y t. 78) votes).yes_votes ≡ 2)
    × ((calculate_vote_stats (λ y t. 78) votes).yes_weight ≡ 35)
unfolding calculate_vote_stats text_eq weight_of
counts = (refl, refl)

calculate_vote_stats_le_sample :
    (let s = calculate_vote_stats (λ y t. 78) votes in
      (s.yes_votes + (s.no_votes + s.abstain_votes) ≤ s.total_votes)
      × (s.yes_weight ≤ s.total_weight))
calculate_vote_stats_le_sample = calculate_vote_stats_le (λ y t. 78) votes

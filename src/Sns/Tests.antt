-- ===== src/Sns/Tests.antt =====
-- A proposal of a canister, and the theorem about its identifier.
use ic_govmind.Base.{leb, true, ℕ, ◌++◌, some, ◌≡◌, refl, false, []}
use ic_govmind.Js.Text.{Text, codes}
use ic_govmind.Js.Decimal.{decimal}
use ic_govmind.Sns.{RawProposal, shown_proposal}
use ic_govmind.Treasury.Whole.{whole, whole-IsRounded}
use ic_govmind.Sns.Votes.{
  format_vote_count, format_large_number, calculate_vote_percentage, RoundsWell,
  calculate_vote_percentage-IsShare,
}
use ic_govmind.Sns.Laws.{composite_id-shown_proposal}

abbrev proposal : RawProposal
proposal = record {
  id = 12;
  title = codes "t";
  summary = [];
  status = codes "Open";
  executed = false;
  executed_at = [];
  proposer = codes "p";
  votes_for = 1;
  votes_against = 0;
  total_votes = 1;
}

identifier : (shown_proposal (λ n. n) (λ n. n) (codes "aaa") proposal).composite_id ≡ codes "aaa-12"
unfolding shown_proposal decimal
identifier = refl

composite_id-shown_proposal_sample : proposal.id ≡ proposal.id
composite_id-shown_proposal_sample =
    composite_id-shown_proposal (λ n. n) (λ n. n) (codes "aaa") proposal proposal refl refl refl

abbrev digits_then : ℕ → ℕ → Text
unfolding decimal
digits_then places n = decimal n ++ codes ".0"

-- A billion votes are millions to both functions.
a_billion :
    (format_vote_count digits_then decimal (some 1000000000) ≡ codes "1000.0M")
    × (format_large_number digits_then decimal (some 1000000000) ≡ codes "1000.0M")
unfolding format_vote_count format_large_number digits_then
a_billion = (refl, refl)

no_rounding : RoundsWell ℕ (λ n. n)
no_rounding = record { round_nonneg = λ x h. h; round-le_hundred = λ x h. h }

abbrev percentage : ℕ
percentage = calculate_vote_percentage (λ n. n) 7 7

calculate_vote_percentage-IsShare_sample : (leb 0 percentage ≡ true) × (leb percentage 100 ≡ true)
calculate_vote_percentage-IsShare_sample =
    calculate_vote_percentage-IsShare ⦃laws = whole-IsRounded⦄ (λ n. n) 7 7 no_rounding refl refl
      refl

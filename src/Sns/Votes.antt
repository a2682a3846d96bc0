-- ===== src/Sns/Votes.antt =====
-- Votes as texts and as percentages: `formatVoteCount` and `calculateVotePercentage` of
-- src/ic_govmind_frontend/src/hooks/useSnsGovernance.js and `formatLargeNumber` of
-- pages/ProposalListPage.jsx. Numbers are doubles; `none` is undefined or null.
use ic_govmind.Base.{
  arith, ℕ, ◌≡◌, Bool, true, false, not, ◌&&◌, Option, none, some, ◌++◌, if◌then◌else◌, Bool-cases,
  inl, inr,
}
use ic_govmind.Js.Text.{Text, codes}
use ic_govmind.Treasury.Doubles.{Doubles, IsRounded, ◌≼◌, IsFinite}

module _ {N : Type 0} ⦃d : Doubles N⦄ where
  -- `isNaN(n)`: NaN is the one number that is not `<=` itself.
  abbrev pub is_nan : N → Bool
  is_nan n = not (d.le n n)

  -- `to_fixed` is `toFixed` with the number of digits, `words` is `toString`.
  module _ (to_fixed : ℕ → N → Text) (words : N → Text) where
    -- A number divided, with the letter of the unit behind it.
    abbrev pub scaled : ℕ → ℕ → N → Text → Text
    scaled digits unit n letter = to_fixed digits (d.div n (d.of_nat unit)) ++ letter

    unfoldable pub format_vote_count : Option N → Text
    format_vote_count none = codes "0"
    format_vote_count (some n) =
        if is_nan n
        then codes "0"
        else if d.le (d.of_nat 1000000) n
        then scaled 1 1000000 n (codes "M")
        else if d.le (d.of_nat 1000) n
        then scaled 1 1000 n (codes "K")
        else words n

    -- Here `words` is `toLocaleString`.
    unfoldable pub format_large_number : Option N → Text
    format_large_number none = codes "0"
    format_large_number (some n) =
        if is_nan n
        then codes "0"
        else if d.le (d.of_nat 1000000000000) n
        then scaled 2 1000000000000 n (codes "T")
        else if d.le (d.of_nat 1000000) n
        then scaled 2 1000000 n (codes "M")
        else if d.le (d.of_nat 1000) n
        then scaled 2 1000 n (codes "K")
        else words n

  -- `n === 0`.
  abbrev pub is_nought : N → Bool
  is_nought n = d.le n (d.of_nat 0) && d.le (d.of_nat 0) n

  -- `round` is `Math.round`.
  unfoldable pub calculate_vote_percentage : (N → N) → N → N → N
  calculate_vote_percentage round votes_for total_votes =
      if is_nought total_votes
      then d.of_nat 0
      else round (d.mul (d.div votes_for total_votes) (d.of_nat 100))

-- `Math.round` keeps the order, and the two bounds as they are.
pub record RoundsWell (N : Type 0) ⦃d : Doubles N⦄ (round : N → N) : Type 0 where
  pub round_nonneg : (x : N) → d.of_nat 0 ≼ x → d.of_nat 0 ≼ round x
  pub round-le_hundred : (x : N) → x ≼ d.of_nat 100 → round x ≼ d.of_nat 100

module _ {N : Type 0} ⦃d : Doubles N⦄ ⦃laws : IsRounded N⦄ where
  -- The percentage of votes is a number from 0 to 100, also where nobody has voted, where the votes
  -- for a proposal are from 0 up and at most all votes, and there are finitely many.
  pub calculate_vote_percentage-IsShare :
      (round : N → N) (votes_for total_votes : N)
      → RoundsWell N round
      → d.of_nat 0 ≼ votes_for
      → votes_for ≼ total_votes
      → IsFinite total_votes
      → (let percentage = calculate_vote_percentage round votes_for total_votes in
          (d.of_nat 0 ≼ percentage) × (percentage ≼ d.of_nat 100))
  unfolding calculate_vote_percentage
  calculate_vote_percentage-IsShare round votes_for total_votes rounds low high finite =
      elim (Bool-cases (is_nought total_votes)) [
        | inl nobody ↦ rw nobody (laws.nought_refl, laws.nought_le_hundred)
        | inr voted ↦
            let quotient = laws.div-le votes_for total_votes low high (positive voted) finite in
            let percent = laws.mul_hundred _ quotient.0 quotient.1 in
            rw voted (rounds.round_nonneg _ percent.0, rounds.round-le_hundred _ percent.1)
      ]
    where
      right_false : (a b : Bool) → (a && b) ≡ false → b ≡ true → a ≡ false
      right_false a b h k = ground arith

      positive : is_nought total_votes ≡ false → d.gt total_votes (d.of_nat 0) ≡ true
      positive voted =
          let from_nought = laws.le_trans _ _ _ low high in
          laws.gt_of_not_le total_votes (d.of_nat 0) from_nought
            (right_false _ (d.le (d.of_nat 0) total_votes) voted from_nought)

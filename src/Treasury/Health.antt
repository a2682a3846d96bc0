-- ===== src/Treasury/Health.antt =====
-- src/ic_govmind_frontend/src/components/tabs/TreasuryTab.jsx: `AITreasuryAnalysis`. Its score is a
-- multiple of one half, which doubles hold exactly: it is kept in tenths.
pub mod Laws
use ic_govmind.Base.{
  ℕ, ◌+◌, ◌-◌, ◌/◌, ◌%◌, min, max, Bool, true, false, Option, none, some, List, [], ◌∷◌, ◌++◌, ltb,
  leb, if◌then◌else◌,
}
use ic_govmind.Js.Text.{Text, codes}
use ic_govmind.Js.Decimal.{decimal}
use ic_govmind.Treasury.Doubles.{Doubles, or_nought, max_of}

-- `percentage` is `none` where the page has none.
pub record Holding (N : Type 0) : Type 0 where
  pub chain : Text
  pub percentage : Option N

module _ {N : Type 0} ⦃d : Doubles N⦄ where
  -- `a.percentage || 0`.
  abbrev pub share_of : Option N → N
  share_of none = d.of_nat 0
  share_of (some p) = or_nought p

  unfoldable pub greatest : N → List (Holding N) → N
  greatest best [] = best
  greatest best (a ∷ assets) = greatest (max_of best (share_of a.percentage)) assets

  -- `maxAllocation`.
  unfoldable pub max_allocation : List (Holding N) → N
  unfolding greatest
  max_allocation [] = d.of_nat 0
  max_allocation (a ∷ assets) = greatest (share_of a.percentage) assets

  -- `calculateHealthScore`, in tenths.
  unfoldable pub health_score : List (Holding N) → Option N → ℕ
  health_score assets change =
      let held = max_allocation assets in
      let concentrated =
        if d.gt held (d.of_nat 70) then 80 else if d.gt held (d.of_nat 50) then 90 else 100 in
      let score =
        if d.gt (share_of change) (d.of_nat 10)
        then concentrated + 5
        else if d.gt (d.of_nat 0) (share_of change)
        then concentrated - 10
        else concentrated in
      max 10 (min 100 score)

  -- `assets.reduce(…)`, from the first asset.
  unfoldable pub heavier_of : Holding N → List (Holding N) → Holding N
  heavier_of best [] = best
  heavier_of best (a ∷ assets) =
      heavier_of (if d.gt (share_of a.percentage) (share_of best.percentage) then a else best)
        assets

  unfoldable pub max_asset : List (Holding N) → Holding N
  unfolding heavier_of
  max_asset [] = record { chain = codes "N/A"; percentage = some (d.of_nat 0) }
  max_asset (a ∷ assets) = heavier_of a (a ∷ assets)

-- `score.toFixed(1)`.
unfoldable pub to_fixed : ℕ → Text
to_fixed tenths = decimal (tenths / 10) ++ (b'.' ∷ decimal (tenths % 10))

pub data Health : Type 0 where
  excellent : Health
  good : Health
  needs_attention : Health

-- The badge, and the colours of `getHealthColor`, which has the same limits.
unfoldable pub badge_of : ℕ → Health
badge_of tenths =
    if leb 80 tenths then excellent else if leb 60 tenths then good else needs_attention

-- ===== src/Treasury/Health/Laws.antt =====
-- Which health scores the treasury's page can show.
use ic_govmind.Base.{
  ◌≤◌, ◌≡◌, refl, ◌≢◌, inl, inr, true, false, Option, List, [], ◌∷◌, All, arith, Bool-cases,
  if◌then◌else◌,
}
use ic_govmind.Treasury.Doubles.{Doubles}
use ic_govmind.Treasury.Health.{
  Holding, share_of, health_score, heavier_of, max_asset, needs_attention, badge_of,
}

module _ {N : Type 0} ⦃d : Doubles N⦄ where
  health_score_bounds :
      (assets : List (Holding N)) (change : Option N)
      → (70 ≤ health_score assets change) × (health_score assets change ≤ 100)
  unfolding health_score
  health_score_bounds assets change = ground arith

  -- Whatever the holdings and the change, the score lies between 7 and 10, and the badge is
  -- Excellent or Good: the branch for a treasury that needs attention is never taken.
  pub badge_of-health_score :
      (assets : List (Holding N)) (change : Option N)
      → (70 ≤ health_score assets change)
        × (health_score assets change ≤ 100)
        × (badge_of (health_score assets change) ≢ needs_attention)
  unfolding badge_of
  badge_of-health_score assets change =
      let (low, high) = health_score_bounds assets change in (low, high, λ h. ground arith)

  -- Nothing exceeds `top` that does not exceed `low`.
  abbrev Covers : N → N → Type 0
  Covers top low = (x : N) → d.gt x top ≡ true → d.gt x low ≡ true

  module _ (trans : (x y z : N) → d.gt x y ≡ true → d.gt y z ≡ true → d.gt x z ≡ true)
      (irrefl : (x : N) → d.gt x x ≡ false) where
    not_above : (x top low : N) → Covers top low → d.gt x low ≡ false → d.gt x top ≡ false
    not_above x top low covers below = elim (Bool-cases (d.gt x top)) [
      | inl above ↦ cc (covers x above)
      | inr fine ↦ fine
    ]

    -- `top` is at least the best asset so far and each of those that follow.
    IsTop : Holding N → List (Holding N) → Holding N → Type 0
    IsTop best assets top =
        Covers (share_of top.percentage) (share_of best.percentage)
        × All (λ a. d.gt (share_of a.percentage) (share_of top.percentage) ≡ false) assets

    IsTop-more :
        (best a top : Holding N) (assets : List (Holding N))
        → d.gt (share_of a.percentage) (share_of best.percentage) ≡ true
        → IsTop a assets top
        → IsTop best (a ∷ assets) top
    unfolding IsTop
    IsTop-more best a top assets more (covers, rest) =
        let p = share_of a.percentage in
        ((λ x h. trans x p _ (covers x h) more), (not_above p _ p covers (irrefl p), rest))

    IsTop-less :
        (best a top : Holding N) (assets : List (Holding N))
        → d.gt (share_of a.percentage) (share_of best.percentage) ≡ false
        → IsTop best assets top
        → IsTop best (a ∷ assets) top
    unfolding IsTop
    IsTop-less best a top assets less (covers, rest) =
        (covers, (not_above (share_of a.percentage) _ _ covers less, rest))

    heavier_of-cons :
        (best a : Holding N) (assets : List (Holding N))
        → heavier_of best (a ∷ assets)
          ≡ heavier_of
              (if d.gt (share_of a.percentage) (share_of best.percentage) then a else best)
              assets
    unfolding heavier_of
    heavier_of-cons best a assets = refl

    heavier_of-IsTop :
        (best : Holding N) (assets : List (Holding N)) → IsTop best assets (heavier_of best assets)
    heavier_of-IsTop best [] = unfold heavier_of IsTop in ((λ x h. h), tt)
    heavier_of-IsTop best (a ∷ assets) =
        elim (Bool-cases (d.gt (share_of a.percentage) (share_of best.percentage))) [
          | inl more ↦
              rw (heavier_of-cons best a assets, more)
                (IsTop-more best a _ assets more (heavier_of-IsTop a assets))
          | inr less ↦
              rw (heavier_of-cons best a assets, less)
                (IsTop-less best a _ assets less (heavier_of-IsTop best assets))
        ]

    -- No asset has a greater share than the one that the analysis calls concentrated.
    pub max_asset-greatest :
        (assets : List (Holding N))
        → All
            (λ a. d.gt (share_of a.percentage) (share_of (max_asset assets).percentage) ≡ false)
            assets
    unfolding max_asset IsTop
    max_asset-greatest [] = tt
    max_asset-greatest (a ∷ assets) = (heavier_of-IsTop a (a ∷ assets)).1

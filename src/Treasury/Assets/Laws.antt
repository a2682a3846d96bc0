-- ===== src/Treasury/Assets/Laws.antt =====
-- The shares that the assets' table shows are percentages, and every asset is listed once.
use ic_govmind.Base.{
  ◌≡◌, refl, sym, Option, none, some, List, [], ◌∷◌, map, All, Bool-cases, inl, inr,
}
use ic_govmind.Js.Text.{Text, text_eq}
use ic_govmind.Treasury.Wallet.{Asset, BaseToken, Balances, live_balance_items, token_symbol}
use ic_govmind.Treasury.Prices.{find_entry}
use ic_govmind.Treasury.Doubles.{Doubles, ◌≼◌, IsFinite, IsRounded, or_nought, min_of}
use ic_govmind.Treasury.Assets.{
  Row, Share, amount_of, symbol_price, value_at, row_of, items_for_table, usd_or_nought, total_from,
  total_usd, percentage_of, items_with_allocation, bar_width,
}

module _ {N : Type 0} ⦃d : Doubles N⦄ where
  -- A number from 0 up that is not infinite.
  abbrev pub IsAmount : N → Type 0
  IsAmount x = IsFinite x × (d.of_nat 0 ≼ x)

  abbrev pub IsPrice : Option N → Type 0
  IsPrice none = Unit
  IsPrice (some p) = IsAmount p

  abbrev pub IsShare : Share N → Type 0
  IsShare s =
      (d.of_nat 0 ≼ s.percentage)
      × (s.percentage ≼ d.of_nat 100)
      × (bar_width s.percentage ≡ or_nought s.percentage)

  module _ (laws : IsRounded N) where
    abbrev Counts : N → Row N → Type 0
    Counts top r = (d.of_nat 0 ≼ usd_or_nought r.usd_value) × (usd_or_nought r.usd_value ≼ top)

    abbrev IsCounted : Row N → Type 0
    IsCounted r = d.of_nat 0 ≼ usd_or_nought r.usd_value

    total_from-Counts :
        (acc : N) (rows : List (Row N))
        → d.of_nat 0 ≼ acc
        → All IsCounted rows
        → (acc ≼ total_from acc rows) × All (Counts (total_from acc rows)) rows
    unfolding total_from
    total_from-Counts acc [] h hs = (laws.refl_of_le _ _ h, tt)
    total_from-Counts acc (x ∷ rows) h (hx, hs) =
        let next = d.add acc (usd_or_nought x.usd_value) in
        let (a, b) = laws.le-add acc (usd_or_nought x.usd_value) h hx in
        let (low, rest) = total_from-Counts next rows (laws.le_trans _ _ _ h a) hs in
        (laws.le_trans _ _ _ a low, ((hx, laws.le_trans _ _ _ b low), rest))

    IsPercentage : N → Type 0
    IsPercentage p = (d.of_nat 0 ≼ p) × (p ≼ d.of_nat 100)

    percentage_of-IsPercentage :
        (total : N) (value : Option N)
        → IsFinite total
        → d.of_nat 0 ≼ usd_or_nought value
        → usd_or_nought value ≼ total
        → IsPercentage (percentage_of total value)
    unfolding percentage_of IsPercentage
    percentage_of-IsPercentage total none fin low high = (laws.nought_refl, laws.nought_le_hundred)
    percentage_of-IsPercentage total (some v) fin low high =
        elim (Bool-cases (d.gt total (d.of_nat 0))) [
          | inl held ↦
              let (a, b) = laws.div-le v total low high held fin in rw held (laws.mul_hundred _ a b)
          | inr empty ↦ rw empty (laws.nought_refl, laws.nought_le_hundred)
        ]

    hundred_at_most : (p : N) → p ≼ d.of_nat 100 → min_of (d.of_nat 100) p ≡ p
    hundred_at_most p h = elim (Bool-cases (d.gt (d.of_nat 100) p)) [
      | inl below ↦ rw below refl
      | inr full ↦ rw full (sym (laws.hundred_of_not_gt p h full))
    ]

    -- The clamp of a bar's width changes no percentage.
    bar_width_of_percentage : (p : N) → IsPercentage p → bar_width p ≡ or_nought p
    unfolding bar_width IsPercentage
    bar_width_of_percentage p h = elim (Bool-cases (d.gt p (d.of_nat 0))) [
      | inl positive ↦ rw (positive, positive) (hundred_at_most p h.1)
      | inr other ↦
          let none_below = laws.not_gt_of_le _ _ h.0 in
          let alike = laws.not_gt_of_le _ _ laws.nought_refl in
          rw (other, none_below, alike, laws.hundred_gt_nought) refl
    ]

    percentage_of-IsShare :
        (total : N) (r : Row N)
        → IsFinite total
        → Counts total r
        → IsShare (record { row = r; percentage = percentage_of total r.usd_value })
    unfolding IsPercentage
    percentage_of-IsShare total r fin (low, high) =
        let h = percentage_of-IsPercentage total r.usd_value fin low high in
        (h.0, h.1, bar_width_of_percentage _ h)

    shares_of :
        (total : N) (rows : List (Row N))
        → IsFinite total
        → All (Counts total) rows
        → All IsShare
            (map (λ r. record { row = r; percentage = percentage_of total r.usd_value }) rows)
    shares_of total [] fin hs = tt
    shares_of total (r ∷ rows) fin (h, hs) =
        (percentage_of-IsShare total r fin h, shares_of total rows fin hs)

    -- A price that is looked up is one of those that are known.
    find_entry-IsPrice :
        (s : Text) (prices : List (Text × N))
        → All (λ e. IsAmount e.1) prices
        → IsPrice (find_entry s prices)
    unfolding find_entry
    find_entry-IsPrice s [] hs = tt
    find_entry-IsPrice s ((k, p) ∷ prices) (h, hs) = elim (Bool-cases (text_eq k s)) [
      | inl same ↦ rw same h
      | inr other ↦ rw other (find_entry-IsPrice s prices hs)
    ]

    value_at-nonneg :
        (amount : N) (price : Option N)
        → IsAmount amount
        → IsPrice price
        → d.of_nat 0 ≼ usd_or_nought (value_at amount price)
    value_at-nonneg amount none h k = laws.nought_refl
    value_at-nonneg amount (some p) (fin, low) (fin', low') =
        laws.mul_nonneg amount p fin fin' low low'

    row_of-IsCounted :
        (dao_symbol : Text) (token_price : Option N) (prices : List (Text × N)) (asset : Asset)
        → IsPrice token_price
        → All (λ e. IsAmount e.1) prices
        → IsAmount (amount_of asset asset.base_units)
        → IsCounted (row_of dao_symbol token_price prices asset)
    unfolding row_of symbol_price
    row_of-IsCounted dao_symbol token_price prices asset ht hs ha =
        elim (Bool-cases (text_eq asset.symbol dao_symbol)) [
          | inl own ↦ rw own (value_at-nonneg _ token_price ha ht)
          | inr other ↦
              rw other (value_at-nonneg _ _ ha (find_entry-IsPrice asset.symbol prices hs))
        ]

    rows-IsCounted :
        (dao_symbol : Text) (token_price : Option N) (prices : List (Text × N))
        (assets : List Asset)
        → IsPrice token_price
        → All (λ e. IsAmount e.1) prices
        → All (λ a. IsAmount (amount_of a a.base_units)) assets
        → All IsCounted (map (row_of dao_symbol token_price prices) assets)
    rows-IsCounted dao_symbol token_price prices [] ht hs ha = tt
    rows-IsCounted dao_symbol token_price prices (a ∷ assets) ht hs (h, ha) = (
      row_of-IsCounted dao_symbol token_price prices a ht hs h,
      rows-IsCounted dao_symbol token_price prices assets ht hs ha,
    )

    -- Where the amounts and the prices are numbers from 0 up, none of them and not their total
    -- infinite, every share of the table is a percentage from 0 to 100, and its bar is drawn at
    -- that width, so that the clamp of the width changes nothing.
    pub items_with_allocation-IsShare :
        (token : Option BaseToken) (balances : Option Balances) (token_price : Option N)
        (prices : List (Text × N))
        → All (λ a. IsAmount (amount_of a a.base_units)) (live_balance_items token balances)
        → IsPrice token_price
        → All (λ e. IsAmount e.1) prices
        → IsFinite (total_usd (items_for_table token balances token_price prices))
        → All IsShare (items_with_allocation (items_for_table token balances token_price prices))
    unfolding items_for_table items_with_allocation total_usd
    items_with_allocation-IsShare token balances token_price prices ha ht hs fin =
        let rows = items_for_table token balances token_price prices in
        shares_of (total_usd rows) rows fin
          (total_from-Counts (d.of_nat 0) rows laws.nought_refl (
            rows-IsCounted (token_symbol token) token_price prices
              (live_balance_items token balances) ht hs ha)).1

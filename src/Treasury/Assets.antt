-- ===== src/Treasury/Assets.antt =====
-- src/ic_govmind_frontend/src/components/tabs/TreasuryTab.jsx: the assets' amounts, their values in
-- USD, their shares of the total, and the chains that they are listed under. `scaleByDecimals` is
-- that of pages/DaoInfoPage.jsx.
pub mod Laws
pub mod Chains
use ic_govmind.Base.{
  ℕ, Bool, true, false, not, Option, none, some, List, [], ◌∷◌, ◌++◌, map, keep, some_of,
  if◌then◌else◌,
}
use ic_govmind.Js.Text.{Text, codes, text_eq, le_text}
use ic_govmind.Units.{from_units}
use ic_govmind.Treasury.Wallet.{Asset, BaseToken, Balances, live_balance_items, token_symbol}
use ic_govmind.Treasury.Prices.{find_entry}
use ic_govmind.Treasury.Doubles.{Doubles, or_nought, max_of, min_of}

pub record Row (N : Type 0) : Type 0 where
  pub asset : Asset
  pub amount : N
  pub usd_value : Option N

pub record Share (N : Type 0) : Type 0 where
  pub row : Row N
  pub percentage : N

module _ {N : Type 0} ⦃d : Doubles N⦄ where
  -- `scaleByDecimals`, of a `bigint`, for which `fromUnits` does not throw.
  unfoldable pub scale_by_decimals : ℕ → ℕ → N
  scale_by_decimals balance decimals = d.number_of_text (from_units (some balance) decimals 6)

  -- A balance that is no `bigint` counts as nothing.
  unfoldable pub amount_of : Asset → Option ℕ → N
  unfolding scale_by_decimals
  amount_of asset none = d.of_nat 0
  amount_of asset (some nat) = scale_by_decimals nat asset.decimals

  -- The price of a symbol: that of the DAO's own token comes from the page's data.
  unfoldable pub symbol_price : Text → Option N → List (Text × N) → Text → Option N
  unfolding text_eq find_entry
  symbol_price dao_symbol token_price prices symbol =
      if text_eq symbol dao_symbol then token_price else find_entry symbol prices

  abbrev pub value_at : N → Option N → Option N
  value_at amount none = none
  value_at amount (some price) = some (d.mul amount price)

  unfoldable pub row_of : Text → Option N → List (Text × N) → Asset → Row N
  unfolding amount_of symbol_price
  row_of dao_symbol token_price prices asset =
      let amount = amount_of asset asset.base_units in
      record {
        asset = asset;
        amount = amount;
        usd_value = value_at amount (symbol_price dao_symbol token_price prices asset.symbol);
      }

  -- `itemsForTable`.
  unfoldable pub items_for_table :
      Option BaseToken → Option Balances → Option N → List (Text × N) → List (Row N)
  unfolding row_of live_balance_items
  items_for_table token balances token_price prices =
      map (row_of (token_symbol token) token_price prices) (live_balance_items token balances)

  abbrev pub usd_or_nought : Option N → N
  usd_or_nought none = d.of_nat 0
  usd_or_nought (some v) = v

  -- `totalUsd`.
  unfoldable pub total_from : N → List (Row N) → N
  total_from acc [] = acc
  total_from acc (r ∷ rows) = total_from (d.add acc (usd_or_nought r.usd_value)) rows

  unfoldable pub total_usd : List (Row N) → N
  unfolding total_from
  total_usd rows = total_from (d.of_nat 0) rows

  unfoldable pub percentage_of : N → Option N → N
  percentage_of total none = d.of_nat 0
  percentage_of total (some v) =
      if d.gt total (d.of_nat 0) then d.mul (d.div v total) (d.of_nat 100) else d.of_nat 0

  -- `itemsWithAllocation`.
  unfoldable pub items_with_allocation : List (Row N) → List (Share N)
  unfolding percentage_of total_usd
  items_with_allocation rows =
      map (λ r. record { row = r; percentage = percentage_of (total_usd rows) r.usd_value }) rows

  -- The width of a bar, in percent: `Math.min(100, Math.max(0, a.percentage || 0))`.
  unfoldable pub bar_width : N → N
  bar_width percentage = min_of (d.of_nat 100) (max_of (d.of_nat 0) (or_nought percentage))

-- `groupedByChain`: chains in the order in which they come up.
unfoldable pub add_to_chain : Asset → List (Text × List Asset) → List (Text × List Asset)
add_to_chain item [] = (item.chain, item ∷ []) ∷ []
add_to_chain item ((chain, items) ∷ groups) =
    let rest = add_to_chain item groups in
    if text_eq chain item.chain
    then (chain, items ++ (item ∷ [])) ∷ groups
    else (chain, items) ∷ rest

unfoldable pub grouped_from : List (Text × List Asset) → List Asset → List (Text × List Asset)
unfolding add_to_chain
grouped_from acc [] = acc
grouped_from acc (item ∷ items) = grouped_from (add_to_chain item acc) items

abbrev pub preferred_chain_order : List Text
preferred_chain_order = codes "Internet Computer" ∷ codes "Bitcoin" ∷ codes "Ethereum" ∷ []

abbrev is_group : List (Text × List Asset) → Text → Bool
is_group groups chain = elim (find_entry chain groups) [ some (a ∷ items) ↦ true | _ ↦ false ]

insert_text : Text → List Text → List Text
insert_text t [] = t ∷ []
insert_text t (u ∷ us) =
    let later = insert_text t us in if le_text t u then t ∷ u ∷ us else u ∷ later

sort_texts : List Text → List Text
sort_texts [] = []
sort_texts (t ∷ ts) = insert_text t (sort_texts ts)

-- `orderedChains`, of names that are no numbers.
unfoldable pub ordered_chains : List (Text × List Asset) → List Text
unfolding find_entry insert_text sort_texts
ordered_chains groups =
    keep (is_group groups) preferred_chain_order
    ++ sort_texts
        (keep (λ c. not (some_of (text_eq c) preferred_chain_order)) (map (λ g. g.0) groups))

-- The list of balances, one group for each chain.
unfoldable pub listed_groups : List Asset → List (Text × Option (List Asset))
unfolding grouped_from ordered_chains
listed_groups items =
    let groups = grouped_from [] items in
    map (λ chain. (chain, find_entry chain groups)) (ordered_chains groups)

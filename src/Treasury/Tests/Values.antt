-- ===== src/Treasury/Tests/Values.antt =====
-- The theorems about prices, shares and the health score, over whole numbers in place of doubles.
use ic_govmind.Base.{ℕ, ◌≤◌, ◌≡◌, ◌≢◌, refl, Option, some, List, [], ◌∷◌, All, returns}
use ic_govmind.Js.Text.{Text, codes, text_eq, only_digits, join, pad_start}
use ic_govmind.Js.Decimal.{value, decimal}
use ic_govmind.Js.Value.{num, obj, Fields, end, field, prop, optional_prop, get_field}
use ic_govmind.Units.{from_units}
use ic_govmind.Treasury.Wallet.{BaseToken, Balances, live_balance_items}
use ic_govmind.Treasury.Whole.{whole, whole-IsRounded}
use ic_govmind.Treasury.Prices.{
  find_entry, coingecko_ids, known_ids, price_url, number_in, quoted, prices_of, query_token_prices,
}
use ic_govmind.Treasury.Prices.Laws.{quote_of, query_token_prices_lem}
use ic_govmind.Treasury.Assets.{
  scale_by_decimals, amount_of, symbol_price, row_of, items_for_table, total_from, total_usd,
  items_with_allocation,
}
use ic_govmind.Treasury.Assets.Laws.{IsShare, items_with_allocation-IsShare}
use ic_govmind.Treasury.Health.{Holding, health_score, badge_of, needs_attention}
use ic_govmind.Treasury.Health.Laws.{badge_of-health_score}

abbrev token : Option BaseToken
token = some (record { name = codes "Gov"; symbol = codes "GOV"; decimals = 2 })

abbrev balances : Option Balances
balances = some (record { icp = 3; dao = 5; btc = 2; eth = 0; usdt = 7 })

runs : Unit {0}
unfolding find_entry known_ids price_url number_in quoted prices_of query_token_prices text_eq
    only_digits join prop optional_prop get_field value decimal pad_start from_units
    live_balance_items scale_by_decimals amount_of symbol_price row_of items_for_table total_from
    total_usd items_with_allocation
runs = tt

items_with_allocation-IsShare_example :
    All
      (IsShare {N = ℕ})
      (items_with_allocation (items_for_table token balances (some 4) ((codes "ICP", 9) ∷ [])))
unfolding runs
items_with_allocation-IsShare_example =
    items_with_allocation-IsShare whole-IsRounded token balances (some 4) ((codes "ICP", 9) ∷ [])
      ((refl, refl), ((refl, refl), ((refl, refl), ((refl, refl), ((refl, refl), tt)))))
      (refl, refl) ((refl, refl), tt) refl

abbrev answer : Fields ℕ
answer = field (codes "bitcoin") (obj (field (codes "usd") (num 61000) end)) end

query_token_prices_lem_example :
    (ps : List (Text × ℕ)) × (query_token_prices (λ url. returns (obj answer)) (codes "BTC" ∷ [])
      ≡ returns ps)
    × ((s : Text) → find_entry s ps ≡ quote_of answer (find_entry s coingecko_ids))
unfolding runs
query_token_prices_lem_example =
    query_token_prices_lem (λ url. returns (obj answer)) (codes "BTC" ∷ []) answer refl refl

abbrev holdings : List (Holding ℕ)
holdings =
    (record { chain = codes "Bitcoin"; percentage = some 80 })
    ∷ (record { chain = codes "Ethereum"; percentage = some 20 })
    ∷ []

badge_of-health_score_example :
    (70 ≤ health_score holdings (some 0))
    × (health_score holdings (some 0) ≤ 100)
    × (badge_of (health_score holdings (some 0)) ≢ needs_attention)
badge_of-health_score_example = badge_of-health_score holdings (some 0)

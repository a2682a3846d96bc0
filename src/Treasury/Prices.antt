-- ===== src/Treasury/Prices.antt =====
-- src/ic_govmind_frontend/src/hooks/useTokenPrices.js. `fetch_json` is `fetch` with the parsing of
-- its answer; a price is kept where the answer has a number.
pub mod Laws
use ic_govmind.Base.{
  ℕ, Option, none, some, List, [], ◌∷◌, ◌++◌, if◌then◌else◌, Outcome, returns, throws, ◌>>=◌,
}
use ic_govmind.Js.Text.{Text, codes, text_eq, is_empty, join}
use ic_govmind.Js.Value.{Value, num, prop, optional_prop}

-- The first entry under a name.
unfoldable pub find_entry {ℓ} : {A : Type ℓ} → Text → List (Text × A) → Option A
find_entry key [] = none
find_entry key ((k, a) ∷ entries) = if text_eq k key then some a else find_entry key entries

-- `COINGECKO_IDS`.
abbrev pub coingecko_ids : List (Text × Text)
coingecko_ids =
    (codes "ICP", codes "internet-computer")
    ∷ (codes "BTC", codes "bitcoin")
    ∷ (codes "ETH", codes "ethereum")
    ∷ (codes "USDT", codes "tether")
    ∷ []

-- `symbols.map((s) => COINGECKO_IDS[s]).filter(Boolean)`.
unfoldable pub known_ids : List Text → List Text
unfolding find_entry
known_ids [] = []
known_ids (s ∷ symbols) =
    let rest = known_ids symbols in
    elim (find_entry s coingecko_ids) [ none ↦ rest | some id ↦ id ∷ rest ]

unfoldable pub price_url : Text → Text
price_url ids =
    codes "https://api.coingecko.com/api/v3/simple/price?ids="
    ++ (ids ++ codes "&vs_currencies=usd")

module _ {N : Type 0} where
  -- `typeof p === 'number'`.
  unfoldable pub number_in : Option (Value N) → Option N
  number_in (some (num n)) = some n
  number_in v = none

  -- `data[id]?.usd`, where it is a number.
  unfoldable pub quoted : Value N → Text → Outcome (Option N)
  unfolding number_in
  quoted answer id =
      prop id answer >>= λ quote. returns (number_in (optional_prop (codes "usd") quote))

  abbrev with_price : Text → Option N → List (Text × N) → List (Text × N)
  with_price symbol none prices = prices
  with_price symbol (some p) prices = (symbol, p) ∷ prices

  unfoldable pub prices_of : Value N → List (Text × Text) → Outcome (List (Text × N))
  prices_of answer [] = returns []
  prices_of answer ((symbol, id) ∷ entries) = quoted answer id >>= λ price.
      prices_of answer entries >>= λ prices. returns (with_price symbol price prices)

  -- `queryFn`.
  unfoldable pub query_token_prices :
      (Text → Outcome (Value N)) → List Text → Outcome (List (Text × N))
  unfolding known_ids price_url
  query_token_prices fetch_json symbols =
      let ids = join (codes ",") (known_ids symbols) in
      if is_empty ids
      then returns []
      else fetch_json (price_url ids) >>= λ answer. prices_of answer coingecko_ids

-- ===== src/Treasury/Assets/Chains.antt =====
-- The list of balances names each chain once, with the assets that live on it.
use ic_govmind.Base.{◌≡◌, refl, Option, some, [], ◌∷◌}
use ic_govmind.Js.Text.{codes, text_eq}
use ic_govmind.Treasury.Wallet.{Asset, BaseToken, Balances, live_balance_items}
use ic_govmind.Treasury.Prices.{find_entry}
use ic_govmind.Treasury.Assets.{add_to_chain, grouped_from, ordered_chains, listed_groups}

-- Whatever the DAO's token and the balances, the five assets are listed under Internet Computer,
-- Bitcoin and Ethereum in this order, each asset once and in the order of the table.
pub listed_groups_of_assets :
    (token : Option BaseToken) (balances : Option Balances)
    → (icp dao btc eth usdt : Asset) × (live_balance_items token balances
        ≡ icp ∷ dao ∷ btc ∷ eth ∷ usdt ∷ [])
      × (listed_groups (live_balance_items token balances)
          ≡ (codes "Internet Computer", some (icp ∷ dao ∷ []))
            ∷ (codes "Bitcoin", some (btc ∷ []))
            ∷ (codes "Ethereum", some (eth ∷ usdt ∷ []))
            ∷ [])
unfolding live_balance_items listed_groups grouped_from add_to_chain ordered_chains find_entry
    text_eq
listed_groups_of_assets token balances = (_, _, _, _, _, refl, refl)

-- ===== src/Treasury/Wallet.antt =====
-- src/ic_govmind_frontend/src/components/tabs/TreasuryTab.jsx: the assets that are listed, and the
-- address at which each is received.
use ic_govmind.Base.{ℕ, Option, none, some, List, [], ◌∷◌, if◌then◌else◌, Outcome, attempt}
use ic_govmind.Js.Text.{Text, codes, text_eq, or_text}

-- `base_units` is `none` where the balance is no `bigint`.
pub record Asset : Type 0 where
  pub key : Text
  pub symbol : Text
  pub token_name : Text
  pub chain : Text
  pub decimals : ℕ
  pub base_units : Option ℕ

-- `dao?.base_token`, of a DAO that is loaded: a candid record, whose `decimals` is a `nat8`.
pub record BaseToken : Type 0 where
  pub name : Text
  pub symbol : Text
  pub decimals : ℕ

pub record Balances : Type 0 where
  pub icp : ℕ
  pub dao : ℕ
  pub btc : ℕ
  pub eth : ℕ
  pub usdt : ℕ

-- `owner` is what `owner.toText()` comes to, where the owner has this method; `subaccount` is the
-- candid option, empty where it is missing.
pub record Wallets : Type 0 where
  pub owner : Option (Outcome Text)
  pub subaccount : List (List ℕ)
  pub bitcoin : Text
  pub ethereum : Text

-- `tokenBalances?.[key] ?? 0n`.
abbrev pub balance : (Balances → ℕ) → Option Balances → Option ℕ
balance key none = some 0
balance key (some b) = some (key b)

abbrev pub token_symbol : Option BaseToken → Text
token_symbol none = codes "DAO"
token_symbol (some t) = or_text t.symbol (codes "DAO")

abbrev pub token_name_of : Option BaseToken → Text
token_name_of none = codes "DAO"
token_name_of (some t) = or_text t.name (codes "DAO")

abbrev pub token_decimals : Option BaseToken → ℕ
token_decimals none = 8
token_decimals (some t) = t.decimals

-- `tokenDefs` with the balances, as `liveBalanceItems`; the amounts that are shown are left out.
unfoldable pub live_balance_items : Option BaseToken → Option Balances → List Asset
live_balance_items token b =
    (record {
      key = codes "icp";
      symbol = codes "ICP";
      token_name = codes "ICP";
      chain = codes "Internet Computer";
      decimals = 8;
      base_units = balance (λ b. b.icp) b;
    })
    ∷ (record {
      key = codes "dao";
      symbol = token_symbol token;
      token_name = token_name_of token;
      chain = codes "Internet Computer";
      decimals = token_decimals token;
      base_units = balance (λ b. b.dao) b;
    })
    ∷ (record {
      key = codes "btc";
      symbol = codes "BTC";
      token_name = codes "BTC";
      chain = codes "Bitcoin";
      decimals = 8;
      base_units = balance (λ b. b.btc) b;
    })
    ∷ (record {
      key = codes "eth";
      symbol = codes "ETH";
      token_name = codes "ETH";
      chain = codes "Ethereum";
      decimals = 18;
      base_units = balance (λ b. b.eth) b;
    })
    ∷ (record {
      key = codes "usdt";
      symbol = codes "USDT";
      token_name = codes "USDT";
      chain = codes "Ethereum";
      decimals = 6;
      base_units = balance (λ b. b.usdt) b;
    })
    ∷ []

abbrev pub owner_of : Option Wallets → Option (Outcome Text)
owner_of none = none
owner_of (some w) = w.owner

abbrev pub bitcoin_of : Option Wallets → Text
bitcoin_of none = []
bitcoin_of (some w) = w.bitcoin

abbrev pub ethereum_of : Option Wallets → Text
ethereum_of none = []
ethereum_of (some w) = w.ethereum

-- `icpOwnerText || ""`: a `toText` that throws is caught.
unfoldable pub icp_owner_text : Option Wallets → Text
icp_owner_text w = elim (owner_of w) [ none ↦ [] | some t ↦ attempt t (λ e. []) ]

-- `getReceiveAddressForAsset`.
unfoldable pub get_receive_address_for_asset : Option Wallets → Option Asset → Text
get_receive_address_for_asset w none = []
get_receive_address_for_asset w (some asset) =
    if text_eq asset.chain (codes "Internet Computer")
    then elim (owner_of w) [ none ↦ icp_owner_text w | some t ↦ attempt t (λ e. icp_owner_text w) ]
    else if text_eq asset.chain (codes "Bitcoin")
    then bitcoin_of w
    else if text_eq asset.chain (codes "Ethereum")
    then ethereum_of w
    else []

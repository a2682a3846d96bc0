-- ===== src/Queries.antt =====
-- src/ic_govmind_frontend/src/hooks/daoHooks.js, useMyDao.js, useProposals.js and backendHooks.js:
-- the query functions that read a DAO from its canisters. `none` is null or an actor that is
-- missing; a canister's method is a function that returns or throws.
pub mod Laws
mod Tests
use ic_govmind.Base.{
  ℕ, Bool, true, false, Option, none, some, List, [], ◌∷◌, ◌++◌, if◌then◌else◌, Outcome, returns,
  throws, ◌>>=◌, attempt, Thrown,
}
use ic_govmind.Js.Text.{Text, codes, text_eq, is_empty, or_text}

-- `result && result.length > 0 ? result[0] : null`, of a candid option.
abbrev pub first_or_null {ℓ} : {A : Type ℓ} → List A → Option A
first_or_null [] = none
first_or_null (a ∷ as_list) = some a

module _ {P D : Type 0} where
  -- `useDaoInfo` and `useMyDao`: `from_text` and `get_dao_info` may throw.
  unfoldable pub query_dao_info :
      (Text → Outcome P) → Option (P → Outcome (List D)) → Text → Outcome (Option D)
  query_dao_info from_text none principal = returns none
  query_dao_info from_text (some get_dao_info) principal =
      if is_empty principal
      then returns none
      else from_text principal >>= λ p. get_dao_info p >>= λ found. returns (first_or_null found)

-- `useBackendDaoInfo`: `open_actor` is `createBackendActor`, and an error gives null.
unfoldable pub query_backend_dao_info :
    {D A : Type 0}
    → (Text → Outcome A)
    → (A → Outcome (List D))
    → Text
    → Bool
    → Option (Option D × A)
query_backend_dao_info open_actor dao_info id has_agent =
    if is_empty id
    then none
    else if has_agent
    then attempt
        (open_actor id >>= λ actor.
          dao_info actor >>= λ found. returns (some (first_or_null found, actor)))
        (λ e. none)
    else none

-- `useDaoWalletAddresses`.
unfoldable pub query_wallet_addresses :
    {A W : Type 0} → (Text → Outcome A) → (A → Outcome W) → Text → Bool → Outcome (Option W)
query_wallet_addresses open_actor get_addresses id has_agent =
    if is_empty id
    then returns none
    else if has_agent
    then (open_actor id >>= λ actor. get_addresses actor >>= λ found. returns (some found))
    else returns none

-- `result || []` where an error gives the empty list too: `useDaoProposals` and
-- `useDistributionRecords`.
unfoldable pub query_list : {A : Type 0} → Text → Bool → Outcome (Option (List A)) → List A
query_list id has_agent (throws e) = []
query_list id has_agent (returns none) = []
query_list id has_agent (returns (some items)) =
    if is_empty id then [] else if has_agent then items else []

-- `useActiveCommittees`: without an actor, with an error or with what is no array, none.
unfoldable pub query_active_committees : {A : Type 0} → Option (Outcome (Option (List A))) → List A
query_active_committees none = []
query_active_committees (some (throws e)) = []
query_active_committees (some (returns none)) = []
query_active_committees (some (returns (some items))) = items

-- `useProposal` and `useProposalExists`: an error gives null.
unfoldable pub query_proposal : {A : Type 0} → (Text → Outcome (Option A)) → Text → Option A
query_proposal get_proposal id = if is_empty id then none else attempt (get_proposal id) (λ e. none)

-- The answer of `wallet_query_balance`: `Ok` with a balance, or another answer.
pub data BalanceReply : Type 0 where
  balance : ℕ → BalanceReply
  refused : BalanceReply

abbrev pub unwrap : BalanceReply → ℕ
unwrap (balance n) = n
unwrap refused = 0

pub record Addresses : Type 0 where
  pub owner_text : Outcome Text
  pub subaccount : List (List ℕ)
  pub bitcoin : Text
  pub ethereum : Text

pub data ChainType : Type 0 where
  internet_computer : ChainType
  bitcoin_chain : ChainType
  ethereum_chain : ChainType

pub record BalanceQuery : Type 0 where
  pub wallet_address : Text
  pub chain_type : ChainType
  pub token_name : Text
  pub subaccount : List (List ℕ)

pub record TokenBalances : Type 0 where
  pub icp : ℕ
  pub dao : ℕ
  pub btc : ℕ
  pub eth : ℕ
  pub usdt : ℕ

abbrev pub plain_query : Text → ChainType → Text → BalanceQuery
plain_query address chain token = record {
  wallet_address = address;
  chain_type = chain;
  token_name = token;
  subaccount = [];
}

-- `useDaoTokenBalances` where the DAO, the agent and the addresses are there; `token` is the name
-- of the DAO's token. `Promise.all` throws where one of the five calls does;
-- where several do, which of the errors it throws is a matter of time.
unfoldable pub query_token_balances :
    (BalanceQuery → Outcome BalanceReply) → Text → Addresses → Outcome TokenBalances
query_token_balances wallet_query_balance token addr = do
  owner ← addr.owner_text
  icp ← wallet_query_balance (plain_query owner internet_computer (codes "ICP"))
  dao ← wallet_query_balance (record {
    wallet_address = owner;
    chain_type = internet_computer;
    token_name = or_text token (codes "DAO");
    subaccount = addr.subaccount;
  })
  btc ← wallet_query_balance (plain_query addr.bitcoin bitcoin_chain (codes "BTC"))
  eth ← wallet_query_balance (plain_query addr.ethereum ethereum_chain (codes "ETH"))
  usdt ← wallet_query_balance (plain_query addr.ethereum ethereum_chain (codes "USDT"))
  returns (record {
    icp = unwrap icp;
    dao = unwrap dao;
    btc = unwrap btc;
    eth = unwrap eth;
    usdt = unwrap usdt;
  })

-- `principal_text` is what the member's principal comes to as a text, where there is one.
pub record Member : Type 0 where
  pub user_id : Text
  pub principal_text : Option (Outcome Text)

unfoldable pub wallet_address_of : Member → Outcome Text
wallet_address_of m = elim m.principal_text [ none ↦ returns m.user_id | some t ↦ t ]

-- The inner `try`: an error and another answer count as 0.
unfoldable pub member_balance : (BalanceQuery → Outcome BalanceReply) → Text → Member → ℕ
unfolding wallet_address_of
member_balance wallet_query_balance token m =
    attempt
      (wallet_address_of m >>= λ address.
        wallet_query_balance (plain_query address internet_computer token) >>= λ reply.
        returns (unwrap reply))
      (λ e. 0)

-- The object that is filled, as the list of its entries, the last one first.
abbrev pub Entries : Type 0
Entries = List (Text × ℕ)

unfoldable pub lookup_entry : Text → Entries → Option ℕ
lookup_entry key [] = none
lookup_entry key ((k, n) ∷ rest) = elim (text_eq k key) [
  | true ↦ some n
  | false ↦ lookup_entry key rest
]

-- `useMemberBalances`: the loop over the members.
unfoldable pub query_member_balances :
    (BalanceQuery → Outcome BalanceReply) → Text → List Member → Entries → Entries
query_member_balances wallet_query_balance token [] balances = balances
query_member_balances wallet_query_balance token (m ∷ ms) balances =
    query_member_balances wallet_query_balance token ms
      ((m.user_id, member_balance wallet_query_balance token m) ∷ balances)

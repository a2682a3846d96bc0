-- ===== src/CreateDao/Request.antt =====
-- src/ic_govmind_frontend/src/pages/CreateDaoPage.jsx: the records that the form's data is turned
-- into for the factory and for the new DAO's canister. A candid `opt` is an `Option`.
pub mod Laws
use ic_govmind.Base.{
  ℕ, Bool, true, false, not, ◌&&◌, ◌||◌, Option, none, some, List, [], ◌∷◌, ◌++◌, if◌then◌else◌,
  keep, some_of, Outcome, returns, throws, ◌>>=◌, each,
}
use ic_govmind.Js.Text.{Text, codes, is_empty}
use ic_govmind.Js.Integer.{ℤ, big_int, big_int_of_text}
use ic_govmind.Units.{units_at}
use ic_govmind.CreateDao.Form.{FormData, BaseToken, Member, UnlockItem, Governance}

-- The library of principals, and `new Date(text).getTime() * 1000000`, which is NaN for a text
-- that is no date.
pub record Platform (P : Type 0) : Type 0 where
  pub from_text : Text → Outcome P
  pub is_anonymous : P → Bool
  pub nanos : Text → Option ℤ

pub record Unlock : Type 0 where
  pub addr : Text
  pub timestamp : ℤ
  pub amount : ℕ

pub record Distribution : Type 0 where
  pub initial_distribution : List (Text × ℕ)
  pub unlock_schedule : Option (List Unlock)
  pub emission_rate : Option ℕ
  pub emission_period : Option ℤ

pub record TokenArg : Type 0 where
  pub name : Text
  pub symbol : Text
  pub decimals : Option ℤ
  pub total_supply : ℕ
  pub distribution_model : Option Distribution

pub record MemberArg (P : Type 0) : Type 0 where
  pub user_id : Text
  pub icp_principal : Option P
  pub eth_address : Option Text
  pub sol_address : Option Text
  pub role : Text
  pub reputation : ℤ
  pub joined_at : ℕ

pub record GovernanceArg : Type 0 where
  pub vote_weight_type : Text
  pub approval_threshold : ℤ
  pub voting_period_secs : ℤ
  pub quorum : ℤ

-- The fields that are always empty are left out.
pub record Dao (P : Type 0) : Type 0 where
  pub name : Text
  pub description : Option Text
  pub icon_url : Option Text
  pub chains : List Text
  pub base_token : TokenArg
  pub canister_id : Option P
  pub contract_address : Option Text
  pub members : List (MemberArg P)
  pub governance : GovernanceArg
  pub created_at : ℕ

-- `text ? [text] : []`, and the same with a conversion that may throw.
abbrev pub opt_text : Text → Option Text
opt_text t = if is_empty t then none else some t

abbrev pub opt_by {ℓ} : {A : Type ℓ} → (Text → Outcome A) → Text → Outcome (Option A)
opt_by f t = if is_empty t then returns none else (f t >>= λ a. returns (some a))

-- `s.timestamp && s.amount && m.icpPrincipal`.
abbrev pub is_scheduled : Member → UnlockItem → Bool
is_scheduled m s =
    not (is_empty s.timestamp) && (not (is_empty s.amount) && not (is_empty m.icp_principal))

-- `m.distributionAmount && m.icpPrincipal`.
abbrev pub is_initial : Member → Bool
is_initial m = not (is_empty m.distribution_amount) && not (is_empty m.icp_principal)

abbrev pub has_items {ℓ} : {A : Type ℓ} → List A → Bool
has_items [] = false
has_items (x ∷ xs) = true

-- `m.distributionAmount || m.unlockSchedule.length > 0`.
abbrev pub distributes : Member → Bool
distributes m = not (is_empty m.distribution_amount) || has_items m.unlock_schedule

unfoldable pub initial_of : Option ℤ → Member → Outcome (Text × ℕ)
initial_of decimals m = do
  amount ← units_at m.distribution_amount decimals
  returns (m.icp_principal, amount)

-- `[]`, where no member has an amount or a schedule.
unfoldable pub distribution_of : FormData → List Unlock → Outcome (Option Distribution)
unfolding initial_of
distribution_of form unlocks =
    let token = form.base_token in
    let model = (do
      initial ← each (initial_of token.decimals) (keep is_initial form.members)
      rate ← opt_by (λ t. units_at t token.decimals) token.emission_rate
      period ← opt_by big_int_of_text token.emission_period_secs
      returns (
          some (record {
            initial_distribution = initial;
            unlock_schedule = if has_items unlocks then some unlocks else none;
            emission_rate = rate;
            emission_period = period;
          }))) in
    if some_of distributes form.members then model else returns none

-- `tokenArg`, and the same fields of `base_token`.
unfoldable pub token_arg : FormData → List Unlock → Outcome TokenArg
unfolding distribution_of
token_arg form unlocks = do
  supply ← units_at form.base_token.total_supply form.base_token.decimals
  model ← distribution_of form unlocks
  returns (record {
    name = form.base_token.name;
    symbol = form.base_token.symbol;
    decimals = form.base_token.decimals;
    total_supply = supply;
    distribution_model = model;
  })

unfoldable pub governance_arg : Governance → Outcome GovernanceArg
governance_arg g = do
  threshold ← big_int g.approval_threshold
  period ← big_int g.voting_period_secs
  quorum ← big_int g.quorum
  returns (record {
    vote_weight_type = g.vote_weight_type;
    approval_threshold = threshold;
    voting_period_secs = period;
    quorum = quorum;
  })

module _ {P : Type 0} (platform : Platform P) where
  unfoldable pub is_valid_principal : Text → Bool
  is_valid_principal t = elim (platform.from_text t) [
    | throws e ↦ false
    | returns p ↦ if platform.is_anonymous p then false else true
  ]

  unfoldable pub unlock_of : Option ℤ → Member → UnlockItem → Outcome Unlock
  unlock_of decimals m s = do
    timestamp ← big_int (platform.nanos s.timestamp)
    amount ← units_at s.amount decimals
    returns (record { addr = m.icp_principal; timestamp = timestamp; amount = amount })

  -- The `flatMap` over the members.
  unfoldable pub unlock_items : Option ℤ → List Member → Outcome (List Unlock)
  unfolding unlock_of
  unlock_items decimals [] = returns []
  unlock_items decimals (m ∷ ms) = do
    items ← each (unlock_of decimals m) (keep (is_scheduled m) m.unlock_schedule)
    rest ← unlock_items decimals ms
    returns (items ++ rest)

  -- `text && isValidPrincipal(text) ? [Principal.fromText(text)] : []`.
  unfoldable pub opt_principal : Text → Outcome (Option P)
  unfolding is_valid_principal
  opt_principal t =
      if not (is_empty t) && is_valid_principal t
      then (platform.from_text t >>= λ p. returns (some p))
      else returns none

  unfoldable pub member_arg : Member → Outcome (MemberArg P)
  unfolding opt_principal
  member_arg m = do
    principal ← opt_principal m.icp_principal
    reputation ← big_int m.reputation
    returns (record {
      user_id = m.user_id;
      icp_principal = principal;
      eth_address = opt_text m.eth_address;
      sol_address = opt_text m.sol_address;
      role = m.role;
      reputation = reputation;
      joined_at = m.joined_at;
    })

  -- The record for the factory; `now` is `Date.now()`.
  unfoldable pub dao_of : ℕ → FormData → List Unlock → Outcome (Dao P)
  unfolding token_arg member_arg governance_arg opt_principal
  dao_of now form unlocks = do
    token ← token_arg form unlocks
    canister ← opt_principal form.base_token.canister_id
    members ← each member_arg form.members
    governance ← governance_arg form.governance
    returns (record {
      name = form.name;
      description = opt_text form.description;
      icon_url = opt_text form.icon_url;
      chains = form.chains;
      base_token = token;
      canister_id = canister;
      contract_address = opt_text form.base_token.contract_address;
      members = members;
      governance = governance;
      created_at = now;
    })

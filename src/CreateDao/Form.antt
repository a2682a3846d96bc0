-- ===== src/CreateDao/Form.antt =====
-- src/ic_govmind_frontend/src/pages/CreateDaoPage.jsx: the form's data and the handlers that edit
-- it. An edit `(field, value)` is a constructor named for the field, for the fields that the page
-- edits. A number that `parseInt` gave is `none` where it is NaN.

pub mod Laws
use ic_govmind.Base.{
  ℕ, ◌-◌, Bool, true, false, not, Option, none, some, List, [], ◌∷◌, ◌++◌, ltb, if◌then◌else◌,
  length, keep, some_of, remove_at, modify_at,
}
use ic_govmind.Js.Text.{Text, codes, text_eq}
use ic_govmind.Js.Integer.{ℤ, pos}

pub record BaseToken : Type 0 where
  pub name : Text
  pub symbol : Text
  pub decimals : Option ℤ
  pub total_supply : Text
  pub canister_id : Text
  pub contract_address : Text
  pub emission_rate : Text
  pub emission_period_secs : Text

pub record UnlockItem : Type 0 where
  pub timestamp : Text
  pub amount : Text
  pub executed : Bool

-- `metadata` is always the empty list.
pub record Member : Type 0 where
  pub user_id : Text
  pub role : Text
  pub reputation : Option ℤ
  pub eth_address : Text
  pub sol_address : Text
  pub icp_principal : Text
  pub joined_at : ℕ
  pub distribution_amount : Text
  pub unlock_schedule : List UnlockItem

pub record Governance : Type 0 where
  pub vote_weight_type : Text
  pub approval_threshold : Option ℤ
  pub voting_period_secs : Option ℤ
  pub quorum : Option ℤ

pub record FormData : Type 0 where
  pub name : Text
  pub description : Text
  pub icon_url : Text
  pub base_token : BaseToken
  pub chains : List Text
  pub governance : Governance
  pub members : List Member

unfoldable pub new_member : Text → ℕ → ℕ → Member
new_member role reputation now = record {
  user_id = [];
  role = role;
  reputation = some (pos reputation);
  eth_address = [];
  sol_address = [];
  icp_principal = [];
  joined_at = now;
  distribution_amount = [];
  unlock_schedule = [];
}

-- The state that the page starts with; `now` is `Date.now()`.
unfoldable pub initial_form : ℕ → FormData
unfolding new_member
initial_form now = record {
  name = [];
  description = [];
  icon_url = [];
  base_token = record {
    name = [];
    symbol = [];
    decimals = some (pos 8);
    total_supply = [];
    canister_id = [];
    contract_address = [];
    emission_rate = [];
    emission_period_secs = [];
  };
  chains = codes "InternetComputer" ∷ [];
  governance = record {
    vote_weight_type = codes "TokenWeighted";
    approval_threshold = some (pos 60);
    voting_period_secs = some (pos 604800);
    quorum = some (pos 10);
  };
  members = new_member (codes "Founder") 100 now ∷ [];
}

pub data InputChange : Type 0 where
  name : Text → InputChange
  description : Text → InputChange
  icon_url : Text → InputChange

unfoldable pub handle_input_change : InputChange → FormData → FormData
handle_input_change (name v) prev = record prev { name = v }
handle_input_change (description v) prev = record prev { description = v }
handle_input_change (icon_url v) prev = record prev { icon_url = v }

pub data TokenChange : Type 0 where
  token_name : Text → TokenChange
  symbol : Text → TokenChange
  decimals : Option ℤ → TokenChange
  total_supply : Text → TokenChange
  emission_rate : Text → TokenChange
  emission_period_secs : Text → TokenChange

unfoldable pub change_token : TokenChange → BaseToken → BaseToken
change_token (token_name v) t = record t { name = v }
change_token (symbol v) t = record t { symbol = v }
change_token (decimals v) t = record t { decimals = v }
change_token (total_supply v) t = record t { total_supply = v }
change_token (emission_rate v) t = record t { emission_rate = v }
change_token (emission_period_secs v) t = record t { emission_period_secs = v }

unfoldable pub handle_base_token_change : TokenChange → FormData → FormData
unfolding change_token
handle_base_token_change c prev = record prev { base_token = change_token c prev.base_token }

pub data GovernanceChange : Type 0 where
  vote_weight_type : Text → GovernanceChange
  approval_threshold : Option ℤ → GovernanceChange
  voting_period_secs : Option ℤ → GovernanceChange
  quorum : Option ℤ → GovernanceChange

unfoldable pub change_governance : GovernanceChange → Governance → Governance
change_governance (vote_weight_type v) g = record g { vote_weight_type = v }
change_governance (approval_threshold v) g = record g { approval_threshold = v }
change_governance (voting_period_secs v) g = record g { voting_period_secs = v }
change_governance (quorum v) g = record g { quorum = v }

unfoldable pub handle_governance_change : GovernanceChange → FormData → FormData
unfolding change_governance
handle_governance_change c prev = record prev { governance = change_governance c prev.governance }

-- `chains.includes(chain)`.
abbrev pub has_chain : Text → List Text → Bool
has_chain chain = some_of (text_eq chain)

unfoldable pub toggle_chain : Text → List Text → List Text
toggle_chain chain chains =
    if has_chain chain chains
    then keep (λ c. not (text_eq chain c)) chains
    else chains ++ chain ∷ []

unfoldable pub handle_chain_toggle : Text → FormData → FormData
unfolding toggle_chain
handle_chain_toggle chain prev = record prev { chains = toggle_chain chain prev.chains }

unfoldable pub add_member : ℕ → FormData → FormData
unfolding new_member
add_member now prev = record prev {
  members = prev.members ++ new_member (codes "Voter") 10 now ∷ [];
}

unfoldable pub remove_member : ℕ → FormData → FormData
unfolding remove_at
remove_member index form =
    if ltb 1 (length form.members)
    then record form { members = remove_at index form.members }
    else form

pub data MemberChange : Type 0 where
  icp_principal : Text → MemberChange
  role : Text → MemberChange
  reputation : Option ℤ → MemberChange
  distribution_amount : Text → MemberChange

unfoldable pub change_member : MemberChange → Member → Member
change_member (icp_principal v) m = record m { icp_principal = v }
change_member (role v) m = record m { role = v }
change_member (reputation v) m = record m { reputation = v }
change_member (distribution_amount v) m = record m { distribution_amount = v }

unfoldable pub update_member : ℕ → MemberChange → FormData → FormData
unfolding modify_at change_member
update_member index c prev = record prev {
  members = modify_at index (change_member c) prev.members;
}

abbrev pub update_schedule : ℕ → (List UnlockItem → List UnlockItem) → FormData → FormData
update_schedule index f prev = record prev {
  members = modify_at index (λ m. record m { unlock_schedule = f m.unlock_schedule }) prev.members;
}

abbrev pub blank_item : UnlockItem
blank_item = record { timestamp = []; amount = []; executed = false }

unfoldable pub add_unlock_schedule_item : ℕ → FormData → FormData
add_unlock_schedule_item member = update_schedule member (λ items. items ++ blank_item ∷ [])

unfoldable pub remove_unlock_schedule_item : ℕ → ℕ → FormData → FormData
remove_unlock_schedule_item member index = update_schedule member (remove_at index)

pub data UnlockChange : Type 0 where
  timestamp : Text → UnlockChange
  amount : Text → UnlockChange

unfoldable pub change_unlock : UnlockChange → UnlockItem → UnlockItem
change_unlock (timestamp v) item = record item { timestamp = v }
change_unlock (amount v) item = record item { amount = v }

unfoldable pub update_unlock_schedule_item : ℕ → ℕ → UnlockChange → FormData → FormData
unfolding change_unlock
update_unlock_schedule_item member index c =
    update_schedule member (modify_at index (change_unlock c))

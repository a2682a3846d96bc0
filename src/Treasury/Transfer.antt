-- ===== src/Treasury/Transfer.antt =====
-- src/ic_govmind_frontend/src/components/tabs/TreasuryTab.jsx: the transfer of tokens out of the
-- treasury, and the two dialogs.
pub mod Origin
pub mod Laws
use ic_govmind.Base.{
  ℕ, Bool, true, false, not, ◌||◌, Option, none, some, List, [], ◌∷◌, ◌++◌, ltb, leb, if◌then◌else◌,
  Outcome, returns, throws, Thrown, error, syntax_error, type_error, range_error, ◌>>=◌,
}
use ic_govmind.Js.Text.{Text, codes, text_eq, trim, is_empty}
use ic_govmind.Units.{to_units}
use ic_govmind.Treasury.Wallet.{
  Asset, Wallets, owner_of, bitcoin_of, ethereum_of, icp_owner_text, get_receive_address_for_asset,
}

pub record Dialogs : Type 0 where
  pub is_transfer_open : Bool
  pub selected_asset : Option Asset
  pub recipient : Text
  pub transfer_amount : Text
  pub transfer_loading : Bool
  pub transfer_error : Text
  pub transfer_success : Text
  pub is_receive_open : Bool
  pub receive_asset : Option Asset
  pub copied : Bool

pub data Chain : Type 0 where
  internet_computer : Chain
  bitcoin : Chain
  ethereum : Chain

pub record TransferArg : Type 0 where
  pub chain_type : Chain
  pub token_name : Text
  pub wallet_address : Text
  pub wallet_subaccount : List (List ℕ)
  pub recipient_address : Text
  pub recipient_subaccount : List (List ℕ)
  pub amount : ℕ

-- The canister's answer: `Ok` or `Err` with their texts, or a value that is falsy.
pub data Reply : Type 0 where
  ok : Text → Reply
  err : Text → Reply
  unknown : Reply

-- What the tab is given: whether an agent is there, the identifier of the DAO, the wallets, the
-- canister behind an identifier as its `wallet_token_transfer` (making it and calling it may throw)
-- and the words of an error other than one with a text.
pub record Context : Type 0 where
  pub has_agent : Bool
  pub dao_id : Text
  pub wallets : Option Wallets
  pub create_backend_actor : Text → Outcome (TransferArg → Outcome Reply)
  pub words : Thrown → Text

unfoldable pub open_transfer : Option Asset → Dialogs → Dialogs
open_transfer asset d = record d {
  selected_asset = asset;
  recipient = [];
  transfer_amount = [];
  transfer_error = [];
  transfer_success = [];
  is_transfer_open = true;
}

unfoldable pub close_transfer : Dialogs → Dialogs
close_transfer d = record d {
  is_transfer_open = false;
  selected_asset = none;
  recipient = [];
  transfer_amount = [];
  transfer_error = [];
  transfer_success = [];
  transfer_loading = false;
}

unfoldable pub open_receive : Option Asset → Dialogs → Dialogs
open_receive asset d = record d { receive_asset = asset; is_receive_open = true }

unfoldable pub close_receive : Dialogs → Dialogs
close_receive d = record d { is_receive_open = false; receive_asset = none }

-- `handleCopyReceiveAddress` with a clipboard that takes a text or throws; the mark that it sets is
-- taken back after 1.5 seconds.
unfoldable pub handle_copy_receive_address :
    Option Wallets → (Text → Outcome (Unit {0})) → Dialogs → Dialogs
handle_copy_receive_address w write_text d =
    let addr = get_receive_address_for_asset w d.receive_asset in
    if is_empty addr
    then d
    else elim (write_text addr) [ returns u ↦ record d { copied = true } | throws e ↦ d ]

-- `e?.message || String(e)`.
abbrev pub error_text : (Thrown → Text) → Thrown → Text
error_text words (error m) = if is_empty m then codes "Error" else m
error_text words (syntax_error m) = words (syntax_error m)
error_text words (type_error m) = words (type_error m)
error_text words (range_error m) = words (range_error m)

-- The test of the amount against the balance, where that is known.
unfoldable pub within_balance : Option ℕ → ℕ → Outcome ℕ
within_balance none units = returns units
within_balance (some held) units =
    if ltb held units
    then throws (error (codes "Amount exceeds available balance"))
    else returns units

unfoldable pub checked_amount : Asset → Text → Outcome ℕ
checked_amount asset text = to_units text asset.decimals >>= λ units.
    if leb units 0
    then throws (error (codes "Amount must be greater than 0"))
    else within_balance asset.base_units units

abbrev pub subaccount_of : Option Wallets → List (List ℕ)
subaccount_of none = []
subaccount_of (some w) = w.subaccount

pub record Source : Type 0 where
  pub chain_type : Chain
  pub address : Text
  pub subaccount : List (List ℕ)

-- The chain, the address and the subaccount that an asset is sent from.
unfoldable pub source_of : Option Wallets → Asset → Outcome Source
source_of w asset =
    if text_eq asset.chain (codes "Internet Computer")
    then (elim (owner_of w) [
      | none ↦ returns (record {
        chain_type = internet_computer;
        address = icp_owner_text w;
        subaccount = subaccount_of w;
      })
      | some text ↦ text >>= λ address. returns (record {
        chain_type = internet_computer;
        address = address;
        subaccount = subaccount_of w;
      })
    ])
    else if text_eq asset.chain (codes "Bitcoin")
    then returns (record { chain_type = bitcoin; address = bitcoin_of w; subaccount = [] })
    else if text_eq asset.chain (codes "Ethereum")
    then returns (record { chain_type = ethereum; address = ethereum_of w; subaccount = [] })
    else throws (error (codes "Unsupported chain: " ++ asset.chain))

abbrev pub require : Bool → Text → Outcome (Unit {0})
require fine text = if fine then returns tt else throws (error text)

-- The argument of the call, from the tests of the form to the wallet.
unfoldable pub transfer_arg : Context → Asset → Dialogs → Outcome TransferArg
transfer_arg c asset d =
    require c.has_agent (codes "Not authenticated. Please log in.") >>= λ agent.
    require (not (is_empty c.dao_id)) (codes "DAO canister ID missing.") >>= λ dao.
    require (not (is_empty d.recipient || is_empty (trim d.recipient)))
      (codes "Recipient address is required")
    >>= λ given. checked_amount asset d.transfer_amount >>= λ units.
        source_of c.wallets asset >>= λ source.
        require (not (is_empty source.address))
          (codes "DAO wallet address not available for this chain")
        >>= λ there. returns (record {
          chain_type = source.chain_type;
          token_name = asset.token_name;
          wallet_address = source.address;
          wallet_subaccount = source.subaccount;
          recipient_address = trim d.recipient;
          recipient_subaccount = [];
          amount = units;
        })

unfoldable pub show_reply : Reply → Dialogs → Dialogs
show_reply (ok id) d = record d { transfer_success = codes "Transfer submitted: " ++ id }
show_reply (err text) d = record d {
  transfer_error = if is_empty text then codes "Transfer failed" else text;
}
show_reply unknown d = record d { transfer_error = codes "Unknown response from backend" }

-- The dialogs after an error, and after the canister's answer.
unfoldable pub show_error : Context → Thrown → Dialogs → Dialogs
show_error c e d = record d { transfer_error = error_text c.words e }

unfoldable pub show_answer : Context → Outcome Reply → Dialogs → Dialogs
unfolding show_reply show_error
show_answer c (throws e) d = show_error c e d
show_answer c (returns reply) d = show_reply reply d

-- The call, where the canister could be made.
unfoldable pub call_actor :
    Context
    → Outcome (TransferArg → Outcome Reply)
    → TransferArg
    → Dialogs
    → Dialogs × Option TransferArg
unfolding show_answer
call_actor c (throws e) arg d = (show_error c e d, none)
call_actor c (returns wallet_token_transfer) arg d =
    (show_answer c (wallet_token_transfer arg) d, some arg)

-- From the argument on: nothing is called where it could not be made.
unfoldable pub send : Context → Outcome TransferArg → Dialogs → Dialogs × Option TransferArg
unfolding call_actor
send c (throws e) d = (show_error c e d, none)
send c (returns arg) d = call_actor c (c.create_backend_actor c.dao_id) arg d

-- The messages of an earlier transfer are cleared, and the transfer is not under way at the end.
unfoldable pub cleared : Dialogs → Dialogs
cleared d = record d { transfer_error = []; transfer_success = []; transfer_loading = false }

unfoldable pub submit_asset : Context → Option Asset → Dialogs → Dialogs × Option TransferArg
submit_asset c none d = (d, none)
submit_asset c (some asset) d = send c (transfer_arg c asset d) (cleared d)

-- `submitTransfer`: the dialogs that it ends with, and the call that it made.
unfoldable pub submit_transfer : Context → Dialogs → Dialogs × Option TransferArg
submit_transfer c d = submit_asset c d.selected_asset d

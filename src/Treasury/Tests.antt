-- ===== src/Treasury/Tests.antt =====
-- A transfer out of a treasury, and the theorems about transfers at that run.
mod Values
use ic_govmind.Base.{◌≡◌, refl, true, false, none, some, [], returns}
use ic_govmind.Js.Text.{codes, trim, split, all_digits, only_digits, pad_end, text_eq, is_space}
use ic_govmind.Js.Decimal.{value}
use ic_govmind.Units.{to_units}
use ic_govmind.Treasury.Wallet.{
  Asset, live_balance_items, icp_owner_text, get_receive_address_for_asset,
}
use ic_govmind.Treasury.Transfer.{
  Dialogs, Context, TransferArg, internet_computer, ok, open_transfer, within_balance,
  checked_amount, source_of, transfer_arg, show_reply, show_error, show_answer, call_actor, send,
  cleared, submit_asset, submit_transfer,
}
use ic_govmind.Treasury.Transfer.Laws.{
  IsSound, ShowsOne, submit_transfer-IsSound, submit_transfer-ShowsOne,
}

runs : Unit {0}
unfolding trim split all_digits only_digits pad_end text_eq is_space value to_units
    live_balance_items icp_owner_text get_receive_address_for_asset open_transfer within_balance
    checked_amount source_of transfer_arg show_reply show_error show_answer call_actor send cleared
    submit_asset submit_transfer
runs = tt

abbrev icp : Asset
icp = record {
  key = codes "icp";
  symbol = codes "ICP";
  token_name = codes "ICP";
  chain = codes "Internet Computer";
  decimals = 8;
  base_units = some 500000000;
}

abbrev context : Context
context = record {
  has_agent = true;
  dao_id = codes "dao";
  wallets = some (record {
    owner = some (returns (codes "owner"));
    subaccount = [];
    bitcoin = codes "bc1";
    ethereum = codes "0x1";
  });
  create_backend_actor = λ id. returns (λ arg. returns (ok (codes "17")));
  words = λ t. codes "TypeError";
}

abbrev dialogs : Dialogs
dialogs = record {
  is_transfer_open = true;
  selected_asset = some icp;
  recipient = codes " bob ";
  transfer_amount = codes "1.5";
  transfer_loading = false;
  transfer_error = codes "old";
  transfer_success = [];
  is_receive_open = false;
  receive_asset = none;
  copied = false;
}

abbrev asked : TransferArg
asked = record {
  chain_type = internet_computer;
  token_name = codes "ICP";
  wallet_address = codes "owner";
  wallet_subaccount = [];
  recipient_address = codes "bob";
  recipient_subaccount = [];
  amount = 150000000;
}

asks : (submit_transfer context dialogs).1 ≡ some asked
unfolding runs
asks = refl

submit_transfer-IsSound_example :
    (asset : Asset) × (dialogs.selected_asset ≡ some asset) × IsSound context asset dialogs asked
submit_transfer-IsSound_example = submit_transfer-IsSound context dialogs asked asks

submit_transfer-ShowsOne_example : ShowsOne (submit_transfer context dialogs).0
submit_transfer-ShowsOne_example = submit_transfer-ShowsOne context dialogs icp refl (λ t. refl)

-- An amount above the balance is not sent.
refuses : (submit_transfer context (record dialogs { transfer_amount = codes "5.01" })).1 ≡ none
unfolding runs
refuses = refl

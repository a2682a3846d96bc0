-- ===== src/CreateDao/Tests.antt =====
-- A run of the form up to the created DAO, and the theorems about it at that run.
use ic_govmind.Base.{◌≡◌, refl, Bool, false, not, none, some, [], ◌∷◌, Outcome, returns, throws}
use ic_govmind.Js.Text.{Text, codes, trim, split, all_digits, only_digits, pad_end, text_eq}
use ic_govmind.Js.Decimal.{value}
use ic_govmind.Js.Integer.{pos, big_int, big_int_of_text, parse_int}
use ic_govmind.Units.{to_units, units_at}
use ic_govmind.CreateDao.Form.{
  FormData, InputChange, MemberChange, TokenChange, UnlockChange, initial_form, handle_input_change,
  handle_base_token_change, update_member, add_unlock_schedule_item, update_unlock_schedule_item,
  toggle_chain, has_chain, new_member, change_member, change_unlock, remove_member,
}
use ic_govmind.CreateDao.Form.Laws.{
  start, member_removed, step_errors_of_reachable, has_chain-toggle_chain,
}
use ic_govmind.CreateDao.Wizard.{Page, step_errors, validate_step, handle_next}
use ic_govmind.CreateDao.Request.{
  Platform, Dao, unlock_items, dao_of, token_arg, unlock_of, initial_of, distribution_of,
  opt_principal, member_arg, governance_arg, is_valid_principal,
}
use ic_govmind.CreateDao.Request.Laws.{AllKnown, dao_of-AllKnown}
use ic_govmind.CreateDao.Submit.{
  created, create_gov_dao, create_dao_base_token, World, request_of, handle_create_dao, create_now,
  token_calls, success, finish, calls_after,
}
use ic_govmind.CreateDao.Submit.Laws.{
  IsCreated, handle_create_dao_of_created, handle_create_dao-IsCreated,
}

runs : Unit {0}
unfolding trim split all_digits only_digits pad_end text_eq value big_int big_int_of_text parse_int
    to_units units_at initial_form handle_input_change handle_base_token_change update_member
    add_unlock_schedule_item update_unlock_schedule_item toggle_chain new_member change_member
    change_unlock remove_member step_errors validate_step handle_next unlock_items dao_of token_arg
    unlock_of initial_of distribution_of opt_principal member_arg governance_arg is_valid_principal
    request_of handle_create_dao create_now token_calls finish calls_after
runs = tt

-- A principal is a text without the letter of the anonymous one; dates are numbers.
abbrev is_a : Text → Bool
is_a = text_eq (codes "2vxsx-fae")

abbrev sample_platform : Platform Text
sample_platform = record { from_text = returns; is_anonymous = is_a; nanos = λ t. some (pos 5) }

abbrev world : World Text
world = record {
  platform = sample_platform;
  create = λ dao. returns (created (codes "aaa"));
  actor = λ id. returns tt;
  now = 7;
  text_of_error = λ t. codes "Error";
}

abbrev form : FormData
form = update_unlock_schedule_item 0 0 (UnlockChange.amount (codes "2.5")) (
    update_unlock_schedule_item 0 0 (UnlockChange.timestamp (codes "2030-01-01")) (
      add_unlock_schedule_item 0 (
        update_member 0 (MemberChange.icp_principal (codes "w7x7r")) (
          handle_base_token_change (TokenChange.decimals (some (pos 2))) (
            handle_base_token_change (TokenChange.total_supply (codes "1000")) (
              handle_base_token_change (TokenChange.symbol (codes "GOV")) (
                handle_base_token_change (TokenChange.token_name (codes "Gov"))
                  (handle_input_change (InputChange.name (codes "Mind")) (initial_form 3)))))))))

abbrev page : Page
page = record {
  form = form;
  current_step = 1;
  errors = [];
  is_creating = false;
  show_success = false;
  destination = none;
}

-- The DAO of a request that can be made.
abbrev dao_or : Dao Text → Outcome (Dao Text) → Dao Text
dao_or other (returns dao) = dao
dao_or other (throws t) = other

abbrev blank : Dao Text
blank = record {
  name = [];
  description = none;
  icon_url = none;
  chains = [];
  base_token = record {
    name = [];
    symbol = [];
    decimals = none;
    total_supply = 0;
    distribution_model = none;
  };
  canister_id = none;
  contract_address = none;
  members = [];
  governance = record {
    vote_weight_type = [];
    approval_threshold = pos 0;
    voting_period_secs = pos 0;
    quorum = pos 0;
  };
  created_at = 0;
}

abbrev dao : Dao Text
dao = dao_or blank (request_of world form)

made : request_of world form ≡ returns dao
unfolding runs
made = refl

supply : dao.base_token.total_supply ≡ 100000
unfolding runs
supply = refl

handle_create_dao_of_created_example : handle_create_dao world page ≡ (
  success world (codes "aaa") page,
  create_gov_dao dao ∷ create_dao_base_token (codes "aaa") dao.base_token ∷ [],
)
unfolding runs
handle_create_dao_of_created_example =
    handle_create_dao_of_created world page dao (codes "aaa") refl made refl refl refl

handle_create_dao-IsCreated_example : IsCreated world page (handle_create_dao world page).0
unfolding runs
handle_create_dao-IsCreated_example = handle_create_dao-IsCreated world page refl refl

dao_of-AllKnown_example : AllKnown sample_platform dao
unfolding runs
dao_of-AllKnown_example =
    dao_of-AllKnown sample_platform 7 form
      ((record { addr = codes "w7x7r"; timestamp = pos 5; amount = 250 }) ∷ []) dao refl

step_errors_of_reachable_example : step_errors 2 (remove_member 0 (initial_form 3)) ≡ []
step_errors_of_reachable_example =
    step_errors_of_reachable (remove_member 0 (initial_form 3))
      (member_removed 0 (initial_form 3) (start 3))

has_chain-toggle_chain_sample :
    has_chain (codes "TON") (toggle_chain (codes "TON") (codes "Bitcoin" ∷ []))
    ≡ not (has_chain (codes "TON") (codes "Bitcoin" ∷ []))
has_chain-toggle_chain_sample = has_chain-toggle_chain (codes "TON") (codes "Bitcoin" ∷ [])

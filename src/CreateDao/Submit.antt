-- ===== src/CreateDao/Submit.antt =====
-- src/ic_govmind_frontend/src/pages/CreateDaoPage.jsx: `handleCreateDao`, from the button to the
-- page that is shown when it has ended, with the calls of the canisters in order.
pub mod Laws
use ic_govmind.Base.{
  ℕ, Bool, true, false, not, Option, none, some, List, [], ◌∷◌, ◌++◌, if◌then◌else◌, Thrown,
  Outcome, returns, throws, ◌>>=◌,
}
use ic_govmind.Js.Text.{Text, codes, is_empty}
use ic_govmind.CreateDao.Form.{FormData}
use ic_govmind.CreateDao.Wizard.{Page, validate_step}
use ic_govmind.CreateDao.Request.{Platform, TokenArg, Dao, unlock_items, dao_of, token_arg}

-- What `create_gov_dao` answers. `refused none` has no error text.
pub data Answer : Type 0 where
  created : Text → Answer
  refused : Option Text → Answer

pub data Call (P : Type 0) : Type 0 where
  create_gov_dao : Dao P → Call P
  create_dao_base_token : Text → TokenArg → Call P

-- The factory, `createBackendActor`, which throws where the identifier is none, the clock and
-- `String(error)`. What the new canister answers is only logged.
pub record World (P : Type 0) : Type 0 where
  pub platform : Platform P
  pub create : Dao P → Outcome Answer
  pub actor : Text → Outcome (Unit {0})
  pub now : ℕ
  pub text_of_error : Thrown → Text

abbrev pub submit_error : Text → Page → Page
submit_error text page = record page { errors = (codes "submit", text) ∷ []; is_creating = false }

abbrev pub refusal : Option Text → Text
refusal none = codes "Failed to create DAO. Please try again."
refusal (some t) = if is_empty t then codes "Failed to create DAO. Please try again." else t

module _ {P : Type 0} (world : World P) where
  abbrev pub crash_text : Thrown → Text
  crash_text t = codes "Error creating DAO: " ++ world.text_of_error t

  -- The inner `try`: the call that creates the token, if its argument can be made.
  unfoldable pub token_calls : Text → FormData → Outcome (List (Call P))
  token_calls id form = do
    items ← unlock_items world.platform form.base_token.decimals form.members
    actor ← world.actor id
    arg ← token_arg form items
    returns (create_dao_base_token id arg ∷ [])

  abbrev pub calls_or_none : Outcome (List (Call P)) → List (Call P)
  calls_or_none (returns calls) = calls
  calls_or_none (throws t) = []

  abbrev pub success : Text → Page → Page
  success id page = record page {
    errors = [];
    is_creating = false;
    show_success = true;
    destination = some (codes "/dao/" ++ id);
  }

  -- What the page becomes for the factory's answer.
  unfoldable pub finish : Outcome Answer → Page → Page
  finish (throws t) page = submit_error (crash_text t) page
  finish (returns (refused err)) page = submit_error (refusal err) page
  finish (returns (created id)) page =
      if is_empty id then submit_error (refusal none) page else success id page

  unfoldable pub calls_after : Outcome Answer → FormData → List (Call P)
  calls_after (throws t) form = []
  calls_after (returns (refused err)) form = []
  calls_after (returns (created id)) form =
      if is_empty id then [] else calls_or_none (token_calls id form)

  -- The `try` block up to the call of the factory.
  unfoldable pub request_of : FormData → Outcome (Dao P)
  request_of form = do
    items ← unlock_items world.platform form.base_token.decimals form.members
    dao_of world.platform world.now form items

  unfoldable pub create_now : Page → Page × List (Call P)
  create_now page = elim (request_of page.form) [
    | throws t ↦ (submit_error (crash_text t) page, [])
    | returns dao ↦ (
      finish (world.create dao) page,
      create_gov_dao dao ∷ calls_after (world.create dao) page.form,
    )
  ]

  unfoldable pub handle_create_dao : Page → Page × List (Call P)
  handle_create_dao page =
      let (checked, ok) = validate_step page.current_step page in
      if ok then create_now checked else (checked, [])

-- ===== src/DaoPage.antt =====
-- src/ic_govmind_frontend/src/pages/DaoInfoPage.jsx, components/DaoTabs.jsx and
-- components/tabs/CanisterTab.jsx: the page of a DAO, its tabs, the retry of the token's creation
-- and the upgrade of the canister.
pub mod Laws
pub mod View
mod Tests
use ic_govmind.Base.{
  ℕ, ◌≡◌, Bool, true, false, not, ◌&&◌, Option, none, some, List, [], ◌∷◌, if◌then◌else◌, some_of,
  Outcome, returns, throws, map,
}
use ic_govmind.Js.Text.{Text, codes, text_eq, is_empty}
use ic_govmind.Assistant.Service.{Variant, ok, err, absent}

-- `validTabs`.
abbrev pub valid_tabs : List Text
valid_tabs =
    codes "overview"
    ∷ codes "members"
    ∷ codes "proposals"
    ∷ codes "distribution"
    ∷ codes "treasury"
    ∷ codes "governance"
    ∷ codes "committees"
    ∷ codes "canister"
    ∷ []

-- The tabs of `DaoTabs`, in their order.
abbrev pub tab_ids : List Text
tab_ids =
    codes "overview"
    ∷ codes "members"
    ∷ codes "proposals"
    ∷ codes "distribution"
    ∷ codes "treasury"
    ∷ codes "governance"
    ∷ codes "committees"
    ∷ codes "canister"
    ∷ []

unfoldable pub is_valid_tab : Text → Bool
unfolding text_eq
is_valid_tab t = some_of (text_eq t) valid_tabs

-- The tab that the page starts with, for the parameter `tab` of its address.
unfoldable pub initial_tab : Option Text → Text
initial_tab none = codes "overview"
initial_tab (some t) = if is_valid_tab t then t else codes "overview"

-- The effect that follows the address.
unfoldable pub sync_tab : Option Text → Text → Text
sync_tab none active = active
sync_tab (some t) active =
    if not (is_empty t) && (is_valid_tab t && not (text_eq t active)) then t else active

-- What the page can show: it starts, follows its address, or a tab is clicked.
pub data IsShown : Text → Type 0 where
  start : (query : Option Text) → IsShown (initial_tab query)
  synced : (query : Option Text) (active : Text) → IsShown active → IsShown (sync_tab query active)
  clicked : (id active : Text) → some_of (text_eq id) tab_ids ≡ true → IsShown active → IsShown id

pub data Status : Type 0 where
  success : Status
  failure : Status

-- `handleRetryTokenCreation`: `T` is the distribution model, which may be missing.
pub record TokenArg (T : Type 0) : Type 0 where
  pub name : Text
  pub symbol : Text
  pub decimals : ℕ
  pub total_supply : ℕ
  pub distribution_model : T

pub record BaseToken (T : Type 0) : Type 0 where
  pub name : Text
  pub symbol : Text
  pub decimals : ℕ
  pub total_supply : ℕ
  pub distribution_model : Option T

unfoldable pub retry_arg : {T : Type 0} → Option (BaseToken T) → Option (TokenArg T)
retry_arg none = none
retry_arg (some token) = elim token.distribution_model [
  | none ↦ none
  | some model ↦ some (record {
    name = token.name;
    symbol = token.symbol;
    decimals = token.decimals;
    total_supply = token.total_supply;
    distribution_model = model;
  })
]

-- The status that an answer leaves, up to the timer that takes it back.
unfoldable pub status_of : {A : Type 0} → Outcome (Variant A) → Status
status_of (returns (ok a)) = success
status_of (returns (err t)) = failure
status_of (returns absent) = failure
status_of (throws t) = failure

unfoldable pub handle_retry_token_creation :
    {T A : Type 0}
    → (TokenArg T → Outcome (Variant A))
    → Option (BaseToken T)
    → Option Status
    → Option Status
unfolding retry_arg status_of
handle_retry_token_creation create token status = elim (retry_arg token) [
  | none ↦ status
  | some arg ↦ some (status_of (create arg))
]

-- `handleUpgrade` of the canister tab.
unfoldable pub handle_upgrade :
    {A : Type 0} → Option (Outcome (Variant A)) → Option Status → Option Status
unfolding status_of
handle_upgrade none status = status
handle_upgrade (some answer) status = some (status_of answer)

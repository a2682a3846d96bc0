-- ===== src/Sns/Dashboard.antt =====
-- src/ic_govmind_frontend/src/pages/UserDashboardPage.jsx: the page of SNS DAOs that is shown, its
-- buttons, and the card of the user's own DAO. What a query gives while it runs has no data.
pub mod Browsing
pub mod Reached
pub mod Walked
mod Tests
use ic_govmind.Base.{
  ℕ, ◌+◌, ◌-◌, max, Bool, true, false, not, ◌&&◌, Option, none, some, List, [], ◌∷◌, length, ◌==◌,
  if◌then◌else◌, Outcome, returns, throws, Thrown,
}
use ic_govmind.Js.Text.{Text, is_empty}
use ic_govmind.Sns.{ShownCanister}
use ic_govmind.Sns.Registry.{PaginationInfo}
use ic_govmind.Sns.Listing.{SnsPage}

pub data Fetched (A : Type 0) : Type 0 where
  pending : Fetched A
  failed : Thrown → Fetched A
  loaded : A → Fetched A

abbrev pub fetched : {A : Type 0} → Outcome A → Fetched A
fetched (returns a) = loaded a
fetched (throws t) = failed t

pub record Controls : Type 0 where
  pub current_page : ℕ
  pub total_pages : ℕ
  pub previous_enabled : Bool
  pub next_enabled : Bool

pub data SnsView (N : Type 0) : Type 0 where
  loading : SnsView N
  failed_to_load : Thrown → SnsView N
  none_found : SnsView N
  listed : List (ShownCanister N) → Controls → SnsView N

-- `a || b` between numbers.
abbrev or_number : ℕ → ℕ → ℕ
or_number a b = if a == 0 then b else a

module _ {N : Type 0} where
  unfoldable pub has_prev_page : Fetched (SnsPage N) → Bool
  has_prev_page (loaded p) = p.pagination_info.has_prev_page
  has_prev_page _ = false

  unfoldable pub has_next_page : Fetched (SnsPage N) → Bool
  has_next_page (loaded p) = p.pagination_info.has_next_page
  has_next_page _ = false

  unfoldable pub controls : ℕ → Fetched (SnsPage N) → PaginationInfo → Controls
  unfolding has_prev_page has_next_page
  controls sns_page query info = record {
    current_page = or_number info.current_page sns_page;
    total_pages = or_number info.total_pages 1;
    previous_enabled = has_prev_page query;
    next_enabled = has_next_page query;
  }

  abbrev shown_page : ℕ → SnsPage N → List (ShownCanister N) → SnsView N
  unfolding controls
  shown_page sns_page p [] = none_found
  shown_page sns_page p (c ∷ cs) = listed (c ∷ cs) (controls sns_page (loaded p) p.pagination_info)

  unfoldable pub sns_view : ℕ → Fetched (SnsPage N) → SnsView N
  unfolding shown_page
  sns_view sns_page pending = loading
  sns_view sns_page (failed t) = failed_to_load t
  sns_view sns_page (loaded p) = shown_page sns_page p p.canisters

  -- The buttons stand under a list that is not empty, and a disabled one does nothing.

  unfoldable pub click_previous : SnsView N → ℕ → ℕ
  click_previous (listed cs c) p = if c.previous_enabled then max 1 (p - 1) else p
  click_previous _ p = p

  unfoldable pub click_next : SnsView N → ℕ → ℕ
  click_next (listed cs c) p = if c.next_enabled then p + 1 else p
  click_next _ p = p

-- The user's DAO, as far as its card shows it.
pub record MyDao : Type 0 where
  pub id : Text
  pub name : Text
  pub description : Text
  pub icon_url : List Text
  pub members : ℕ
  pub proposals : ℕ

pub data MyDaoView : Type 0 where
  loading_dao : MyDaoView
  no_dao : MyDaoView
  card : MyDao → Option Text → MyDaoView

-- `icon_url && icon_url[0]`, as an image's source.
abbrev pub icon_of : List Text → Option Text
icon_of [] = none
icon_of (url ∷ urls) = if is_empty url then none else some url

-- An error of the query is shown as if there were no DAO.
unfoldable pub my_dao_view : Fetched (Option MyDao) → MyDaoView
my_dao_view pending = loading_dao
my_dao_view (failed t) = no_dao
my_dao_view (loaded none) = no_dao
my_dao_view (loaded (some dao)) = card dao (icon_of dao.icon_url)

-- `Create DAO` stands beside the heading.
unfoldable pub offers_creation : Fetched (Option MyDao) → Bool
offers_creation (loaded (some dao)) = false
offers_creation _ = true

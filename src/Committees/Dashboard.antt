-- ===== src/Committees/Dashboard.antt =====
-- src/ic_govmind_frontend/src/pages/CommitteeDashboardPage.jsx: the committee that a link names,
-- what is shown of it, and what in its place.
pub mod Laws
use ic_govmind.Base.{
  ℕ, ◌/◌, ◌^◌, max, ◌==◌, ltb, Bool, true, false, ◌||◌, Option, none, some, List, [], ◌∷◌, map,
  if◌then◌else◌, Outcome, returns, throws, type_error,
}
use ic_govmind.Js.Text.{Text, codes}

-- A committee as the backend holds it. `kind` is the first key of its type.
pub record Held : Type 0 where
  pub id : ℕ
  pub kind : Text
  pub term_duration_secs : ℕ
  pub elected_at : List ℕ
  pub next_election_at : List ℕ
  pub members : List Text

-- `backendDao.committees.find((c) => Number(c.id) === idNum) || null`; `none` is a text that is the
-- number of no committee.
unfoldable pub find_committee_of : Option ℕ → List Held → Option Held
find_committee_of none cs = none
find_committee_of (some id) [] = none
find_committee_of (some id) (c ∷ cs) = if c.id == id then some c else find_committee_of (some id) cs

-- `committee`, where the DAO may be missing.
unfoldable pub committee_at : Option ℕ → Option (List Held) → Option Held
unfolding find_committee_of
committee_at id none = none
committee_at id (some cs) = find_committee_of id cs

-- `Math.max(1, Math.floor(Number(term_duration_secs || 0) / 86400))`.
unfoldable pub term_days : ℕ → ℕ
term_days secs = max 1 (secs / 86400)

-- What the page takes from doubles and dates: `number` is `Number` of a `bigint`, `floor_millis` is
-- `Math.floor(x / 1e6)`, and `to_locale` is `new Date(x).toLocaleString()`.
pub record Dates : Type 0 where
  pub number : ℕ → ℕ
  pub floor_millis : ℕ → ℕ
  pub to_locale : ℕ → Text

-- `formatDate`: a number above 1e15 is taken for nanoseconds.
unfoldable pub format_date : Dates → ℕ → Text
format_date d date =
    if date == 0
    then codes "N/A"
    else d.to_locale (if ltb (10 ^ 15) date then d.floor_millis date else date)

-- `electedAt ? formatDate(electedAt) : 'N/A'`.
unfoldable pub date_text : Dates → List ℕ → Text
unfolding format_date
date_text d [] = codes "N/A"
date_text d (t ∷ ts) = if d.number t == 0 then codes "N/A" else format_date d (d.number t)

pub record Card : Type 0 where
  pub title_kind : Text
  pub id : ℕ
  pub days : ℕ
  pub elected : Text
  pub next_election : Text
  pub member_names : List Text

pub data CommitteeView : Type 0 where
  loading : CommitteeView
  failed : CommitteeView
  not_found : CommitteeView
  shown : Card → CommitteeView

-- `{ data: { backendDao, backendActor } }`: data that is not there is undefined, which has no
-- properties. `committees` is those of the DAO that the data has, if any.
pub record Loaded : Type 0 where
  pub backend_data : Option (Option (List Held))
  pub is_loading : Bool
  pub has_error : Bool
  pub has_dao : Bool

module _ (dates : Dates) where
  unfoldable pub card_of : Held → Card
  unfolding term_days date_text
  card_of c = record {
    title_kind = c.kind;
    id = c.id;
    days = term_days c.term_duration_secs;
    elected = date_text dates c.elected_at;
    next_election = date_text dates c.next_election_at;
    member_names = c.members;
  }

  abbrev shown_or_missing : Option Held → CommitteeView
  shown_or_missing none = not_found
  shown_or_missing (some c) = shown (card_of c)

  abbrev view_of_data : Loaded → Option ℕ → Option (Option (List Held)) → Outcome CommitteeView
  view_of_data page id none = throws (type_error "Cannot destructure property 'backendDao'")
  view_of_data page id (some committees) = returns (
      if page.is_loading
      then loading
      else if page.has_error
      then failed
      else if page.has_dao
      then shown_or_missing (committee_at id committees)
      else failed)

  unfoldable pub committee_view : Loaded → Option ℕ → Outcome CommitteeView
  unfolding committee_at card_of
  committee_view page id = view_of_data page id page.backend_data

-- ===== src/Sns/Registry.antt =====
-- src/ic_govmind_sns/src/lib.rs: `get_sns_canisters`, the query that the list of SNS DAOs comes
-- from. A `u32` keeps its wrap-around. The store is the list of its entries in the order of their
-- keys; `lowered` gives the bytes of a lowercased name.
pub mod Laws
use ic_govmind.Base.{
  ℕ, ◌+◌, ◌-◌, ◌/◌, ◌%◌, ◌^◌, Bool, true, false, ◌||◌, Option, none, some, List, [], ◌∷◌, length,
  take, drop, ltb, leb, ◌==◌, if◌then◌else◌,
}
use ic_govmind.Js.Text.{Text, le_text}
use ic_govmind.Sns.{RawCanister}

pub record PaginationInfo : Type 0 where
  pub total_count : ℕ
  pub total_pages : ℕ
  pub current_page : ℕ
  pub page_size : ℕ
  pub has_next_page : Bool
  pub has_prev_page : Bool
  pub next_page_offset : Option ℕ
  pub prev_page_offset : Option ℕ

pub record CanisterPage : Type 0 where
  pub canisters : List RawCanister
  pub info : PaginationInfo

abbrev pub u32 : ℕ → ℕ
u32 n = n % 2 ^ 32

abbrev pub option_when : Bool → ℕ → Option ℕ
option_when b n = if b then some n else none

-- `unwrap_or(10)`, `unwrap_or(0)`.
abbrev unwrap_or : ℕ → Option ℕ → ℕ
unwrap_or d none = d
unwrap_or d (some n) = n

abbrev pub refused_page : ℕ → CanisterPage
refused_page limit = record {
  canisters = [];
  info = record {
    total_count = 0;
    total_pages = 0;
    current_page = 0;
    page_size = limit;
    has_next_page = false;
    has_prev_page = false;
    next_page_offset = none;
    prev_page_offset = none;
  };
}

module _ (lowered : Text → List ℕ) where
  -- `sort_by`, which is stable: of two names that are alike, the one stored first comes first.
  unfoldable pub insert_canister : RawCanister → List RawCanister → List RawCanister
  unfolding le_text
  insert_canister c [] = c ∷ []
  insert_canister c (d ∷ ds) =
      let later = insert_canister c ds in
      if le_text (lowered c.name) (lowered d.name) then c ∷ d ∷ ds else d ∷ later

  unfoldable pub sort_canisters : List RawCanister → List RawCanister
  unfolding insert_canister
  sort_canisters [] = []
  sort_canisters (c ∷ cs) = insert_canister c (sort_canisters cs)

  -- The page from `offset` on, where the limit is in range.
  unfoldable pub page_from : List RawCanister → ℕ → ℕ → CanisterPage
  unfolding sort_canisters
  page_from stored offset limit =
      let total_count = u32 (length (sort_canisters stored)) in
      let has_next_page = ltb (u32 (offset + limit)) total_count in
      let has_prev_page = ltb 0 offset in
      record {
        canisters = take limit (drop offset (sort_canisters stored));
        info = record {
          total_count = total_count;
          total_pages = u32 (u32 (total_count + limit) + 2 ^ 32 - 1) / limit;
          current_page = u32 (offset / limit + 1);
          page_size = limit;
          has_next_page = has_next_page;
          has_prev_page = has_prev_page;
          next_page_offset = option_when has_next_page (u32 (offset + limit));
          prev_page_offset = option_when has_prev_page (offset - limit);
        };
      }

  unfoldable pub get_sns_canisters : List RawCanister → Option ℕ → Option ℕ → CanisterPage
  unfolding page_from
  get_sns_canisters stored offset limit =
      let size = unwrap_or 10 limit in
      if size == 0 || ltb 10 size
      then refused_page size
      else page_from stored (unwrap_or 0 offset) size

-- ===== src/Sns/Dashboard/Browsing.antt =====
-- The dashboard in front of the canister: what is loaded for a page, which pages are reached by the
-- buttons, and what is seen on the way.
use ic_govmind.Base.{
  ℕ, ◌+◌, ◌-◌, ◌*◌, ◌/◌, ◌≤◌, ◌<◌, ◌^◌, ◌≡◌, true, false, some, List, ◌++◌, map, length, take, drop,
  ltb, returns, arith,
}
use ic_govmind.Js.Text.{Text}
use ic_govmind.Sns.{RawCanister, ShownCanister, shown_canister, offset_of}
use ic_govmind.Sns.Registry.{get_sns_canisters, page_from, sort_canisters, u32, option_when}
use ic_govmind.Sns.Registry.Laws.{length-sort_canisters}
use ic_govmind.Sns.Listing.{SnsPage, GetCanisters, query_sns_canisters}
use ic_govmind.Sns.Dashboard.{Fetched, fetched, sns_view, click_next, click_previous, has_next_page}

-- `snsPageSize`.
abbrev pub sns_page_size : ℕ
sns_page_size = 9

module _ {N : Type 0} (lowered : Text → List ℕ) (millis : ℕ → N) (stored : List RawCanister) where
  abbrev pub serve : GetCanisters
  serve offset limit = returns (some (get_sns_canisters lowered stored offset limit))

  unfoldable pub load : ℕ → Fetched (SnsPage N)
  load page = fetched (query_sns_canisters millis serve page sns_page_size)

  -- The pages that the buttons lead to from the first.
  pub data Reached : ℕ → Type 0 where
    opened : Reached 1
    next : {p q : ℕ} → Reached p → q ≡ click_next (sns_view p (load p)) p → Reached q
    previous : {p q : ℕ} → Reached p → q ≡ click_previous (sns_view p (load p)) p → Reached q

  -- From page `p` on, the user clicks Next until the page has none, and has then seen `cs`.
  pub data Browses : ℕ → List (ShownCanister N) → Type 0 where
    last :
        {p : ℕ} {page : SnsPage N} {cs : List (ShownCanister N)}
        → load p ≡ Fetched.loaded page
        → has_next_page (load p) ≡ false
        → cs ≡ page.canisters
        → Browses p cs
    more :
        {p : ℕ} {page : SnsPage N} {rest cs : List (ShownCanister N)}
        → load p ≡ Fetched.loaded page
        → has_next_page (load p) ≡ true
        → Browses (click_next (sns_view p (load p)) p) rest
        → cs ≡ page.canisters ++ rest
        → Browses p cs

  abbrev pub sorted : List RawCanister
  sorted = sort_canisters lowered stored

  -- The page from the `k * 9`-th name on, where no `u32` wraps.
  abbrev pub page_at : ℕ → SnsPage N
  page_at k = record {
    canisters = map (shown_canister millis) (take 9 (drop (k * 9) sorted));
    pagination_info = record {
      total_count = length stored;
      total_pages = (length stored + 8) / 9;
      current_page = k + 1;
      page_size = 9;
      has_next_page = ltb (k * 9 + 9) (length stored);
      has_prev_page = ltb 0 (k * 9);
      next_page_offset = option_when (ltb (k * 9 + 9) (length stored)) (k * 9 + 9);
      prev_page_offset = option_when (ltb 0 (k * 9)) (k * 9 - 9);
    };
  }

  u32_small : (n m : ℕ) → n < 2 ^ 32 → n ≡ m → u32 n ≡ m
  u32_small n m h e = omega arith

  pub load_page :
      (k : ℕ)
      → length stored + 18 ≤ 2 ^ 32
      → k * 9 ≤ length stored
      → load (k + 1) ≡ Fetched.loaded (page_at k)
  unfolding load query_sns_canisters get_sns_canisters page_from offset_of
  load_page k room inside =
      let offset : (k + 1 - 1) * 9 ≡ k * 9 = omega arith in
      let total : u32 (length sorted) ≡ length stored =
        omega (arith, length-sort_canisters lowered stored) in
      let pages : u32 (u32 (length stored + 9) + 2 ^ 32 - 1) ≡ length stored + 8 = omega arith in
      let page : u32 (k * 9 / 9 + 1) ≡ k + 1 = omega arith in
      let ahead : u32 (k * 9 + 9) ≡ k * 9 + 9 = omega arith in
      rw (offset, total, pages, page, ahead)

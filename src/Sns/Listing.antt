-- ===== src/Sns/Listing.antt =====
-- src/ic_govmind_frontend/src/hooks/useSnsGovernance.js: `useSnsCanisters` and `useSnsStatistics`.
use ic_govmind.Base.{ℕ, Option, none, some, List, map, Outcome, returns, throws, error, ◌>>=◌}
use ic_govmind.Js.Text.{codes}
use ic_govmind.Sns.{ShownCanister, shown_canister, offset_of}
use ic_govmind.Sns.Registry.{PaginationInfo, CanisterPage}

pub record SnsPage (N : Type 0) : Type 0 where
  pub canisters : List (ShownCanister N)
  pub pagination_info : PaginationInfo

-- The canister's method: `none` is an answer that is no array of two.
abbrev pub GetCanisters : Type 0
GetCanisters = Option ℕ → Option ℕ → Outcome (Option CanisterPage)

module _ {N : Type 0} (millis : ℕ → N) where
  -- `useSnsCanisters`, for a page from 1 on.
  unfoldable pub query_sns_canisters : GetCanisters → ℕ → ℕ → Outcome (SnsPage N)
  unfolding shown_canister offset_of
  query_sns_canisters get_sns_canisters page page_size =
      get_sns_canisters (some (offset_of page page_size)) (some page_size) >>= λ result.
      elim result [
        | none ↦ throws (error (codes "Invalid response from get_sns_canisters"))
        | some answer ↦ returns (record {
          canisters = map (shown_canister millis) answer.canisters;
          pagination_info = answer.info;
        })
      ]

pub record Statistics : Type 0 where
  pub total_canisters : ℕ
  pub total_proposals : ℕ
  pub active_proposals : ℕ

-- `useSnsStatistics`: `number` is `Number`.
unfoldable pub query_sns_statistics : (ℕ → ℕ) → Outcome (ℕ × ℕ × ℕ) → Outcome Statistics
query_sns_statistics number get_sns_statistics = get_sns_statistics >>= λ (canisters, all, active).
    returns (record {
      total_canisters = number canisters;
      total_proposals = number all;
      active_proposals = number active;
    })

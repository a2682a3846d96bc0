-- ===== src/Queries/Tests.antt =====
-- Balances of two members, of which one cannot be read.
use ic_govmind.Base.{
  ◌≡◌, refl, true, none, some, List, [], ◌∷◌, returns, throws, error, is_some, All, if◌then◌else◌,
  Outcome,
}
use ic_govmind.Js.Text.{codes, text_eq}
use ic_govmind.Queries.{
  BalanceQuery, BalanceReply, balance, Member, member_balance, lookup_entry, query_member_balances,
}
use ic_govmind.Queries.Laws.{query_member_balances_total}

abbrev ask : BalanceQuery → Outcome BalanceReply
ask q = if text_eq q.wallet_address (codes "a") then returns (balance 7) else throws (error [])

abbrev members : List Member
members =
    (record { user_id = codes "u1"; principal_text = some (returns (codes "a")) })
    ∷ (record { user_id = codes "u2"; principal_text = none })
    ∷ []

reads : query_member_balances ask (codes "GOV") members [] ≡ (codes "u2", 0) ∷ (codes "u1", 7) ∷ []
unfolding query_member_balances member_balance text_eq
reads = refl

query_member_balances_total_sample :
    All
      (λ m.
        is_some (lookup_entry m.user_id (query_member_balances ask (codes "GOV") members []))
        ≡ true)
      members
query_member_balances_total_sample = query_member_balances_total ask (codes "GOV") members []

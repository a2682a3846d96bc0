-- ===== src/Queries/Laws.antt =====
-- Every member has a balance, whatever fails.
use ic_govmind.Base.{ℕ, ◌≡◌, true, List, [], ◌∷◌, Outcome, is_some, All, arith}
use ic_govmind.Js.Text.Laws.{text_eq_refl}
use ic_govmind.Js.Text.{Text}
use ic_govmind.Queries.{
  BalanceQuery, BalanceReply, Member, Entries, member_balance, lookup_entry, query_member_balances,
}

lookup-cons :
    (key k : Text) (n : ℕ) (es : Entries)
    → is_some (lookup_entry key es) ≡ true
    → is_some (lookup_entry key ((k, n) ∷ es)) ≡ true
unfolding lookup_entry
lookup-cons key k n es h = ground arith

lookup_here :
    (key : Text) (n : ℕ) (es : Entries) → is_some (lookup_entry key ((key, n) ∷ es)) ≡ true
unfolding lookup_entry
lookup_here key n es = ground (arith, text_eq_refl key)

module _ (ask : BalanceQuery → Outcome BalanceReply) (token : Text) where
  kept :
      (key : Text) (ms : List Member) (es : Entries)
      → is_some (lookup_entry key es) ≡ true
      → is_some (lookup_entry key (query_member_balances ask token ms es)) ≡ true
  unfolding query_member_balances
  kept key [] es h = h
  kept key (m ∷ ms) es h =
      kept key ms _ (lookup-cons key m.user_id (member_balance ask token m) es h)

  -- Every member of the list has an entry in the balances that are shown, whatever the canister
  -- answers or throws for this member and for the others.
  pub query_member_balances_total :
      (ms : List Member) (es : Entries)
      → All
          (λ m. is_some (lookup_entry m.user_id (query_member_balances ask token ms es)) ≡ true)
          ms
  unfolding query_member_balances
  query_member_balances_total [] es = tt
  query_member_balances_total (m ∷ ms) es = (
    kept m.user_id ms _ (lookup_here m.user_id (member_balance ask token m) es),
    query_member_balances_total ms _,
  )

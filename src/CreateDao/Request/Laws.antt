-- ===== src/CreateDao/Request/Laws.antt =====
-- Which principals a DAO is created with.
use ic_govmind.Base.{
  ℕ, ◌≡◌, Bool, true, false, not, ◌&&◌, Option, some, List, returns, each, All, Ensures,
  Ensures-bind, Ensures-returns, Ensures-each, Bool-cases, inl, inr, arith,
}
use ic_govmind.Js.Text.{Text, is_empty}
use ic_govmind.Js.Integer.{big_int}
use ic_govmind.CreateDao.Form.{FormData, Member}
use ic_govmind.CreateDao.Request.{
  Platform, Unlock, MemberArg, Dao, dao_of, token_arg, opt_principal, member_arg, governance_arg,
  is_valid_principal,
}

injected : {A : Type 0} {x y : A} → some x ≡ some y → x ≡ y
injected h = cc

second : (a : Bool) {b : Bool} → (a && b) ≡ true → b ≡ true
second a h = ground arith

module _ {P : Type 0} (platform : Platform P) where
  abbrev pub IsKnown : Option P → Type 0
  IsKnown o = (p : P) → o ≡ some p → platform.is_anonymous p ≡ false

  not_anonymous :
      (t : Text) (p : P)
      → platform.from_text t ≡ returns p
      → is_valid_principal platform t ≡ true
      → platform.is_anonymous p ≡ false
  unfolding is_valid_principal
  not_anonymous t p good valid = ground arith

  opt_principal-IsKnown : (t : Text) → Ensures IsKnown (opt_principal platform t)
  unfolding opt_principal
  opt_principal-IsKnown t = elim (Bool-cases (not (is_empty t) && is_valid_principal platform t)) [
    | inr refused ↦ rw refused (λ p h. cc)
    | inl valid ↦ rw valid (
        Ensures-bind IsKnown (platform.from_text t) _
          λ q good p h. rw (injected h) at (not_anonymous t q good (second _ valid)))
  ]

  abbrev pub HasKnown : MemberArg P → Type 0
  HasKnown m = IsKnown m.icp_principal

  member_arg-HasKnown : (m : Member) → Ensures HasKnown (member_arg platform m)
  unfolding member_arg
  member_arg-HasKnown m = Ensures-bind HasKnown (opt_principal platform m.icp_principal) _ λ o made.
      Ensures-bind HasKnown (big_int m.reputation) _ λ n _.
        Ensures-returns IsKnown (opt_principal platform m.icp_principal) o
          (opt_principal-IsKnown m.icp_principal) made

  abbrev pub AllKnown : Dao P → Type 0
  AllKnown dao = All HasKnown dao.members × IsKnown dao.canister_id

  -- No DAO is created with an anonymous member, or with the anonymous principal as its token.
  pub dao_of-AllKnown :
      (now : ℕ) (form : FormData) (items : List Unlock) (dao : Dao P)
      → dao_of platform now form items ≡ returns dao
      → AllKnown dao
  unfolding dao_of
  dao_of-AllKnown now form items dao h =
      Ensures-returns AllKnown (dao_of platform now form items) dao
        (Ensures-bind AllKnown (token_arg form items) _ λ token _.
          Ensures-bind AllKnown (opt_principal platform form.base_token.canister_id) _ λ c hc.
            Ensures-bind AllKnown (each (member_arg platform) form.members) _ λ ms hm.
              Ensures-bind AllKnown (governance_arg form.governance) _ λ g _. (
                Ensures-returns (All HasKnown) (each (member_arg platform) form.members) ms
                    (Ensures-each HasKnown (member_arg platform) form.members member_arg-HasKnown)
                    hm,
                Ensures-returns IsKnown _ c (opt_principal-IsKnown form.base_token.canister_id) hc,
              ))
        h

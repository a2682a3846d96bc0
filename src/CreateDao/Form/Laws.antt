-- ===== src/CreateDao/Form/Laws.antt =====
-- Whatever is edited, the form keeps a member, so that its second step is always passed; and what
-- a click on a chain does.
use ic_govmind.Base.{
  ℕ, ◌≤◌, ◌≡◌, refl, false, not, [], ◌∷◌, ◌++◌, length, arith, List, keep, some_of, length-append,
  length-modify_at, length-remove_at,
}
use ic_govmind.Js.Text.Laws.{text_eq_refl}
use ic_govmind.Js.Text.{Text, text_eq, codes}
use ic_govmind.CreateDao.Form.{
  FormData, InputChange, TokenChange, GovernanceChange, MemberChange, UnlockChange, initial_form,
  handle_input_change, handle_base_token_change, handle_governance_change, handle_chain_toggle,
  add_member, remove_member, update_member, add_unlock_schedule_item, remove_unlock_schedule_item,
  update_unlock_schedule_item, toggle_chain, has_chain, new_member,
}
use ic_govmind.CreateDao.Wizard.{step_errors}

-- The forms that a user can come to.
pub data IsReachable : FormData → Type 0 where
  start : (now : ℕ) → IsReachable (initial_form now)
  input : (c : InputChange) (f : FormData) → IsReachable f → IsReachable (handle_input_change c f)
  token :
      (c : TokenChange) (f : FormData) → IsReachable f → IsReachable (handle_base_token_change c f)
  governance :
      (c : GovernanceChange) (f : FormData)
      → IsReachable f
      → IsReachable (handle_governance_change c f)
  chain : (c : Text) (f : FormData) → IsReachable f → IsReachable (handle_chain_toggle c f)
  member_added : (now : ℕ) (f : FormData) → IsReachable f → IsReachable (add_member now f)
  member_removed : (i : ℕ) (f : FormData) → IsReachable f → IsReachable (remove_member i f)
  member_changed :
      (i : ℕ) (c : MemberChange) (f : FormData) → IsReachable f → IsReachable (update_member i c f)
  unlock_added : (i : ℕ) (f : FormData) → IsReachable f → IsReachable (add_unlock_schedule_item i f)
  unlock_removed :
      (i j : ℕ) (f : FormData) → IsReachable f → IsReachable (remove_unlock_schedule_item i j f)
  unlock_changed :
      (i j : ℕ) (c : UnlockChange) (f : FormData)
      → IsReachable f
      → IsReachable (update_unlock_schedule_item i j c f)

abbrev HasMember : FormData → Type 0
HasMember f = 1 ≤ length f.members

remove_member-HasMember : (i : ℕ) (f : FormData) → HasMember f → HasMember (remove_member i f)
unfolding remove_member
remove_member-HasMember i f h = ground (arith, length-remove_at i f.members)

IsReachable-HasMember : (f : FormData) → IsReachable f → HasMember f
unfolding initial_form handle_input_change handle_base_token_change handle_governance_change
    handle_chain_toggle add_member update_member add_unlock_schedule_item
    remove_unlock_schedule_item update_unlock_schedule_item
IsReachable-HasMember _ (start now) = omega arith
IsReachable-HasMember _ (input (InputChange.name v) f r) = IsReachable-HasMember f r
IsReachable-HasMember _ (input (InputChange.description v) f r) = IsReachable-HasMember f r
IsReachable-HasMember _ (input (InputChange.icon_url v) f r) = IsReachable-HasMember f r
IsReachable-HasMember _ (token c f r) = IsReachable-HasMember f r
IsReachable-HasMember _ (governance c f r) = IsReachable-HasMember f r
IsReachable-HasMember _ (chain c f r) = IsReachable-HasMember f r
IsReachable-HasMember _ (member_added now f r) =
    omega (arith, length-append f.members (new_member (codes "Voter") 10 now ∷ []))
IsReachable-HasMember _ (member_removed i f r) =
    remove_member-HasMember i f (IsReachable-HasMember f r)
IsReachable-HasMember _ (member_changed i c f r) =
    omega (arith, length-modify_at i _ f.members, IsReachable-HasMember f r)
IsReachable-HasMember _ (unlock_added i f r) =
    omega (arith, length-modify_at i _ f.members, IsReachable-HasMember f r)
IsReachable-HasMember _ (unlock_removed i j f r) =
    omega (arith, length-modify_at i _ f.members, IsReachable-HasMember f r)
IsReachable-HasMember _ (unlock_changed i j c f r) =
    omega (arith, length-modify_at i _ f.members, IsReachable-HasMember f r)

members_step : (f : FormData) → HasMember f → step_errors 2 f ≡ []
unfolding step_errors
members_step f h = ground arith

-- Every form that a user can come to by edits passes the validation of the second step: the last
-- member cannot be removed.
pub step_errors_of_reachable : (f : FormData) → IsReachable f → step_errors 2 f ≡ []
step_errors_of_reachable f r = members_step f (IsReachable-HasMember f r)

has_chain-append :
    (c d : Text) (cs : List Text)
    → has_chain c (cs ++ d ∷ []) ≡ some_of (λ b. b) (has_chain c cs ∷ text_eq c d ∷ [])
has_chain-append c d [] = ground arith
has_chain-append c d (x ∷ cs) = ground (arith, has_chain-append c d cs)

has_chain-keep :
    (c : Text) (cs : List Text) → has_chain c (keep (λ d. not (text_eq c d)) cs) ≡ false
has_chain-keep c [] = refl
has_chain-keep c (x ∷ cs) = ground (arith, has_chain-keep c cs)

-- A click on a chain selects it where it was not selected, and else takes every copy of it out.
pub has_chain-toggle_chain :
    (c : Text) (cs : List Text) → has_chain c (toggle_chain c cs) ≡ not (has_chain c cs)
unfolding toggle_chain
has_chain-toggle_chain c cs =
    ground (arith, has_chain-keep c cs, has_chain-append c c cs, text_eq_refl c)

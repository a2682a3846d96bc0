-- ===== src/CreateDao/Submit/Laws.antt =====
-- What the creation of a DAO asks of the canisters, and when it is shown as done.
use mathlib.Core.Path.{subst}
use ic_govmind.Base.{
  ◌≡◌, ◌∙◌, refl, sym, ap, Thrown, Bool, true, false, some, List, [], ◌∷◌, ◌++◌, Outcome, returns,
  throws, each, Outcome-cases, Bool-cases, inl, inr, >>=-eq-returns,
}
use ic_govmind.Js.Text.{Text, codes, is_empty}
use ic_govmind.CreateDao.Form.{FormData}
use ic_govmind.CreateDao.Wizard.{Page, step_errors, validate_step, has_none}
use ic_govmind.CreateDao.Request.{
  Unlock, Dao, unlock_items, dao_of, token_arg, opt_principal, member_arg, governance_arg,
}
use ic_govmind.CreateDao.Submit.{
  Answer, created, refused, create_gov_dao, create_dao_base_token, World, request_of,
  handle_create_dao, create_now, token_calls, success, finish, calls_after,
}

clash : {b : Bool} → b ≡ true → b ≡ false → ⊥
clash h k = cc

module _ {P : Type 0} (world : World P) where
  token_arg_of_dao_of :
      (form : FormData) (items : List Unlock) (dao : Dao P)
      → dao_of world.platform world.now form items ≡ returns dao
      → token_arg form items ≡ returns dao.base_token
  unfolding dao_of
  token_arg_of_dao_of form items dao h =
      let (token, made, rest) = >>=-eq-returns (token_arg form items) _ h in
      let (canister, _, rest) =
        >>=-eq-returns (opt_principal world.platform form.base_token.canister_id) _ rest in
      let (members, _, rest) =
        >>=-eq-returns (each (member_arg world.platform) form.members) _ rest in
      let (governance, _, rest) = >>=-eq-returns (governance_arg form.governance) _ rest in cc

  token_calls_of_request_of :
      (form : FormData) (dao : Dao P) (id : Text)
      → request_of world form ≡ returns dao
      → world.actor id ≡ returns tt
      → token_calls world id form ≡ returns (create_dao_base_token id dao.base_token ∷ [])
  unfolding request_of token_calls
  token_calls_of_request_of form dao id h ready =
      let (items, made, rest) =
        >>=-eq-returns (unlock_items world.platform form.base_token.decimals form.members) _ h in
      rw (made, ready, token_arg_of_dao_of form items dao rest)

  -- Where the step's validation finds nothing, the form's data can be turned into a record, and
  -- the factory creates the DAO, exactly two calls are made: that of the factory, and one that asks
  -- the new canister for the very token that the record names. Then the DAO's page is shown.
  pub handle_create_dao_of_created :
      (page : Page) (dao : Dao P) (id : Text)
      → step_errors page.current_step page.form ≡ []
      → request_of world page.form ≡ returns dao
      → world.create dao ≡ returns (created id)
      → is_empty id ≡ false
      → world.actor id ≡ returns tt
      → handle_create_dao world page
        ≡ (success world id page, create_gov_dao dao ∷ create_dao_base_token id dao.base_token ∷ [])
  unfolding handle_create_dao create_now finish calls_after validate_step request_of unlock_items
  handle_create_dao_of_created page dao id valid made answer named ready =
      rw (valid, made, answer, named, token_calls_of_request_of page.form dao id made ready)

  -- The page shows a success, and leads to the DAO `id`, because the factory created it.
  abbrev pub IsCreated : Page → Page → Type 0
  IsCreated before after =
      (dao : Dao P) × (id : Text) × (request_of world before.form ≡ returns dao)
      × (world.create dao ≡ returns (created id))
      × (is_empty id ≡ false)
      × (after.destination ≡ some (codes "/dao/" ++ id))

  finish-IsCreated :
      (page : Page) (dao : Dao P)
      → request_of world page.form ≡ returns dao
      → page.show_success ≡ false
      → (answer : Outcome Answer) → world.create dao ≡ answer
      → (finish world answer page).show_success ≡ true
      → IsCreated page (finish world answer page)
  unfolding finish
  finish-IsCreated page dao made hidden (throws t) eq shown = cc
  finish-IsCreated page dao made hidden (returns (refused err)) eq shown = cc
  finish-IsCreated page dao made hidden (returns (created id)) eq shown =
      elim (Bool-cases (is_empty id)) [
        | inl nameless ↦ absurd (clash (rw nameless at shown) hidden)
        | inr named ↦ (dao, id, made, eq, named, rw named)
      ]

  create_now_of_request_of :
      (page : Page) (dao : Dao P)
      → request_of world page.form ≡ returns dao
      → (create_now world page).0 ≡ finish world (world.create dao) page
  unfolding create_now finish
  create_now_of_request_of page dao made = rw (create_now, made)

  create_now_of_crash :
      (page : Page) (t : Thrown)
      → request_of world page.form ≡ throws t
      → (create_now world page).0.show_success ≡ page.show_success
  unfolding create_now
  create_now_of_crash page t bad = rw (create_now, bad)

  create_now-IsCreated :
      (page : Page)
      → page.show_success ≡ false
      → (create_now world page).0.show_success ≡ true
      → IsCreated page (create_now world page).0
  create_now-IsCreated page hidden shown = elim (Outcome-cases (request_of world page.form)) [
    | inl (dao, made) ↦
        let end = create_now_of_request_of page dao made in
        subst (IsCreated page) (sym end) (
          finish-IsCreated page dao made hidden (world.create dao) refl
            (sym (ap (λ q. q.show_success) end) ∙ shown))
    | inr (t, bad) ↦ absurd (clash shown (create_now_of_crash page t bad ∙ hidden))
  ]

  checked : Page → Page
  checked page = record page { errors = step_errors page.current_step page.form }

  handle_create_dao_of_valid :
      (page : Page)
      → has_none (step_errors page.current_step page.form) ≡ true
      → handle_create_dao world page ≡ create_now world (checked page)
  unfolding handle_create_dao validate_step checked
  handle_create_dao_of_valid page valid = rw valid

  handle_create_dao_of_invalid :
      (page : Page)
      → has_none (step_errors page.current_step page.form) ≡ false
      → handle_create_dao world page ≡ (checked page, [])
  unfolding handle_create_dao validate_step checked
  handle_create_dao_of_invalid page wrong = rw wrong

  -- A success is shown only where the factory has created the DAO that the page then leads to.
  pub handle_create_dao-IsCreated :
      (page : Page)
      → page.show_success ≡ false
      → (handle_create_dao world page).0.show_success ≡ true
      → IsCreated page (handle_create_dao world page).0
  unfolding checked
  handle_create_dao-IsCreated page hidden shown =
      elim (Bool-cases (has_none (step_errors page.current_step page.form))) [
        | inl valid ↦
            let same = handle_create_dao_of_valid page valid in
            subst (λ q. IsCreated page q.0) (sym same)
              (create_now-IsCreated (checked page) hidden
                (sym (ap (λ q. q.0.show_success) same) ∙ shown))
        | inr wrong ↦ absurd (
            clash shown
              (ap (λ q. q.0.show_success) (handle_create_dao_of_invalid page wrong) ∙ hidden))
      ]

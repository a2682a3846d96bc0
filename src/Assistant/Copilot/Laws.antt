-- ===== src/Assistant/Copilot/Laws.antt =====
-- From a draft to the proposal that is created, and when the page leads on.
use ic_govmind.Base.{
  ℕ, ◌≡◌, ◌≢◌, ◌∙◌, ◌↔◌, refl, sym, ap, Bool, true, false, ◌||◌, Option, none, some, [], ◌∷◌, ◌++◌,
  Outcome, returns, throws, Thrown, ◌>>=◌, arith,
}
use ic_govmind.Js.Text.{Text, codes, trim, is_empty, is_space}
use ic_govmind.Js.Text.Laws.{shows, shows-append, is_empty-trim}
use ic_govmind.Js.Decimal.{decimal}
use ic_govmind.Js.Decimal.Laws.{decimal-ne-nil}
use ic_govmind.Js.Integer.{pos}
use ic_govmind.Js.Integer.Laws.{parse_int_10-decimal}
use ic_govmind.Assistant.Service.{
  Draft, CreateProposal, use_create_proposal, committee_ids, created_or_throw,
}
use ic_govmind.Assistant.Copilot.{
  Page, Context, proposal_call, show_proposal, handle_submit_proposal, content_of_draft,
  suggested_id, handle_use_draft,
}

shows-content_of_draft : (d : Draft) → shows (content_of_draft d) ≡ true
unfolding content_of_draft is_space
shows-content_of_draft d = rw (shows-append d.summary) (second (shows d.summary) refl)
  where
    second : (a : Bool) {b : Bool} → b ≡ true → (a || b) ≡ true
    second a h = ground arith

not_blank : (s : Text) → s ≢ [] → is_empty s ≡ false
not_blank [] h = absurd (h refl)
not_blank (c ∷ s) h = refl

apart : {A : Type 0} {a : A} → none ≡ some a → ⊥
apart h = cc

distinct : {A : Type 0} {t : Thrown} {a : A} → some (throws t) ≡ some (returns a) → ⊥
distinct h = cc

committee_ids-decimal : (n : ℕ) → committee_ids (decimal n) ≡ some (pos n) ∷ []
unfolding committee_ids
committee_ids-decimal n =
    rw (not_blank (decimal n) (decimal-ne-nil n)) (ap (λ o. o ∷ []) (parse_int_10-decimal n))

module _ {P R : Type 0} (c : Context P R) where
  -- The proposal that is made of a draft is created with the draft's title, with its text, and for
  -- the very committee whose number was suggested with it, if the title is not blank.
  pub proposal_call-handle_use_draft :
      (page : Page) (d : Draft) (n : ℕ) (create : CreateProposal)
      → page.generated_draft ≡ some d
      → page.generated_committee_suggestion ≡ some (record { committee_id = some n })
      → is_empty (trim d.title) ≡ false
      → c.create_proposal ≡ some create
      → c.has_dao ≡ true
      → proposal_call c (handle_use_draft page)
        ≡ some (
            create (trim d.title) (trim (content_of_draft d)) (some (pos n) ∷ [])
            >>= created_or_throw)
  unfolding proposal_call handle_use_draft suggested_id use_create_proposal
  proposal_call-handle_use_draft page d n create drafted suggested titled can loaded = rw (
    drafted,
    suggested,
    titled,
    is_empty-trim (content_of_draft d) (shows-content_of_draft d),
    can,
    loaded,
    committee_ids-decimal n,
  )

  -- The page leads to the list of proposals exactly where the proposal has been created.
  pub handle_submit_proposal_iff :
      (page : Page)
      → page.destination ≡ none
      → ((handle_submit_proposal c page).destination
          ≡ some (codes "/dao/" ++ (c.dao_id ++ codes "?tab=proposals")))
        ↔ ((id : ℕ) × (proposal_call c page ≡ some (returns id)))
  unfolding handle_submit_proposal show_proposal
  handle_submit_proposal_iff page here = go (proposal_call c page)
    where
      go :
          (call : Option (Outcome ℕ))
          → ((show_proposal c c.analyzer.words call page).destination
              ≡ some (codes "/dao/" ++ (c.dao_id ++ codes "?tab=proposals")))
            ↔ ((id : ℕ) × (call ≡ some (returns id)))
      go none = (λ h. absurd (apart (sym here ∙ h)), λ (id, h). absurd (apart h))
      go (some (returns id)) = (λ h. (id, refl), λ h. refl)
      go (some (throws t)) = (λ h. absurd (apart (sym here ∙ h)), λ (id, h). absurd (distinct h))

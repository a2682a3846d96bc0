-- ===== src/Assistant/Analysis/Laws.antt =====
-- Which analysis is asked for, and that a form is not lost.
use ic_govmind.Base.{
  ◌≡◌, ◌≢◌, refl, Bool, true, false, Option, none, some, List, [], ◌∷◌, Outcome, returns, throws,
  if◌then◌else◌,
}
use ic_govmind.Js.Text.{Text}
use ic_govmind.Assistant.Service.{Analyzer, use_submit_proposal}
use ic_govmind.Assistant.Analysis.{
  Proposal, Panel, Call, submit, analyze, after_submit, handle_analyze_proposal, Modal, after_modal,
  handle_submit,
}

-- The identifier whose analysis is asked for last.
abbrev pub asked : List Call → Option Text
asked [] = none
asked (submit id title description ∷ calls) = asked calls
asked (analyze id ∷ []) = some id
asked (analyze id ∷ call ∷ calls) = asked (call ∷ calls)

after_submit_asks :
    (id title description : Text) (m : Outcome Text) (panel : Panel)
    → (let r = after_submit (submit id title description) m panel in
        asked r.1 ≡ r.0.analyzed_proposal_id)
unfolding after_submit
after_submit_asks id title description (throws t) panel = refl
after_submit_asks id title description (returns i) panel = refl

after_modal_keeps :
    (m : Outcome Text) (modal : Modal)
    → (after_modal m modal).title ≢ modal.title
    → (id : Text) × (m ≡ returns id)
unfolding after_modal
after_modal_keeps (throws t) modal h = absurd (h refl)
after_modal_keeps (returns id) modal h = (id, refl)

module _ {P R : Type 0} (c : Analyzer P R) where
  -- The identifier that the panel shows as analyzed is the one whose analysis has been asked for,
  -- and there is none where the submission failed, if a proposal is selected.
  pub handle_analyze_proposal_asks :
      (o : Option Proposal) (p : Proposal) (panel : Panel)
      → o ≡ some p
      → (let r = handle_analyze_proposal c o panel in asked r.1 ≡ r.0.analyzed_proposal_id)
  unfolding handle_analyze_proposal
  handle_analyze_proposal_asks none p panel h = cc
  handle_analyze_proposal_asks (some q) p panel h =
      after_submit_asks q.composite_id q.title _ (use_submit_proposal c q.composite_id q.title _)
        panel

  -- The title in the form changes only where the analyzer has taken the proposal.
  pub handle_submit_keeps :
      (pending : Bool) (modal : Modal)
      → (handle_submit c pending modal).title ≢ modal.title
      → (id : Text) × (use_submit_proposal c [] modal.title modal.description ≡ returns id)
  unfolding handle_submit
  handle_submit_keeps pending modal h = go _ h
    where
      go :
          (b : Bool)
          → (if b
              then modal
              else after_modal (use_submit_proposal c [] modal.title modal.description) modal).title
            ≢ modal.title
          → (id : Text) × (use_submit_proposal c [] modal.title modal.description ≡ returns id)
      go true h = absurd (h refl)
      go false h = after_modal_keeps _ modal h

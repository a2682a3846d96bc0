-- ===== src/Assistant/Panel/Crossed.antt =====
-- How an analysis comes to stand under another proposal.
use ic_govmind.Base.{◌≡◌, refl, Option, none, some, List, returns}
use ic_govmind.Js.Text.{Text}
use ic_govmind.Assistant.Service.{Analyzer}
use ic_govmind.Assistant.Analysis.{Proposal, handle_proposal_select}
use ic_govmind.Assistant.Panel.{
  find_proposal, select_in_panel, PanelState, fresh_panel, submit_selected, selects, submits,
  submitted, PanelReached, start, next_step, shown_id,
}
use ic_govmind.Assistant.Panel.Laws.{IsIdle}

-- `q` is selected, and the proposal `id` of the analyzer is shown.
abbrev pub Shows : List Proposal → (Text → Option Text) → Proposal → Text → PanelState → Type 0
Shows proposals existing q id s =
    (find_proposal proposals s.panel.selected_proposal_id ≡ some q)
    × (shown_id existing (some q) s.panel ≡ some id)

module _ {P R : Type 0} (c : Analyzer P R) (proposals : List Proposal) (p q : Proposal) (id : Text)
    (p_listed : find_proposal proposals (some p.id) ≡ some p)
    (q_listed : find_proposal proposals (some q.id) ≡ some q)
    (made : submit_selected c p ≡ returns id) (existing : Text → Option Text)
    (q_new : existing q.composite_id ≡ none) where
  -- In the panel of a DAO, also where nothing is selected while a submission is awaited: once one
  -- listed proposal has been submitted, the analysis of it stands under any other listed proposal
  -- that is selected and that the analyzer does not know.
  pub shown_id-panel :
      (s : PanelState) × PanelReached c proposals select_in_panel IsIdle s
      × Shows proposals existing q id s
  unfolding shown_id select_in_panel
  shown_id-panel =
      let chosen = next_step start (selects fresh_panel p refl) in
      let asked = next_step chosen (submits _ p p_listed refl) in
      let answered = next_step asked (submitted _ p id refl made) in
      (_, next_step answered (selects _ q refl), (q_listed, rw (shown_id, q_new) refl))

  -- On the list page, where another listed proposal is selected while the submission is awaited,
  -- the analysis of the submitted one stands under the other.
  pub shown_id-selected_meanwhile :
      (s : PanelState) × PanelReached c proposals handle_proposal_select (λ s. Unit) s
      × Shows proposals existing q id s
  unfolding shown_id handle_proposal_select
  shown_id-selected_meanwhile =
      let chosen = next_step start (selects fresh_panel p tt) in
      let asked = next_step chosen (submits _ p p_listed refl) in
      let other = next_step asked (selects _ q tt) in
      (_, next_step other (submitted _ p id refl made), (q_listed, rw (shown_id, q_new) refl))

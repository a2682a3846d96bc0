-- ===== src/Assistant/Panel.antt =====
-- src/ic_govmind_frontend/src/components/ProposalAnalysisPanel.jsx and pages/ProposalListPage.jsx:
-- which proposal's analysis is shown, while selections and a submission that is under way come in
-- between one another, and what stands in its place where there is none.
pub mod Laws
pub mod Crossed
mod Tests
use ic_govmind.Base.{
  ℕ, ◌≡◌, ◌==◌, Bool, true, false, not, ◌&&◌, ◌||◌, Option, none, some, List, [], ◌∷◌,
  if◌then◌else◌, is_some, Outcome, returns, throws, Thrown,
}
use ic_govmind.Js.Text.{Text, codes, text_eq, is_empty, or_text}
use ic_govmind.Assistant.Service.{Analyzer, use_submit_proposal}
use ic_govmind.Assistant.Analysis.{
  Proposal, Panel, handle_proposal_select, StatusField, variant, plain, no_status,
  get_status_string,
}

-- `selectedProposal`: the first proposal with the selected identifier.
unfoldable pub find_proposal : List Proposal → Option ℕ → Option Proposal
find_proposal ps none = none
find_proposal [] (some id) = none
find_proposal (p ∷ ps) (some id) = if p.id == id then some p else find_proposal ps (some id)

-- A click on a proposal of the panel, which leaves `analyzedProposalId` as it is.
unfoldable pub select_in_panel : Proposal → Panel → Panel
select_in_panel p panel = record panel { selected_proposal_id = some p.id }

-- `submitting` is the proposal whose submission is awaited: `submitProposalMutation.isPending`.
pub record PanelState : Type 0 where
  pub panel : Panel
  pub submitting : Option Proposal

abbrev pub fresh_panel : PanelState
fresh_panel = record {
  panel = record {
    selected_proposal_id = none;
    show_description = false;
    show_analysis_panel = true;
    analyzed_proposal_id = none;
  };
  submitting = none;
}

module _ {P R : Type 0} (c : Analyzer P R) where
  -- `submitProposalMutation.mutateAsync`, as `handleAnalyzeProposal` calls it.
  unfoldable pub submit_selected : Proposal → Outcome Text
  submit_selected p = use_submit_proposal c p.composite_id p.title (or_text p.summary p.title)

  -- `select` is the page's handler, and `MaySelect` says when it can run. The button that starts an
  -- analysis is there only while no submission is awaited; the analysis that follows a submission
  -- changes nothing here.
  module _ (proposals : List Proposal) (select : Proposal → Panel → Panel)
      (MaySelect : PanelState → Type 0) where
    pub data PanelStep : PanelState → PanelState → Type 0 where
      selects :
          (s : PanelState) (p : Proposal)
          → MaySelect s
          → PanelStep s (record s { panel = select p s.panel })
      submits :
          (s : PanelState) (p : Proposal)
          → find_proposal proposals s.panel.selected_proposal_id ≡ some p
          → s.submitting ≡ none
          → PanelStep s (record {
            panel = record s.panel { analyzed_proposal_id = none };
            submitting = some p;
          })
      submitted :
          (s : PanelState) (p : Proposal) (id : Text)
          → s.submitting ≡ some p
          → submit_selected p ≡ returns id
          → PanelStep s (record {
            panel = record s.panel { analyzed_proposal_id = some id };
            submitting = none;
          })
      submission_failed :
          (s : PanelState) (p : Proposal) (t : Thrown)
          → s.submitting ≡ some p
          → submit_selected p ≡ throws t
          → PanelStep s (record s { submitting = none })

    pub data PanelReached : PanelState → Type 0 where
      start : PanelReached fresh_panel
      next_step : {s t : PanelState} → PanelReached s → PanelStep s t → PanelReached t

-- `existingProposal?.[0]?.id || analyzedProposalId`, the proposal that is asked for and shown.
-- `existing` is the analyzer's answer for a composite identifier.
unfoldable pub shown_id : (Text → Option Text) → Option Proposal → Panel → Option Text
shown_id existing none panel = panel.analyzed_proposal_id
shown_id existing (some p) panel = elim (existing p.composite_id) [
  | none ↦ panel.analyzed_proposal_id
  | some id ↦ if is_empty id then panel.analyzed_proposal_id else some id
]

-- A proposal as the analyzer holds it, with its reports.
pub record StoredProposal (R : Type 0) : Type 0 where
  pub id : Text
  pub status : StatusField
  pub analysis : List R

pub data PanelView (R : Type 0) : Type 0 where
  analyzing : PanelView R
  analysis_failed : PanelView R
  analyzed : R → PanelView R
  no_analysis : PanelView R
  waiting : PanelView R

abbrev pub has_status : StatusField → Bool
has_status (variant ks) = true
has_status (plain t) = not (is_empty t)
has_status no_status = false

abbrev pub or_status : StatusField → StatusField → StatusField
or_status s t = if has_status s then s else t

abbrev pub is_status : Option Text → Text → Bool
is_status none t = false
is_status (some s) t = text_eq s t

module _ {R : Type 0} where
  abbrev status_in : Option (List (StoredProposal R)) → StatusField
  status_in (some (p ∷ ps)) = p.status
  status_in _ = no_status

  abbrev reports_in : Option (List (StoredProposal R)) → List R
  reports_in (some (p ∷ ps)) = p.analysis
  reports_in _ = []

  -- `isAnalyzing`; `busy` are the two mutations, and `none` is data that is not there.
  unfoldable pub is_analyzing :
      Bool
      → Option Text
      → Option (List (StoredProposal R))
      → Bool
      → Option (List (StoredProposal R))
      → Bool
  is_analyzing busy analyzed_id stored existing_loading existing =
      busy
      || (is_some analyzed_id && not (is_some stored))
      || (existing_loading && not (is_some existing))

  abbrev pub shown_reports : List R → Option (List (StoredProposal R)) → PanelView R
  shown_reports (r ∷ rs) stored = analyzed r
  shown_reports [] none = no_analysis
  shown_reports [] (some ps) = waiting

  -- What the panel shows of the selected proposal.
  unfoldable pub panel_view :
      Bool → Option (List (StoredProposal R)) → Option (List (StoredProposal R)) → PanelView R
  unfolding get_status_string text_eq
  panel_view working stored existing =
      let status = get_status_string (or_status (status_in stored) (status_in existing)) in
      if working || is_status status (codes "Analyzing")
      then analyzing
      else if is_status status (codes "Failed")
      then analysis_failed
      else if is_status status (codes "Analyzed")
      then shown_reports (reports_in stored) stored
      else shown_reports [] stored

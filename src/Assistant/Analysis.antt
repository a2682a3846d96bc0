-- ===== src/Assistant/Analysis.antt =====
-- src/ic_govmind_frontend/src/components/ProposalAnalysisPanel.jsx, pages/ProposalListPage.jsx and
-- pages/ProposalsPage.jsx: how a proposal is sent to the analyzer, and how its status is shown (the
-- status helpers of hooks/useProposals.js). The calls of the analyzer are listed in order.
pub mod Laws
use ic_govmind.Base.{
  ℕ, Bool, true, false, not, ◌||◌, Option, none, some, List, [], ◌∷◌, if◌then◌else◌, Outcome,
  returns, throws,
}
use ic_govmind.Js.Text.{Text, codes, text_eq, trim, is_empty, or_text}
use ic_govmind.Assistant.Service.{Analyzer, use_submit_proposal, use_proposal_analysis}

pub record Proposal : Type 0 where
  pub id : ℕ
  pub composite_id : Text
  pub title : Text
  pub summary : Text

pub record Panel : Type 0 where
  pub selected_proposal_id : Option ℕ
  pub show_description : Bool
  pub show_analysis_panel : Bool
  pub analyzed_proposal_id : Option Text

pub data Call : Type 0 where
  submit : Text → Text → Text → Call
  analyze : Text → Call

-- `handleProposalSelect` of the list page.
unfoldable pub handle_proposal_select : Proposal → Panel → Panel
handle_proposal_select p panel = record panel {
  selected_proposal_id = some p.id;
  show_description = false;
  show_analysis_panel = true;
  analyzed_proposal_id = none;
}

-- After the submission: its identifier is kept, and the analysis of it is asked for. An error of
-- either is caught.
unfoldable pub after_submit : Call → Outcome Text → Panel → Panel × List Call
after_submit call (throws t) panel = (record panel { analyzed_proposal_id = none }, call ∷ [])
after_submit call (returns id) panel =
    (record panel { analyzed_proposal_id = some id }, call ∷ analyze id ∷ [])

module _ {P R : Type 0} (c : Analyzer P R) where
  unfoldable pub handle_analyze_proposal : Option Proposal → Panel → Panel × List Call
  handle_analyze_proposal none panel = (panel, [])
  handle_analyze_proposal (some p) panel =
      let description = or_text p.summary p.title in
      after_submit (submit p.composite_id p.title description)
        (use_submit_proposal c p.composite_id p.title description) panel

-- `handleRetryAnalysis`, with the identifier of the proposal that the analyzer holds.
unfoldable pub handle_retry_analysis : Option Proposal → Option Text → List Call
handle_retry_analysis none analyzed = []
handle_retry_analysis (some p) none = []
handle_retry_analysis (some p) (some id) = analyze id ∷ []

-- The modal of ProposalsPage.jsx; `selected` is the identifier given to `onProposalSubmitted`.
pub record Modal : Type 0 where
  pub title : Text
  pub description : Text
  pub is_open : Bool
  pub selected : Option Text

unfoldable pub after_modal : Outcome Text → Modal → Modal
after_modal (throws t) modal = modal
after_modal (returns id) modal = record modal {
  title = [];
  description = [];
  is_open = false;
  selected = if is_empty id then modal.selected else some id;
}

module _ {P R : Type 0} (c : Analyzer P R) where
  -- `handleSubmit` while no submission is pending, or while one is.
  unfoldable pub handle_submit : Bool → Modal → Modal
  handle_submit pending modal =
      if is_empty (trim modal.title) || (is_empty (trim modal.description) || pending)
      then modal
      else after_modal (use_submit_proposal c [] modal.title modal.description) modal

unfoldable pub handle_close : Bool → Modal → Modal
handle_close pending modal = if pending then modal else record modal { is_open = false }

-- A status is an object of which the first key counts, a text, or missing.
pub data StatusField : Type 0 where
  variant : List Text → StatusField
  plain : Text → StatusField
  no_status : StatusField

unfoldable pub get_status_string : StatusField → Option Text
get_status_string (variant []) = none
get_status_string (variant (k ∷ ks)) = some k
get_status_string (plain t) = some t
get_status_string no_status = none

-- A `switch` on a text with its default.
unfoldable pub switch : Option Text → List (Text × Text) → Text → Text
switch none cases other = other
switch (some t) [] other = other
switch (some t) ((name, result) ∷ cases) other = elim (text_eq name t) [
  | true ↦ result
  | false ↦ switch (some t) cases other
]

unfoldable pub get_status_badge_class : StatusField → Text
unfolding get_status_string switch
get_status_badge_class s =
    switch (get_status_string s)
      ((codes "Pending", codes "bg-gray-100 text-gray-800 border-gray-300")
        ∷ (codes "Analyzing", codes "bg-blue-100 text-blue-800 border-blue-300")
        ∷ (codes "Analyzed", codes "bg-green-100 text-green-800 border-green-300")
        ∷ (codes "Failed", codes "bg-red-100 text-red-800 border-red-300")
        ∷ [])
      (codes "bg-gray-100 text-gray-800 border-gray-300")

unfoldable pub get_status_icon : StatusField → Text
unfolding get_status_string switch
get_status_icon s =
    switch (get_status_string s)
      ((codes "Pending", codes "⏳")
        ∷ (codes "Analyzing", 0xd83d ∷ 0xdd04 ∷ [])
        ∷ (codes "Analyzed", codes "✅")
        ∷ (codes "Failed", codes "❌")
        ∷ [])
      (codes "❓")

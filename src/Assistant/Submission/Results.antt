-- ===== src/Assistant/Submission/Results.antt =====
-- src/ic_govmind_frontend/src/pages/ProposalsPage.jsx, the results' column, and what it makes of the
-- answer of `get_proposal`, which is a candid option and so an array.
use ic_govmind.Base.{
  ap, Bool-cases, inl, inr, ◌||◌, ◌≡◌, ◌≢◌, ◌↔◌, refl, Bool, true, false, Option, none, some, List,
  [], ◌∷◌, if◌then◌else◌, Outcome, returns,
}
use ic_govmind.Js.Text.{Text, codes, is_empty, text_eq}
use ic_govmind.Js.Text.Laws.{eq_of_text_eq}
use ic_govmind.Queries.{query_proposal}
use ic_govmind.Assistant.Analysis.{StatusField, no_status, get_status_string}
use ic_govmind.Assistant.Panel.{
  StoredProposal, PanelView, analyzing, analysis_failed, analyzed, waiting, panel_view, is_status,
  has_status, shown_reports,
}

-- The data of `useProposal` as the page reads it: a proposal, or an array, which has neither a
-- status nor an analysis of its own.
pub data Selected (R : Type 0) : Type 0 where
  nothing : Selected R
  proposal : StoredProposal R → Selected R
  array : List (StoredProposal R) → Selected R

pub data ResultsView (R : Type 0) : Type 0 where
  loading_proposal : ResultsView R
  not_found : ResultsView R
  report_of : R → ResultsView R
  analyzing_proposal : ResultsView R
  offers_retry : ResultsView R
  waiting_for_analysis : ResultsView R

-- What the page reads of `proposalAnalysisMutation`; a property that it lacks is `none`.
pub record AnalysisMutation : Type 0 where
  pub is_loading : Option Bool
  pub proposal_id : Option Text

unfoldable pub is_retrying : AnalysisMutation → Text → Bool
is_retrying m id = elim m.is_loading [
  | some true ↦ elim m.proposal_id [ some retried ↦ text_eq retried id | none ↦ false ]
  | _ ↦ false
]

is_status_eq : (o : Option Text) (t : Text) → is_status o t ≡ true → o ≡ some t
is_status_eq none t h = cc
is_status_eq (some s) t h = ap some (eq_of_text_eq s t h)

module _ {R : Type 0} where
  analyzed_eq : {q r : R} → analyzed q ≡ analyzed r → q ≡ r
  analyzed_eq h = cc

  abbrev pub data_of : Option (List (StoredProposal R)) → Selected R
  data_of none = nothing
  data_of (some ps) = array ps

  unfoldable pub without_report : StatusField → ResultsView R
  unfolding get_status_string text_eq
  without_report s =
      if is_status (get_status_string s) (codes "Analyzing")
      then analyzing_proposal
      else if is_status (get_status_string s) (codes "Failed")
      then offers_retry
      else waiting_for_analysis

  unfoldable pub results_of : StatusField → List R → ResultsView R
  results_of s [] = without_report s
  results_of s (r ∷ rs) = report_of r

  unfoldable pub results_view : Bool → Selected R → ResultsView R
  results_view true selected = loading_proposal
  results_view false nothing = not_found
  results_view false (proposal p) = results_of p.status p.analysis
  results_view false (array ps) = results_of no_status []

  held_proposal :
      (get_proposal : Text → Outcome (Option (List (StoredProposal R)))) (id : Text)
      (ps : List (StoredProposal R))
      → is_empty id ≡ false
      → get_proposal id ≡ returns (some ps)
      → query_proposal get_proposal id ≡ some ps
  unfolding query_proposal
  held_proposal get_proposal id ps given held = rw (given, held) refl

  -- The panel's choice by a status and the reports.
  abbrev view_by : Bool → Option Text → StoredProposal R → PanelView R
  view_by working status p =
      if working || is_status status (codes "Analyzing")
      then analyzing
      else if is_status status (codes "Failed")
      then analysis_failed
      else if is_status status (codes "Analyzed")
      then shown_reports p.analysis (some (p ∷ []))
      else waiting

  panel_view-own :
      (working : Bool) (p : StoredProposal R) (existing : Option (List (StoredProposal R)))
      → has_status p.status ≡ true
      → panel_view working (some (p ∷ [])) existing ≡ view_by working (get_status_string p.status) p
  unfolding panel_view text_eq
  panel_view-own working p existing h = rw h refl

  first_report :
      (reports : List R) (held : List (StoredProposal R)) (r : R)
      → shown_reports reports (some held) ≡ analyzed r
      → (rs : List R) × (reports ≡ r ∷ rs)
  first_report [] held r h = cc
  first_report (q ∷ rs) held r h = (rs, ap (λ q. q ∷ rs) (analyzed_eq h))

  view_by-analyzed :
      (working : Bool) (status : Option Text) (p : StoredProposal R) (r : R)
      → view_by working status p ≡ analyzed r
      → (working ≡ false)
        × (status ≡ some (codes "Analyzed"))
        × ((rs : List R) × (p.analysis ≡ r ∷ rs))
  view_by-analyzed true status p r h = cc
  view_by-analyzed false status p r h = elim (Bool-cases (is_status status (codes "Analyzing"))) [
    | inl busy ↦ (let none_there = rw busy at h in cc)
    | inr idle ↦ elim (Bool-cases (is_status status (codes "Failed"))) [
      | inl failed ↦ (let none_there = rw (idle, failed) at h in cc)
      | inr fine ↦ elim (Bool-cases (is_status status (codes "Analyzed"))) [
        | inl done ↦ (
          refl,
          is_status_eq status _ done,
          first_report p.analysis (p ∷ []) r (rw (idle, fine, done) at h),
        )
        | inr other ↦ (let none_there = rw (idle, fine, other) at h in cc)
      ]
    ]
  ]

  never_reported :
      (loading : Bool) (ps : List (StoredProposal R)) (r : R)
      → results_view loading (array ps) ≢ report_of r
  unfolding results_view results_of without_report get_status_string
  never_reported true ps r = λ h. cc
  never_reported false ps r = λ h. cc

  -- The two pages, in front of any answer for a proposal that the analyzer holds with a status, and
  -- of any answer about whether it exists. The panel shows a report exactly where no analysis is
  -- under way, the held status is Analyzed, and the report is the first of those held. The page of
  -- proposals, which is given the same answer, never shows a report.
  pub results_view-query_proposal :
      (get_proposal : Text → Outcome (Option (List (StoredProposal R)))) (id : Text)
      (p : StoredProposal R) (r : R) (working loading : Bool)
      (existing : Option (List (StoredProposal R)))
      → is_empty id ≡ false
      → get_proposal id ≡ returns (some (p ∷ []))
      → has_status p.status ≡ true
      → (let stored = query_proposal get_proposal id in
          ((panel_view working stored existing ≡ analyzed r) ↔ (
            (working ≡ false)
            × (get_status_string p.status ≡ some (codes "Analyzed"))
            × ((rs : List R) × (p.analysis ≡ r ∷ rs))))
          × (results_view loading (data_of stored) ≢ report_of r))
  results_view-query_proposal get_proposal id p r working loading existing given held status =
      let stored : query_proposal get_proposal id ≡ some (p ∷ []) =
        held_proposal get_proposal id (p ∷ []) given held in
      let own = panel_view-own working p existing status in
      rw (stored, own)
        (
          (
            (λ h. view_by-analyzed working _ p r h),
            (λ (idle, done, found). rw (idle, done, found.1) (unfold text_eq in refl)),
          ),
          never_reported loading (p ∷ []) r,
        )

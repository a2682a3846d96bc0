-- ===== src/Assistant/Submission/Tests.antt =====
-- A proposal typed into the modal and sent, while another is selected in the list.
use ic_govmind.Base.{
  ◌≢◌, List, ◌↔◌, ℕ, ◌≡◌, refl, true, false, none, some, [], ◌∷◌, returns, throws, error,
}
use ic_govmind.Js.Text.{text_eq, Text, codes, trim}
use ic_govmind.Queries.{query_proposal}
use ic_govmind.Assistant.Service.{Analyzer, absent, err, ok}
use ic_govmind.Assistant.Analysis.{get_status_string, variant, handle_submit}
use ic_govmind.Assistant.Panel.{StoredProposal, analyzed, panel_view}
use ic_govmind.Assistant.Submission.{
  Submission, Board, fresh_board, form_of, edit_title, edit_description, edit_form, is_enabled,
  may_submit, begin_submit, select_proposal, finish_submit, close_panel, edits, opens, selects,
  closes, Meanwhile, stays, goes_on, submit_form, clicks, begins, BoardReached, at_first, then_step,
}
use ic_govmind.Assistant.Submission.Laws.{HasText, awaited-Reached, finish-Meanwhile}
use ic_govmind.Assistant.Submission.Results.{
  results_view, results_of, without_report, array, report_of, data_of, waiting_for_analysis,
  results_view-query_proposal,
}

abbrev analyzer : Analyzer Text ℕ
analyzer = record {
  words = λ t. [];
  from_text = returns;
  analyze_proposal = λ id. returns (err []);
  submit_proposal_and_analyze = λ id title description. returns (ok (codes "proposal_1"));
  draft_proposal_with_committees = λ idea dao. returns absent;
  draft_proposal = λ idea. returns absent;
  run_debate_simulation = λ title content. throws (error []);
}

runs : Unit {0}
unfolding is_enabled edit_form may_submit trim begin_submit select_proposal close_panel
runs = tt

-- The page with the modal open and its form filled.
abbrev filled : Board
filled = record fresh_board {
  modal = record {
    title = codes "Grants";
    description = codes "Fund it";
    is_open = true;
    selected = none;
  };
}

filled-BoardReached : BoardReached analyzer filled
unfolding runs
filled-BoardReached =
    then_step
      (then_step (then_step at_first (clicks (opens fresh_board)))
        (clicks (edits _ (edit_title (codes "Grants")) refl)))
      (clicks (edits _ (edit_description (codes "Fund it")) refl))

awaited-Reached_example :
    (filled.modal.is_open ≡ true) × (form_of filled ≡ form_of filled) × HasText (form_of filled)
unfolding runs
awaited-Reached_example =
    awaited-Reached analyzer (begin_submit filled) (form_of filled)
      (then_step filled-BoardReached (begins filled refl)) refl

abbrev browsed : Board
unfolding runs
browsed = close_panel (select_proposal (codes "proposal_0") (begin_submit filled))

browsed-Meanwhile : Meanwhile (begin_submit filled) browsed
unfolding browsed
browsed-Meanwhile = goes_on (goes_on (stays _) (selects _ (codes "proposal_0"))) (closes _)

finish-Meanwhile_example :
    (d : Submission) × (browsed.awaited ≡ some d)
    × ((finish_submit (submit_form analyzer d) browsed).modal
        ≡ handle_submit analyzer false filled.modal)
unfolding runs
finish-Meanwhile_example = finish-Meanwhile analyzer filled browsed refl browsed-Meanwhile

abbrev done : StoredProposal ℕ
done = record {
  id = codes "proposal_1";
  status = variant (codes "Analyzed" ∷ []);
  analysis = 7 ∷ [];
}

-- What the query about its existence still says of it.
abbrev stale : StoredProposal ℕ
stale = record done { status = variant (codes "Failed" ∷ []) }

results_view-query_proposal_example :
    (let stored = query_proposal (λ id. returns (some (done ∷ []))) (codes "proposal_1") in
      ((panel_view false stored (some (stale ∷ [])) ≡ analyzed 7) ↔ (
        (false ≡ false)
        × (get_status_string done.status ≡ some (codes "Analyzed"))
        × ((rs : List ℕ) × (done.analysis ≡ 7 ∷ rs))))
      × (results_view false (data_of stored) ≢ report_of 7))
results_view-query_proposal_example =
    results_view-query_proposal (λ id. returns (some (done ∷ []))) (codes "proposal_1") done 7 false
      false (some (stale ∷ [])) refl refl refl

-- The panel shows the report, and the page waits for it.
shows_report : panel_view false (some (done ∷ [])) (some (stale ∷ [])) ≡ analyzed 7
unfolding panel_view get_status_string text_eq
shows_report = refl

page_waits : results_view false (array (done ∷ [])) ≡ waiting_for_analysis
unfolding results_view results_of without_report get_status_string
page_waits = refl

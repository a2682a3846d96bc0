-- ===== src/Assistant/Submission.antt =====
-- src/ic_govmind_frontend/src/pages/ProposalsPage.jsx: the page that lists what the analyzer holds,
-- with the modal that sends a proposal. A submission is under way while clicks come in, so the
-- page is a step relation; what stands in the results' column is a function of the query's data.
pub mod Laws
pub mod Results
mod Tests
use ic_govmind.Base.{
  ◌≡◌, Bool, true, false, not, ◌&&◌, ◌||◌, Option, none, some, List, [], is_some, if◌then◌else◌,
  Outcome, returns, throws,
}
use ic_govmind.Js.Text.{Text, codes, trim, is_empty}
use ic_govmind.Assistant.Service.{Analyzer, use_submit_proposal}
use ic_govmind.Assistant.Analysis.{Modal, after_modal, handle_close}

-- What the form holds, and what `mutateAsync` is given.
pub record Submission : Type 0 where
  pub title : Text
  pub description : Text
  pub use_ai : Bool
  pub ai_provider : Text

-- The page with its modal, which keeps its form while it is closed. `awaited` is the submission that
-- is under way: `submitProposalMutation.isPending`.
pub record Board : Type 0 where
  pub modal : Modal
  pub use_ai_analysis : Bool
  pub ai_provider : Text
  pub awaited : Option Submission
  pub selected_proposal_id : Option Text
  pub show_description : Bool
  pub show_complexity_breakdown : Bool
  pub show_analysis_panel : Bool

abbrev pub fresh_board : Board
fresh_board = record {
  modal = record { title = []; description = []; is_open = false; selected = none };
  use_ai_analysis = true;
  ai_provider = codes "deepseek";
  awaited = none;
  selected_proposal_id = none;
  show_description = false;
  show_complexity_breakdown = false;
  show_analysis_panel = true;
}

abbrev pub form_of : Board → Submission
form_of s = record {
  title = s.modal.title;
  description = s.modal.description;
  use_ai = s.use_ai_analysis;
  ai_provider = s.ai_provider;
}

-- The `onChange` of the form's fields.
pub data Edit : Type 0 where
  edit_title : Text → Edit
  edit_description : Text → Edit
  edit_use_ai : Bool → Edit
  edit_provider : Text → Edit

unfoldable pub edit_form : Edit → Board → Board
edit_form (edit_title t) s = record s { modal = record s.modal { title = t } }
edit_form (edit_description t) s = record s { modal = record s.modal { description = t } }
edit_form (edit_use_ai b) s = record s { use_ai_analysis = b }
edit_form (edit_provider t) s = record s { ai_provider = t }

-- The choice of a provider is there only with the analysis.
abbrev pub is_there : Edit → Board → Bool
is_there (edit_provider t) s = s.use_ai_analysis
is_there _ s = true

-- A field is `disabled` while a submission is under way, and a closed modal has none.
unfoldable pub is_enabled : Edit → Board → Bool
is_enabled e s = s.modal.is_open && (not (is_some s.awaited) && is_there e s)

-- The Submit button, which has the tests of `handleSubmit`.
unfoldable pub may_submit : Board → Bool
may_submit s =
    s.modal.is_open
    && not (
        is_empty (trim s.modal.title) || (is_empty (trim s.modal.description) || is_some s.awaited))

-- `handleSubmit` up to its `await`.
unfoldable pub begin_submit : Board → Board
begin_submit s = record s { awaited = some (form_of s) }

-- `handleProposalSelect`, and what the page does in `onProposalSubmitted`.
unfoldable pub select_proposal : Text → Board → Board
select_proposal id s = record s {
  selected_proposal_id = some id;
  show_description = false;
  show_analysis_panel = true;
}

-- `handleSubmit` behind its `await`.
unfoldable pub finish_submit : Outcome Text → Board → Board
finish_submit (throws t) s = record s { awaited = none }
finish_submit (returns id) s =
    let cleared : Board = record s { modal = after_modal (returns id) s.modal; awaited = none } in
    if is_empty id then cleared else select_proposal id cleared

unfoldable pub close_panel : Board → Board
close_panel s = record s { show_analysis_panel = false; selected_proposal_id = none }

-- The buttons and fields of the page, those that start a submission left aside.
pub data PageStep : Board → Board → Type 0 where
  edits : (s : Board) (e : Edit) → is_enabled e s ≡ true → PageStep s (edit_form e s)
  opens : (s : Board) → PageStep s (record s { modal = record s.modal { is_open = true } })
  cancels :
      (s : Board)
      → s.modal.is_open ≡ true
      → PageStep s (record s { modal = handle_close (is_some s.awaited) s.modal })
  selects : (s : Board) (id : Text) → PageStep s (select_proposal id s)
  closes : (s : Board) → PageStep s (close_panel s)
  unfolds : (s : Board) → PageStep s (record s { show_description = not s.show_description })
  details :
      (s : Board)
      → PageStep s (record s { show_complexity_breakdown = not s.show_complexity_breakdown })

-- Any number of them.
pub data Meanwhile : Board → Board → Type 0 where
  stays : (s : Board) → Meanwhile s s
  goes_on : {s t u : Board} → Meanwhile s t → PageStep t u → Meanwhile s u

module _ {P R : Type 0} (c : Analyzer P R) where
  -- `submitProposalMutation.mutateAsync`, which passes on neither the choice of an analysis nor the
  -- provider.
  unfoldable pub submit_form : Submission → Outcome Text
  submit_form d = use_submit_proposal c [] d.title d.description

  pub data BoardStep : Board → Board → Type 0 where
    clicks : {s t : Board} → PageStep s t → BoardStep s t
    begins : (s : Board) → may_submit s ≡ true → BoardStep s (begin_submit s)
    answered :
        (s : Board) (d : Submission)
        → s.awaited ≡ some d
        → BoardStep s (finish_submit (submit_form d) s)

  pub data BoardReached : Board → Type 0 where
    at_first : BoardReached fresh_board
    then_step : {s t : Board} → BoardReached s → BoardStep s t → BoardReached t

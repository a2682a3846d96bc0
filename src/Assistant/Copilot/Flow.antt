-- ===== src/Assistant/Copilot/Flow.antt =====
-- src/ic_govmind_frontend/src/pages/ProposalCopilotPage.jsx as its user meets it: the three steps,
-- the sidebar of the debate, and what each shows, with the asynchronous handlers cut at their
-- `await`. An answer may be any answer, but for a debate of nobody.
pub mod Laws
mod Tests
use ic_govmind.Base.{
  ℕ, ◌+◌, ◌-◌, ◌<◌, ◌≤◌, ◌≡◌, ◌≢◌, ◌||◌, min, Bool, true, false, Option, none, some, List, [], ◌∷◌,
  length, get_elem?, ◌==◌, if◌then◌else◌, Outcome, returns, throws,
}
use ic_govmind.Js.Text.{Text, codes, trim, is_empty}
use ic_govmind.Assistant.Service.{Draft, EnhancedDraft, ShownPersona}
use ic_govmind.Assistant.Copilot.{
  Page, Context, show_enhanced, show_draft, show_debate, show_proposal, handle_use_draft,
  handle_close_debate_simulation,
}

abbrev pub fresh_page : Page
fresh_page = record {
  copilot_idea = [];
  use_committee_suggestion = true;
  is_generating_draft = false;
  generated_draft = none;
  generated_committee_suggestion = none;
  draft_error = none;
  proposal_title = [];
  proposal_content = [];
  selected_committee_id = [];
  is_submitting = false;
  submit_error = none;
  is_debate_simulation_open = false;
  debate_results = none;
  is_running_debate = false;
  debate_error = [];
  selected_persona_index = 0;
  current_step = 1;
  destination = none;
}

-- The handlers up to their `await`.
unfoldable pub begin_generate : Page → Page
begin_generate page =
    if is_empty (trim page.copilot_idea)
    then record page { draft_error = some (codes "Please enter a proposal idea") }
    else record page {
      is_generating_draft = true;
      draft_error = none;
      generated_draft = none;
      generated_committee_suggestion = none;
    }

unfoldable pub begin_debate : Page → Page
begin_debate page =
    if is_empty (trim page.proposal_title) || is_empty (trim page.proposal_content)
    then record page {
      debate_error =
          codes "Please fill in both title and content before running the debate simulation";
    }
    else record page {
      is_running_debate = true;
      debate_error = [];
      debate_results = none;
      selected_persona_index = 0;
    }

unfoldable pub begin_proposal : Page → Page
begin_proposal page = record page { is_submitting = true; submit_error = none }

module _ {P R : Type 0} (c : Context P R) where
  -- The handlers behind their `await`, with `finally`.
  unfoldable pub finish_enhanced : Outcome EnhancedDraft → Page → Page
  finish_enhanced m page = record (show_enhanced c m page) { is_generating_draft = false }

  unfoldable pub finish_draft : Outcome Draft → Page → Page
  finish_draft m page = record (show_draft c m page) { is_generating_draft = false }

  unfoldable pub finish_debate : Outcome (List ShownPersona) → Page → Page
  finish_debate (returns ps) page = record (show_debate c (returns ps) page) {
    selected_persona_index = 0;
    is_running_debate = false;
  }
  finish_debate (throws t) page = record (show_debate c (throws t) page) {
    is_running_debate = false;
  }

  -- The buttons and fields of the page, each where it is shown and not disabled.
  pub data FlowStep : Page → Page → Type 0 where
    edits_idea :
        (page : Page) (t : Text)
        → page.current_step ≡ 1
        → page.is_generating_draft ≡ false
        → FlowStep page (record page { copilot_idea = t })
    toggles_suggestion :
        (page : Page) (chosen : Bool)
        → page.current_step ≡ 1
        → 0 < c.committee_count
        → page.is_generating_draft ≡ false
        → FlowStep page (record page { use_committee_suggestion = chosen })
    goes_back :
        (page : Page) (n : ℕ)
        → 1 ≤ n
        → n < page.current_step
        → FlowStep page (record page { current_step = n })
    generates :
        (page : Page)
        → page.current_step ≡ 1
        → page.is_generating_draft ≡ false
        → FlowStep page (begin_generate page)
    enhanced_came :
        (page : Page) (m : Outcome EnhancedDraft)
        → page.is_generating_draft ≡ true
        → FlowStep page (finish_enhanced m page)
    draft_came :
        (page : Page) (m : Outcome Draft)
        → page.is_generating_draft ≡ true
        → FlowStep page (finish_draft m page)
    uses_draft : (page : Page) → page.current_step ≡ 2 → FlowStep page (handle_use_draft page)
    edits_proposal :
        (page : Page) (title content committee : Text)
        → page.current_step ≡ 3
        → page.is_submitting ≡ false
        → FlowStep page (record page {
          proposal_title = title;
          proposal_content = content;
          selected_committee_id = committee;
        })
    cancels :
        (page : Page)
        → page.current_step ≡ 3
        → page.is_submitting ≡ false
        → FlowStep page (record page { current_step = 2 })
    proposes :
        (page : Page)
        → page.current_step ≡ 3
        → page.is_submitting ≡ false
        → FlowStep page (begin_proposal page)
    proposal_came :
        (page : Page) (m : Outcome ℕ)
        → page.is_submitting ≡ true
        → FlowStep page (show_proposal c c.analyzer.words (some m) page)
    debates : (page : Page) → page.is_running_debate ≡ false → FlowStep page (begin_debate page)
    debate_came :
        (page : Page) (m : Outcome (List ShownPersona))
        → page.is_running_debate ≡ true
        → m ≢ returns []
        → FlowStep page (finish_debate m page)
    closes_debate : (page : Page) → FlowStep page (handle_close_debate_simulation page)
    selects_persona :
        (page : Page) (ps : List ShownPersona) (n : ℕ)
        → page.debate_results ≡ some ps
        → n < length ps
        → FlowStep page (record page { selected_persona_index = n })
    previous_persona :
        (page : Page)
        → FlowStep page (record page { selected_persona_index = page.selected_persona_index - 1 })
    next_persona :
        (page : Page) (p : ShownPersona) (ps : List ShownPersona)
        → page.debate_results ≡ some (p ∷ ps)
        → FlowStep page (record page {
          selected_persona_index = min (length ps) (page.selected_persona_index + 1);
        })

  pub data FlowReached : Page → Type 0 where
    opened : FlowReached fresh_page
    moved : {s t : Page} → FlowReached s → FlowStep s t → FlowReached t

-- What the main column shows.
pub data StepView : Type 0 where
  idea_form : StepView
  draft_review : Draft → StepView
  finalize_form : StepView
  blank : StepView

abbrev pub review_of : Option Draft → StepView
review_of none = blank
review_of (some d) = draft_review d

unfoldable pub step_view : Page → StepView
step_view page =
    if page.current_step == 1
    then idea_form
    else if page.current_step == 2
    then review_of page.generated_draft
    else if page.current_step == 3
    then finalize_form
    else blank

-- What the sidebar shows of the debate; `crash` is the card of a persona that is not there.
pub data DebateView : Type 0 where
  no_debate : DebateView
  persona_card : ShownPersona → DebateView
  crash : DebateView

abbrev pub card_at : Option ShownPersona → DebateView
card_at none = crash
card_at (some p) = persona_card p

unfoldable pub debate_view : Page → DebateView
debate_view page = elim page.debate_results [
  | none ↦ no_debate
  | some ps ↦ card_at (get_elem? ps page.selected_persona_index)
]

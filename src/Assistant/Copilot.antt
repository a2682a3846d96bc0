-- ===== src/Assistant/Copilot.antt =====
-- src/ic_govmind_frontend/src/pages/ProposalCopilotPage.jsx: the page that takes an idea to a draft
-- and a draft to a proposal.
pub mod Laws
pub mod Flow
use ic_govmind.Base.{
  ℕ, Bool, true, false, not, ◌||◌, ◌&&◌, Option, none, some, List, [], ◌∷◌, ◌++◌, is_some, ltb,
  if◌then◌else◌, Outcome, returns, throws, Thrown,
}
use ic_govmind.Js.Text.{Text, codes, trim, is_empty, or_text}
use ic_govmind.Js.Decimal.{decimal}
use ic_govmind.Assistant.Service.{
  Draft, Suggestion, EnhancedDraft, ShownPersona, Analyzer, CreateProposal,
  use_generate_draft_with_committee, use_generate_draft, use_debate_simulation, use_create_proposal,
}

pub record Page : Type 0 where
  pub copilot_idea : Text
  pub use_committee_suggestion : Bool
  pub is_generating_draft : Bool
  pub generated_draft : Option Draft
  pub generated_committee_suggestion : Option Suggestion
  pub draft_error : Option Text
  pub proposal_title : Text
  pub proposal_content : Text
  pub selected_committee_id : Text
  pub is_submitting : Bool
  pub submit_error : Option Text
  pub is_debate_simulation_open : Bool
  pub debate_results : Option (List ShownPersona)
  pub is_running_debate : Bool
  pub debate_error : Text
  pub selected_persona_index : ℕ
  pub current_step : ℕ
  pub destination : Option Text

-- What the page is given: the identifier in its address, the identifier of the DAO that is loaded
-- (the canister's, or else the record's), how many committees there are, and the canister.
pub record Context (P R : Type 0) : Type 0 where
  pub dao_id : Text
  pub dao_canister_id : Text
  pub has_dao : Bool
  pub committee_count : ℕ
  pub analyzer : Analyzer P R
  pub create_proposal : Option CreateProposal

module _ {P R : Type 0} (c : Context P R) where
  abbrev pub draft_failed : Page → Page
  draft_failed page = record page {
    draft_error = some (codes "Failed to generate proposal draft. Please try again.");
  }

  abbrev pub show_enhanced : Outcome EnhancedDraft → Page → Page
  show_enhanced (throws t) page = draft_failed page
  show_enhanced (returns r) page = record page {
    generated_draft = some r.draft;
    generated_committee_suggestion = r.committee_suggestion;
    current_step = 2;
  }

  abbrev pub show_draft : Outcome Draft → Page → Page
  show_draft (throws t) page = draft_failed page
  show_draft (returns d) page = record page { generated_draft = some d; current_step = 2 }

  unfoldable pub handle_generate_ai_draft : Page → Page
  unfolding trim
  handle_generate_ai_draft page =
      let idea = trim page.copilot_idea in
      let cleared = record page {
        is_generating_draft = false;
        draft_error = none;
        generated_draft = none;
        generated_committee_suggestion = none;
      } in
      if is_empty idea
      then record page { draft_error = some (codes "Please enter a proposal idea") }
      else if page.use_committee_suggestion && ltb 0 c.committee_count
      then show_enhanced (use_generate_draft_with_committee c.analyzer idea c.dao_canister_id)
          cleared
      else show_draft (use_generate_draft c.analyzer idea) cleared

  -- The call of `useCreateProposal`, where the form is complete.
  unfoldable pub proposal_call : Page → Option (Outcome ℕ)
  proposal_call page =
      if is_empty (trim page.proposal_title)
        || (is_empty (trim page.proposal_content)
            || (not (is_some c.create_proposal) || not c.has_dao))
      then none
      else some (
          use_create_proposal c.create_proposal (trim page.proposal_title)
            (trim page.proposal_content) page.selected_committee_id)

  unfoldable pub show_proposal : (Thrown → Text) → Option (Outcome ℕ) → Page → Page
  show_proposal words none page = record page {
    submit_error = some (codes "Missing required fields or DAO context.");
  }
  show_proposal words (some (returns id)) page = record page {
    is_submitting = false;
    submit_error = none;
    destination = some (codes "/dao/" ++ (c.dao_id ++ codes "?tab=proposals"));
  }
  show_proposal words (some (throws t)) page = record page {
    is_submitting = false;
    submit_error = some (or_text (words t) (codes "Failed to submit proposal"));
  }

  unfoldable pub handle_submit_proposal : Page → Page
  handle_submit_proposal page = show_proposal c.analyzer.words (proposal_call page) page

  abbrev pub show_debate : Outcome (List ShownPersona) → Page → Page
  show_debate (returns ps) page = record page {
    debate_results = some ps;
    is_debate_simulation_open = true;
  }
  show_debate (throws t) page = record page {
    debate_error =
        or_text (c.analyzer.words t) (codes "An unexpected error occurred during simulation");
  }

  unfoldable pub handle_run_debate_simulation : Page → Page
  handle_run_debate_simulation page =
      if is_empty (trim page.proposal_title) || is_empty (trim page.proposal_content)
      then record page {
        debate_error =
            codes "Please fill in both title and content before running the debate simulation";
      }
      else show_debate
          (use_debate_simulation c.analyzer (trim page.proposal_title) (trim page.proposal_content))
          (record page {
            is_running_debate = false;
            debate_error = [];
            debate_results = none;
            selected_persona_index = 0;
          })

-- `${summary}\n\n**Rationale:**\n${rationale}\n\n**Specifications:**\n${specifications}`.
unfoldable pub content_of_draft : Draft → Text
content_of_draft d =
    d.summary
    ++ (codes "\n\n**Rationale:**\n"
        ++ (d.rationale ++ (codes "\n\n**Specifications:**\n" ++ d.specifications)))

-- `String(cidValue)`, or the empty text where no committee is suggested.
unfoldable pub suggested_id : Option Suggestion → Text
suggested_id none = []
suggested_id (some s) = elim s.committee_id [ none ↦ [] | some n ↦ decimal n ]

unfoldable pub handle_use_draft : Page → Page
handle_use_draft page = elim page.generated_draft [
  | none ↦ page
  | some d ↦ record page {
    proposal_title = d.title;
    proposal_content = content_of_draft d;
    selected_committee_id = suggested_id page.generated_committee_suggestion;
    current_step = 3;
  }
]

unfoldable pub handle_close_debate_simulation : Page → Page
handle_close_debate_simulation page = record page {
  is_debate_simulation_open = false;
  debate_error = [];
}

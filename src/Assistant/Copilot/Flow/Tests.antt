-- ===== src/Assistant/Copilot/Flow/Tests.antt =====
-- An idea that becomes a draft and a proposal, which is then debated.
use ic_govmind.Base.{ℕ, ◌≡◌, ◌≢◌, refl, true, none, [], ◌∷◌, returns, throws, error}
use ic_govmind.Js.Text.{Text, codes, trim}
use ic_govmind.Assistant.Service.{Draft, ShownPersona, absent, err, ok}
use ic_govmind.Assistant.Copilot.{Page, Context, handle_use_draft, content_of_draft, suggested_id}
use ic_govmind.Assistant.Copilot.Flow.{
  fresh_page, begin_generate, begin_debate, finish_draft, finish_debate, edits_idea, generates,
  draft_came, uses_draft, debates, debate_came, next_persona, FlowReached, opened, moved, blank,
  draft_review, step_view, crash, persona_card, debate_view,
}
use ic_govmind.Assistant.Copilot.Flow.Laws.{Reached-views}

abbrev context : Context Text ℕ
context = record {
  dao_id = codes "d";
  dao_canister_id = codes "c";
  has_dao = true;
  committee_count = 0;
  analyzer = record {
    words = λ t. [];
    from_text = returns;
    analyze_proposal = λ id. returns (err []);
    submit_proposal_and_analyze = λ id title description. returns (ok []);
    draft_proposal_with_committees = λ idea dao. returns absent;
    draft_proposal = λ idea. returns absent;
    run_debate_simulation = λ title content. throws (error []);
  };
  create_proposal = none;
}

abbrev grants : Draft
grants = record {
  title = codes "Grants";
  summary = codes "Fund";
  rationale = codes "Why";
  specifications = codes "How";
}

abbrev critic : ShownPersona
critic = record {
  name = codes "Critic";
  icon = codes "shield";
  core_argument = codes "Costly";
  objections = [];
  actionable_suggestion = codes "Halve it";
}

abbrev friend : ShownPersona
friend = record critic { name = codes "Friend" }

runs : Unit {0}
unfolding begin_generate begin_debate finish_draft finish_debate handle_use_draft content_of_draft
    suggested_id trim
runs = tt

abbrev idea : Page
idea = record fresh_page { copilot_idea = codes "Grants" }

abbrev drafted : Page
unfolding runs
drafted = finish_draft context (returns grants) (begin_generate idea)

drafted-FlowReached : FlowReached context drafted
unfolding runs
drafted-FlowReached =
    moved
      (moved (moved opened (edits_idea _ (codes "Grants") refl refl)) (generates idea refl refl))
      (draft_came _ (returns grants) refl)

shows_draft : step_view drafted ≡ draft_review grants
unfolding step_view drafted
shows_draft = refl

abbrev debated : Page
unfolding runs
debated =
    finish_debate context (returns (critic ∷ friend ∷ [])) (begin_debate (handle_use_draft drafted))

-- The second persona of the debate.
abbrev second : Page
unfolding debated
second = record debated { selected_persona_index = 1 }

second-FlowReached : FlowReached context second
unfolding second
second-FlowReached =
    moved
      (moved (moved (moved drafted-FlowReached (uses_draft drafted refl)) (debates _ refl))
        (debate_came _ (returns (critic ∷ friend ∷ [])) refl (λ e. cc)))
      (next_persona debated critic (friend ∷ []) refl)

shows_friend : debate_view second ≡ persona_card friend
unfolding debate_view second
shows_friend = refl

Reached-views_example : (step_view second ≢ blank) × (debate_view second ≢ crash)
Reached-views_example = Reached-views context second second-FlowReached

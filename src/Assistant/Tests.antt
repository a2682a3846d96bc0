-- ===== src/Assistant/Tests.antt =====
-- Runs of the assistant, and its theorems at them.
use ic_govmind.Base.{
  ℕ, ◌≡◌, ◌≢◌, ◌↔◌, refl, true, false, none, some, [], ◌∷◌, ◌++◌, returns, throws, error, ◌>>=◌,
}
use ic_govmind.Js.Text.{Text, codes, trim, is_empty, is_space}
use ic_govmind.Js.Decimal.{decimal, value}
use ic_govmind.Js.Integer.{pos, parse_int_10, leading_digits}
use ic_govmind.Assistant.Service.{
  Draft, ok, err, absent, Analyzer, CreateProposal, created_or_throw, unpack, unpack_in,
  generate_draft, generate_draft_with_committee, submit_proposal_and_analyze, data_or_throw,
  use_submit_proposal, use_proposal_analysis, use_generate_draft_with_committee, use_generate_draft,
  use_debate_simulation, use_create_proposal, committee_ids,
}
use ic_govmind.Assistant.Service.Laws.{Fails, mutations-IsAnswered}
use ic_govmind.Assistant.Analysis.{
  Proposal, Panel, submit, analyze, after_submit, handle_analyze_proposal, Modal, after_modal,
  handle_submit,
}
use ic_govmind.Assistant.Analysis.Laws.{asked, handle_analyze_proposal_asks, handle_submit_keeps}
use ic_govmind.Assistant.Copilot.{
  Page, Context, proposal_call, show_proposal, handle_submit_proposal, content_of_draft,
  suggested_id, handle_use_draft, handle_generate_ai_draft,
}
use ic_govmind.Assistant.Copilot.Laws.{proposal_call-handle_use_draft, handle_submit_proposal_iff}

abbrev proposal : Proposal
proposal = record { id = 3; composite_id = codes "d-3"; title = codes "Grants"; summary = [] }

abbrev panel : Panel
panel = record {
  selected_proposal_id = some 3;
  show_description = false;
  show_analysis_panel = true;
  analyzed_proposal_id = some (codes "old");
}

runs : Unit {0}
unfolding trim is_space decimal value parse_int_10 leading_digits unpack unpack_in generate_draft
    generate_draft_with_committee data_or_throw use_generate_draft_with_committee use_generate_draft
    use_create_proposal committee_ids proposal_call show_proposal handle_submit_proposal
    content_of_draft suggested_id handle_use_draft handle_generate_ai_draft
runs = tt

abbrev draft : Draft
draft = record {
  title = codes "Grants";
  summary = codes "s";
  rationale = codes "r";
  specifications = codes "p";
}

-- It answers with the draft and with committee 12, and refuses an analysis without words.
abbrev analyzer : Analyzer Text ℕ
analyzer = record {
  words = λ t. [];
  from_text = returns;
  analyze_proposal = λ id. returns (err []);
  submit_proposal_and_analyze = λ id title description. returns absent;
  draft_proposal_with_committees = λ idea dao. returns (
      ok (record {
        draft = draft;
        committee_suggestion = some (record { committee_id = some 12 });
      }));
  draft_proposal = λ idea. returns (ok draft);
  run_debate_simulation = λ title content. throws (error []);
}

abbrev create : CreateProposal
create = λ title description ids. returns (ok 7)

abbrev context : Context Text ℕ
context = record {
  dao_id = codes "d";
  dao_canister_id = codes "c";
  has_dao = true;
  committee_count = 3;
  analyzer = analyzer;
  create_proposal = some create;
}

abbrev blank : Page
blank = record {
  copilot_idea = codes " fund it ";
  use_committee_suggestion = true;
  is_generating_draft = false;
  generated_draft = none;
  generated_committee_suggestion = none;
  draft_error = none;
  proposal_title = [];
  proposal_content = [];
  selected_committee_id = [];
  is_submitting = false;
  submit_error = none;
  is_debate_simulation_open = false;
  debate_results = none;
  is_running_debate = false;
  debate_error = [];
  selected_persona_index = 0;
  current_step = 1;
  destination = none;
}

abbrev drafted : Page
drafted = record blank {
  generated_draft = some draft;
  generated_committee_suggestion = some (record { committee_id = some 12 });
  current_step = 2;
}

generates : handle_generate_ai_draft context blank ≡ drafted
unfolding runs
generates = refl

titled : is_empty (trim (codes "Grants")) ≡ false
unfolding trim is_space
titled = refl

proposal_call-handle_use_draft_example :
    proposal_call context (handle_use_draft drafted)
    ≡ some (
        create (trim draft.title) (trim (content_of_draft draft)) (some (pos 12) ∷ [])
        >>= created_or_throw)
proposal_call-handle_use_draft_example =
    proposal_call-handle_use_draft context drafted draft 12 create refl refl titled refl refl

handle_submit_proposal_iff_sample :
    ((handle_submit_proposal context (handle_use_draft drafted)).destination
      ≡ some (codes "/dao/" ++ (context.dao_id ++ codes "?tab=proposals")))
    ↔ ((id : ℕ) × (proposal_call context (handle_use_draft drafted) ≡ some (returns id)))
unfolding handle_use_draft
handle_submit_proposal_iff_sample =
    handle_submit_proposal_iff context (handle_use_draft drafted) refl

mutations-IsAnswered_example :
    Fails (use_submit_proposal analyzer (codes "1") (codes "t") (codes "d"))
    × Fails (use_proposal_analysis analyzer (codes "1"))
    × (use_generate_draft_with_committee analyzer (codes "i") (codes "c")
        ≡ returns (record {
          draft = draft;
          committee_suggestion = some (record { committee_id = some 12 });
        }))
    × (use_generate_draft analyzer (codes "i") ≡ returns draft)
    × Fails (use_debate_simulation analyzer (codes "t") (codes "d"))
mutations-IsAnswered_example =
    mutations-IsAnswered analyzer (codes "1") (codes "t") (codes "d") (codes "i") (codes "c")

-- An analyzer that takes every proposal.
abbrev taker : Analyzer Text ℕ
taker = record analyzer {
  submit_proposal_and_analyze = λ id title description. returns (ok (codes "p9"));
}

analyzes : handle_analyze_proposal taker (some proposal) panel ≡ (
  record panel { analyzed_proposal_id = some (codes "p9") },
  submit (codes "d-3") (codes "Grants") (codes "Grants") ∷ analyze (codes "p9") ∷ [],
)
unfolding handle_analyze_proposal after_submit use_submit_proposal submit_proposal_and_analyze
    unpack_in data_or_throw
analyzes = refl

handle_analyze_proposal_asks_sample :
    asked (handle_analyze_proposal taker (some proposal) panel).1
    ≡ (handle_analyze_proposal taker (some proposal) panel).0.analyzed_proposal_id
handle_analyze_proposal_asks_sample =
    handle_analyze_proposal_asks taker (some proposal) proposal panel refl

abbrev modal : Modal
modal = record { title = codes "t"; description = codes "d"; is_open = true; selected = none }

taken : (handle_submit taker false modal).title ≢ modal.title
unfolding handle_submit after_modal trim is_space use_submit_proposal submit_proposal_and_analyze
    unpack_in data_or_throw
taken h = cc

handle_submit_keeps_sample :
    (id : Text) × (use_submit_proposal taker [] (codes "t") (codes "d") ≡ returns id)
handle_submit_keeps_sample = handle_submit_keeps taker false modal taken

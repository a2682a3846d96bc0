-- ===== src/Assistant/Panel/Tests.antt =====
-- A list of two proposals, in front of an analyzer that keeps each under its composite identifier.
use ic_govmind.Base.{
  ℕ, ◌≡◌, ◌∙◌, sym, refl, Option, none, some, List, [], ◌∷◌, returns, throws, error, true, false,
}
use ic_govmind.Js.Text.{Text, codes}
use ic_govmind.Assistant.Service.{
  Analyzer, absent, err, ok, submit_proposal_and_analyze, use_submit_proposal, data_or_throw,
  unpack, unpack_in, opt_id,
}
use ic_govmind.Assistant.Analysis.{Proposal, handle_proposal_select}
use ic_govmind.Assistant.Panel.{
  find_proposal, select_in_panel, PanelState, fresh_panel, submit_selected, selects, submits,
  submitted, PanelReached, start, next_step, shown_id,
}
use ic_govmind.Assistant.Panel.Laws.{IsIdle, shown_id-list_page}
use ic_govmind.Assistant.Panel.Crossed.{Shows, shown_id-panel, shown_id-selected_meanwhile}

abbrev id_or_none : Option Text → Text
id_or_none none = []
id_or_none (some id) = id

abbrev analyzer : Analyzer Text ℕ
analyzer = record {
  words = λ t. [];
  from_text = returns;
  analyze_proposal = λ id. returns (err []);
  submit_proposal_and_analyze = λ id title description. returns (ok (id_or_none id));
  draft_proposal_with_committees = λ idea dao. returns absent;
  draft_proposal = λ idea. returns absent;
  run_debate_simulation = λ title content. throws (error []);
}

abbrev grants : Proposal
grants = record { id = 1; composite_id = codes "d-1"; title = codes "Grants"; summary = codes "g" }

abbrev rules : Proposal
rules = record { id = 2; composite_id = codes "d-2"; title = codes "Rules"; summary = codes "r" }

abbrev listed : List Proposal
listed = grants ∷ rules ∷ []

abbrev unknown : Text → Option Text
unknown composite = none

runs : Unit {0}
unfolding find_proposal submit_selected use_submit_proposal submit_proposal_and_analyze
    data_or_throw unpack unpack_in
runs = tt

shown_id-panel_example :
    (s : PanelState) × PanelReached analyzer listed select_in_panel IsIdle s
    × Shows listed unknown rules (codes "d-1") s
unfolding runs
shown_id-panel_example =
    shown_id-panel analyzer listed grants rules (codes "d-1") refl refl refl unknown refl

shown_id-selected_meanwhile_sample :
    (s : PanelState) × PanelReached analyzer listed handle_proposal_select (λ s. Unit) s
    × Shows listed unknown rules (codes "d-1") s
unfolding runs
shown_id-selected_meanwhile_sample =
    shown_id-selected_meanwhile analyzer listed grants rules (codes "d-1") refl refl refl unknown
      refl

returns_eq : {a b : Text} → returns a ≡ returns b → a ≡ b
returns_eq e = cc

keeps_composite : (t : Text) → id_or_none (opt_id t) ≡ t
keeps_composite [] = refl
keeps_composite (c ∷ t) = refl

keeps_owner :
    (p : Proposal) (id : Text) → submit_selected analyzer p ≡ returns id → id ≡ p.composite_id
unfolding runs
keeps_owner p id h = sym (returns_eq h) ∙ keeps_composite p.composite_id

-- The first proposal is selected and submitted.
abbrev sent : PanelState
sent = record {
  panel = record {
    selected_proposal_id = some 1;
    show_description = false;
    show_analysis_panel = true;
    analyzed_proposal_id = some (codes "d-1");
  };
  submitting = none;
}

sent-PanelReached : PanelReached analyzer listed handle_proposal_select IsIdle sent
unfolding runs handle_proposal_select
sent-PanelReached =
    next_step
      (next_step (next_step start (selects fresh_panel grants refl)) (submits _ grants refl refl))
      (submitted _ grants (codes "d-1") refl refl)

shown_id-list_page_example : codes "d-1" ≡ grants.composite_id
unfolding runs shown_id
shown_id-list_page_example =
    shown_id-list_page analyzer listed (λ id. id) keeps_owner sent unknown grants (codes "d-1")
      sent-PanelReached (λ composite i h. cc) refl refl

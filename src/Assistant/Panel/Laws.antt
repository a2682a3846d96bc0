-- ===== src/Assistant/Panel/Laws.antt =====
-- The list page shows a proposal's own analysis, as long as no other proposal is selected while a
-- submission is awaited.
use ic_govmind.Base.{
  some_eq, ◌≡◌, ◌∙◌, sym, Option, none, some, List, Option-cases, inl, inr, returns, Bool-cases,
}
use ic_govmind.Js.Text.{Text, is_empty}
use ic_govmind.Assistant.Service.{Analyzer}
use ic_govmind.Assistant.Analysis.{Proposal, handle_proposal_select}
use ic_govmind.Assistant.Panel.{
  find_proposal, PanelState, submit_selected, PanelStep, selects, submits, submitted,
  submission_failed, PanelReached, start, next_step, shown_id,
}

-- Nothing is awaited.
abbrev pub IsIdle : PanelState → Type 0
IsIdle s = s.submitting ≡ none

module _ {P R : Type 0} (c : Analyzer P R) (proposals : List Proposal) (owner : Text → Text)
    (owned : (p : Proposal) (id : Text)
      → submit_selected c p ≡ returns id
      → owner id ≡ p.composite_id) where
  abbrev selected : PanelState → Option Proposal
  selected s = find_proposal proposals s.panel.selected_proposal_id

  -- What is kept as analyzed, and what is awaited, belongs to the proposal that is selected.
  record IsOwn (s : PanelState) : Type 0 where
    analyzed_own :
        (p : Proposal) (id : Text)
        → selected s ≡ some p
        → s.panel.analyzed_proposal_id ≡ some id
        → owner id ≡ p.composite_id
    awaited_own : (p : Proposal) → s.submitting ≡ some p → selected s ≡ some p

  IsOwn-step :
      {s t : PanelState}
      → PanelStep c proposals handle_proposal_select IsIdle s t
      → IsOwn s
      → IsOwn t
  unfolding handle_proposal_select
  IsOwn-step (selects s p idle) own = record {
    analyzed_own = λ q id h k. cc;
    awaited_own = λ q h. cc;
  }
  IsOwn-step (submits s p found idle) own = record {
    analyzed_own = λ q id h k. cc;
    awaited_own = λ q h. found ∙ h;
  }
  IsOwn-step (submitted s p id awaited made) own = record {
    analyzed_own = λ q id' h k.
        let same : p ≡ q = some_eq (sym (own.awaited_own p awaited) ∙ h) in
        let this : id ≡ id' = some_eq k in rw (← same, ← this) (owned p id made);
    awaited_own = λ q h. cc;
  }
  IsOwn-step (submission_failed s p t awaited failed) own = record {
    analyzed_own = own.analyzed_own;
    awaited_own = λ q h. cc;
  }

  Reached-IsOwn :
      {s : PanelState} → PanelReached c proposals handle_proposal_select IsIdle s → IsOwn s
  unfolding find_proposal
  Reached-IsOwn start = record { analyzed_own = λ p id h k. cc; awaited_own = λ p h. cc }
  Reached-IsOwn (next_step r step) = IsOwn-step step (Reached-IsOwn r)

  -- On the list page, as long as no proposal is selected while a submission is awaited: the
  -- analysis that is shown under a selected proposal is that proposal's, where the analyzer gives
  -- every submission an identifier of the proposal submitted and answers for a composite
  -- identifier with an identifier of that proposal.
  pub shown_id-list_page :
      (s : PanelState) (existing : Text → Option Text) (p : Proposal) (id : Text)
      → PanelReached c proposals handle_proposal_select IsIdle s
      → ((composite i : Text) → existing composite ≡ some i → owner i ≡ composite)
      → selected s ≡ some p
      → shown_id existing (some p) s.panel ≡ some id
      → owner id ≡ p.composite_id
  unfolding shown_id
  shown_id-list_page s existing p id r held found h =
      elim (Option-cases (existing p.composite_id)) [
        | inl unknown ↦ (Reached-IsOwn r).analyzed_own p id found (rw (shown_id, unknown) at h)
        | inr (i, known) ↦ elim (Bool-cases (is_empty i)) [
          | inl blank ↦ (Reached-IsOwn r).analyzed_own p id found (rw (shown_id, known, blank) at h)
          | inr given ↦
              let same : i ≡ id = some_eq (rw (shown_id, known, given) at h) in
              rw (← same) (held p.composite_id i known)
        ]
      ]

-- ===== src/Assistant/Copilot/Flow/Laws.antt =====
-- Whatever is clicked and whatever comes back, no step of the page is blank, and the persona that
-- the sidebar asks for is there.
use ic_govmind.Base.{
  ltb, ◌&&◌, Outcome-cases, ℕ, zero, suc, ◌<◌, ◌≤◌, ◌≡◌, ◌≢◌, ◌⊎◌, ◌∙◌, sym, ap, refl, Bool, true,
  false, ◌||◌, Option, none, some, List, [], ◌∷◌, length, get_elem?, if◌then◌else◌, is_some,
  Bool-cases, Option-cases, inl, inr, some_eq, Outcome, returns, throws, arith,
}
use ic_govmind.Js.Text.{trim, is_empty}
use ic_govmind.Assistant.Service.{
  use_generate_draft_with_committee, use_generate_draft, use_debate_simulation, Draft,
  EnhancedDraft, ShownPersona,
}
use ic_govmind.Assistant.Copilot.{
  show_enhanced, show_draft, Page, Context, handle_generate_ai_draft, handle_run_debate_simulation,
  show_proposal, handle_use_draft, handle_close_debate_simulation,
}
use ic_govmind.Assistant.Copilot.Flow.{
  begin_generate, begin_debate, begin_proposal, finish_enhanced, finish_draft, finish_debate,
  FlowStep, edits_idea, toggles_suggestion, goes_back, generates, enhanced_came, draft_came,
  uses_draft, edits_proposal, cancels, proposes, proposal_came, debates, debate_came, closes_debate,
  selects_persona, previous_persona, next_persona, FlowReached, opened, moved, blank, review_of,
  step_view, crash, card_at, debate_view,
}

abbrev StepsOk : ℕ → Bool → Option Draft → Type 0
StepsOk step generating draft =
    (1 ≤ step) × (step ≤ 3) × (generating ≡ true → step ≡ 1) × (2 ≤ step → is_some draft ≡ true)

-- The personas that are there have the one that is selected.
abbrev IndexOk : Option (List ShownPersona) → ℕ → Type 0
IndexOk results index = (ps : List ShownPersona) → results ≡ some ps → index < length ps

abbrev IsReady : Page → Type 0
IsReady page =
    StepsOk page.current_step page.is_generating_draft page.generated_draft
    × IndexOk page.debate_results page.selected_persona_index

-- A draft that has come leads to the second step.
second_step : (d : Draft) → StepsOk 2 false (some d)
second_step d = (ground arith, ground arith, (λ h. cc), (λ h. refl))

third_step :
    (d : Draft) (generating : Bool) → (generating ≡ true → ⊥) → StepsOk 3 generating (some d)
third_step d generating idle = (ground arith, ground arith, (λ h. absurd (idle h)), (λ h. refl))

-- And where none has come, the step is what it was.
same_step :
    (step : ℕ) (generating : Bool) (draft : Option Draft)
    → StepsOk step generating draft
    → StepsOk step false draft
same_step step generating draft r = (r.0, r.1, (λ h. cc), r.3)

steps_at :
    (step n : ℕ) (generating : Bool) (draft : Option Draft)
    → StepsOk step generating draft
    → 1 ≤ n
    → n ≤ step
    → StepsOk n generating draft
steps_at step n generating draft r low high =
    (low, ground arith, (λ h. (let first = r.2 h in ground arith)), (λ h. r.3 (ground arith)))

IsReady-generate :
    (page : Page) → IsReady page → page.current_step ≡ 1 → IsReady (begin_generate page)
unfolding begin_generate
IsReady-generate page r first = elim (Bool-cases (is_empty (trim page.copilot_idea))) [
  | inl no_idea ↦ rw no_idea r
  | inr given ↦ rw given ((r.0.0, r.0.1, (λ h. first), (λ h. absurd (ground arith))), r.1)
]

IsReady-use_draft :
    (page : Page) → IsReady page → page.current_step ≡ 2 → IsReady (handle_use_draft page)
unfolding handle_use_draft
IsReady-use_draft page r second = elim (Option-cases page.generated_draft) [
  | inl no_draft ↦
      (let there : is_some page.generated_draft ≡ true = r.0.3 (ground arith) in
        let gone : is_some page.generated_draft ≡ false = ap is_some no_draft in cc)
  | inr (d, given) ↦
      rw given
        (third_step d page.is_generating_draft (λ h. (let first = r.0.2 h in ground arith)), r.1)
]

IsReady-debate : (page : Page) → IsReady page → IsReady (begin_debate page)
unfolding begin_debate
IsReady-debate page r =
    elim (Bool-cases
      (is_empty (trim page.proposal_title) || is_empty (trim page.proposal_content))) [
        | inl missing ↦ rw missing r
        | inr given ↦ rw given (r.0, λ ps h. cc)
      ]

get_elem?_inside :
    {A : Type 0} (xs : List A) (i : ℕ) → i < length xs → is_some (get_elem? xs i) ≡ true
get_elem?_inside [] i h = absurd (ground arith)
get_elem?_inside (x ∷ xs) zero h = refl
get_elem?_inside (x ∷ xs) (suc i) h = get_elem?_inside xs i (ground arith)

card_of_some : (o : Option ShownPersona) → is_some o ≡ true → card_at o ≢ crash
card_of_some none h = cc
card_of_some (some p) h = λ e. cc

debate_view-ready : (page : Page) → IsReady page → debate_view page ≢ crash
unfolding debate_view
debate_view-ready page r = elim (Option-cases page.debate_results) [
  | inl closed ↦ rw closed (λ e. cc)
  | inr (ps, shown) ↦ rw shown (card_of_some _ (get_elem?_inside ps _ (r.1 ps shown)))
]

review_of_some : (o : Option Draft) → is_some o ≡ true → review_of o ≢ blank
review_of_some none h = cc
review_of_some (some d) h = λ e. cc

step_cases : (n : ℕ) → 1 ≤ n → n ≤ 3 → (n ≡ 1) ⊎ ((n ≡ 2) ⊎ (n ≡ 3))
step_cases n low high = ground arith

step_view-ready : (page : Page) → IsReady page → step_view page ≢ blank
unfolding step_view
step_view-ready page r = elim (step_cases page.current_step r.0.0 r.0.1) [
  | inl first ↦ rw first (λ e. cc)
  | inr (inl second) ↦ rw second (review_of_some page.generated_draft (r.0.3 (ground arith)))
  | inr (inr third) ↦ rw third (λ e. cc)
]

module _ {P R : Type 0} (c : Context P R) where
  IsReady-enhanced :
      (page : Page) (m : Outcome EnhancedDraft) → IsReady page → IsReady (finish_enhanced c m page)
  unfolding finish_enhanced
  IsReady-enhanced page (throws t) r = (same_step _ _ _ r.0, r.1)
  IsReady-enhanced page (returns d) r = (second_step d.draft, r.1)

  IsReady-draft : (page : Page) (m : Outcome Draft) → IsReady page → IsReady (finish_draft c m page)
  unfolding finish_draft
  IsReady-draft page (throws t) r = (same_step _ _ _ r.0, r.1)
  IsReady-draft page (returns d) r = (second_step d, r.1)

  IsReady-answer :
      (page : Page) (m : Outcome (List ShownPersona))
      → IsReady page
      → m ≢ returns []
      → IsReady (finish_debate c m page)
  unfolding finish_debate
  IsReady-answer page (throws t) r somebody = r
  IsReady-answer page (returns []) r somebody = absurd (somebody refl)
  IsReady-answer page (returns (q ∷ qs)) r somebody = (
    r.0,
    λ ps h. (let size : suc (length qs) ≡ length ps = ap length (some_eq h) in ground arith),
  )

  IsReady-proposal :
      (page : Page) (m : Outcome ℕ)
      → IsReady page
      → IsReady (show_proposal c c.analyzer.words (some m) page)
  unfolding show_proposal
  IsReady-proposal page (throws t) r = r
  IsReady-proposal page (returns id) r = r

  IsReady-step : {s t : Page} → FlowStep c s t → IsReady s → IsReady t
  unfolding begin_proposal handle_close_debate_simulation
  IsReady-step (edits_idea page t first idle) r = r
  IsReady-step (toggles_suggestion page chosen first several idle) r = r
  IsReady-step (goes_back page n low high) r = (steps_at _ n _ _ r.0 low (ground arith), r.1)
  IsReady-step (generates page first idle) r = IsReady-generate page r first
  IsReady-step (enhanced_came page m busy) r = IsReady-enhanced page m r
  IsReady-step (draft_came page m busy) r = IsReady-draft page m r
  IsReady-step (uses_draft page second) r = IsReady-use_draft page r second
  IsReady-step (edits_proposal page title content committee third idle) r = r
  IsReady-step (cancels page third idle) r =
      (steps_at _ 2 _ _ r.0 (ground arith) (ground arith), r.1)
  IsReady-step (proposes page third idle) r = r
  IsReady-step (proposal_came page m busy) r = IsReady-proposal page m r
  IsReady-step (debates page idle) r = IsReady-debate page r
  IsReady-step (debate_came page m busy somebody) r = IsReady-answer page m r somebody
  IsReady-step (closes_debate page) r = r
  IsReady-step (selects_persona page qs n shown inside) r = (
    r.0,
    λ ps h.
        (let size : length qs ≡ length ps = ap length (some_eq (sym shown ∙ h)) in ground arith),
  )
  IsReady-step (previous_persona page) r = (r.0, λ ps h. (let before = r.1 ps h in ground arith))
  IsReady-step (next_persona page q qs shown) r = (
    r.0,
    λ ps h.
        (let size : suc (length qs) ≡ length ps = ap length (some_eq (sym shown ∙ h)) in
          ground arith),
  )

  Reached-IsReady : {s : Page} → FlowReached c s → IsReady s
  Reached-IsReady opened =
      ((ground arith, ground arith, (λ h. cc), (λ h. absurd (ground arith))), λ ps h. cc)
  Reached-IsReady (moved r step) = IsReady-step step (Reached-IsReady r)

  finish_enhanced_lem :
      (m : Outcome EnhancedDraft) (page : Page)
      → show_enhanced c m (record page { is_generating_draft = false })
        ≡ finish_enhanced c m (record page { is_generating_draft = true })
  unfolding finish_enhanced
  finish_enhanced_lem (throws t) page = refl
  finish_enhanced_lem (returns d) page = refl

  finish_draft_lem :
      (m : Outcome Draft) (page : Page)
      → show_draft c m (record page { is_generating_draft = false })
        ≡ finish_draft c m (record page { is_generating_draft = true })
  unfolding finish_draft
  finish_draft_lem (throws t) page = refl
  finish_draft_lem (returns d) page = refl

  -- Where nothing comes in between, the parts of a handler come to the handler.
  pub handle_generate-in_parts :
      (page : Page)
      → is_empty (trim page.copilot_idea) ≡ false
      → handle_generate_ai_draft c page ≡ (
          if page.use_committee_suggestion && ltb 0 c.committee_count
          then finish_enhanced c
              (use_generate_draft_with_committee c.analyzer
                (trim page.copilot_idea)
                c.dao_canister_id)
              (begin_generate page)
          else finish_draft c
              (use_generate_draft c.analyzer (trim page.copilot_idea))
              (begin_generate page))
  unfolding handle_generate_ai_draft begin_generate
  handle_generate-in_parts page given =
      let cleared = record page {
        draft_error = none;
        generated_draft = none;
        generated_committee_suggestion = none;
      } in
      elim (Bool-cases (page.use_committee_suggestion && ltb 0 c.committee_count)) [
        | inl asked ↦ rw (given, asked) (finish_enhanced_lem _ cleared)
        | inr alone ↦ rw (given, alone) (finish_draft_lem _ cleared)
      ]

  pub handle_run_debate-in_parts :
      (page : Page)
      → (is_empty (trim page.proposal_title) || is_empty (trim page.proposal_content)) ≡ false
      → handle_run_debate_simulation c page
        ≡ finish_debate c
            (use_debate_simulation c.analyzer
              (trim page.proposal_title)
              (trim page.proposal_content))
            (begin_debate page)
  unfolding handle_run_debate_simulation begin_debate finish_debate
  handle_run_debate-in_parts page given =
      elim (Outcome-cases (
        use_debate_simulation c.analyzer (trim page.proposal_title) (trim page.proposal_content))) [
          | inl (ps, came) ↦ rw (given, came) refl
          | inr (t, failed) ↦ rw (given, failed) refl
        ]

  -- Whatever is clicked and whatever comes back, but for a debate of nobody: the step that the page
  -- has come to is never blank, since the second step is met with a draft only, and the sidebar
  -- never asks for a persona that is not there.
  pub Reached-views :
      (page : Page) → FlowReached c page → (step_view page ≢ blank) × (debate_view page ≢ crash)
  Reached-views page r =
      let ready = Reached-IsReady r in (step_view-ready page ready, debate_view-ready page ready)

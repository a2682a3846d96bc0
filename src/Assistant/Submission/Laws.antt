-- ===== src/Assistant/Submission/Laws.antt =====
-- What is awaited is what the form shows, and a submission comes to the same whatever is clicked
-- while it is under way.
use ic_govmind.Base.{
  some_eq, ◌≡◌, ◌∙◌, sym, ap, refl, Bool, true, false, not, ◌&&◌, ◌||◌, Option, none, some, is_some,
  Outcome, returns, throws, Bool-cases, inl, inr,
}
use ic_govmind.Js.Text.{Text, trim, is_empty}
use ic_govmind.Assistant.Service.{Analyzer}
use ic_govmind.Assistant.Analysis.{Modal, after_modal, handle_submit, handle_close}
use ic_govmind.Assistant.Submission.{
  Submission, Board, form_of, Edit, edit_title, edit_description, edit_use_ai, edit_provider,
  edit_form, is_there, is_enabled, may_submit, begin_submit, select_proposal, finish_submit,
  close_panel, PageStep, edits, opens, cancels, selects, closes, unfolds, details, Meanwhile, stays,
  goes_on, submit_form, clicks, begins, answered, BoardReached, at_first, then_step,
}

submit_tests {ℓ} :
    {A : Type ℓ} (is_open blank no_text : Bool) (awaited : Option A)
    → (is_open && not (blank || (no_text || is_some awaited))) ≡ true
    → (is_open ≡ true) × (blank ≡ false) × (no_text ≡ false) × (awaited ≡ none)
submit_tests true false false none h = (refl, refl, refl, refl)
submit_tests true false false (some a) h = cc
submit_tests true false true awaited h = cc
submit_tests true true no_text awaited h = cc
submit_tests false blank no_text awaited h = cc

may_submit_lem :
    (s : Board)
    → may_submit s ≡ true
    → (s.modal.is_open ≡ true)
      × (is_empty (trim s.modal.title) ≡ false)
      × (is_empty (trim s.modal.description) ≡ false)
      × (s.awaited ≡ none)
unfolding may_submit
may_submit_lem s h = submit_tests s.modal.is_open _ _ s.awaited h

not_enabled : (is_open there : Bool) → (is_open && (not true && there)) ≡ false
not_enabled true there = refl
not_enabled false there = refl

not_enabled_waiting :
    (s : Board) (e : Edit) (d : Submission) → s.awaited ≡ some d → is_enabled e s ≡ false
unfolding is_enabled
not_enabled_waiting s e d h =
    ap (λ o. s.modal.is_open && (not (is_some o) && is_there e s)) h
    ∙ not_enabled s.modal.is_open (is_there e s)

closes_nothing :
    (s : Board) (d : Submission)
    → s.awaited ≡ some d
    → handle_close (is_some s.awaited) s.modal ≡ s.modal
unfolding handle_close
closes_nothing s d h = ap (λ o. handle_close (is_some o) s.modal) h

-- The form that is awaited is the one that is shown, in the open modal `m`.
abbrev Waits : Modal → Submission → Board → Type 0
Waits m d s = (s.awaited ≡ some d) × (form_of s ≡ d) × (s.modal ≡ m) × (s.modal.is_open ≡ true)

opened : (m : Modal) → m.is_open ≡ true → (record m { is_open = true }) ≡ m
opened m h i = record m { is_open = sym h i }

Waits-step : {s t : Board} (m : Modal) (d : Submission) → PageStep s t → Waits m d s → Waits m d t
unfolding select_proposal close_panel
Waits-step m d (edits s e enabled) w =
    let disabled : is_enabled e s ≡ false = not_enabled_waiting s e d w.0 in cc
Waits-step m d (opens s) (awaited, form, same, shown) =
    (awaited, form, opened s.modal shown ∙ same, refl)
Waits-step m d (cancels s _) (awaited, form, same, shown) =
    let kept = closes_nothing s d awaited in
    (
      awaited,
      ap (λ x. form_of (record s { modal = x })) kept ∙ form,
      kept ∙ same,
      ap (λ x. x.is_open) kept ∙ shown,
    )
Waits-step m d (selects s id) w = w
Waits-step m d (closes s) w = w
Waits-step m d (unfolds s) w = w
Waits-step m d (details s) w = w

Waits-Meanwhile :
    {s t : Board} (m : Modal) (d : Submission) → Meanwhile s t → Waits m d s → Waits m d t
Waits-Meanwhile m d (stays s) w = w
Waits-Meanwhile m d (goes_on way step) w = Waits-step m d step (Waits-Meanwhile m d way w)

Waits-begin : (s : Board) → may_submit s ≡ true → Waits s.modal (form_of s) (begin_submit s)
unfolding begin_submit
Waits-begin s h = (refl, refl, refl, (may_submit_lem s h).0)

finish-modal : (m : Outcome Text) (s : Board) → (finish_submit m s).modal ≡ after_modal m s.modal
unfolding finish_submit after_modal select_proposal
finish-modal (throws t) s = refl
finish-modal (returns id) s = elim (Bool-cases (is_empty id)) [
  | inl blank ↦ rw blank refl
  | inr given ↦ rw given refl
]

-- What a submission under way has to do with the page.
abbrev pub HasText : Submission → Type 0
HasText d = (is_empty (trim d.title) ≡ false) × (is_empty (trim d.description) ≡ false)

abbrev IsHeld : Board → Type 0
IsHeld s =
    (d : Submission) → s.awaited ≡ some d → (s.modal.is_open ≡ true) × (form_of s ≡ d) × HasText d

awaited-edit : (e : Edit) (s : Board) → (edit_form e s).awaited ≡ s.awaited
unfolding edit_form
awaited-edit (edit_title t) s = refl
awaited-edit (edit_description t) s = refl
awaited-edit (edit_use_ai b) s = refl
awaited-edit (edit_provider t) s = refl

awaited-click : {s t : Board} → PageStep s t → t.awaited ≡ s.awaited
unfolding select_proposal close_panel
awaited-click (edits s e enabled) = awaited-edit e s
awaited-click (opens s) = refl
awaited-click (cancels s shown) = refl
awaited-click (selects s id) = refl
awaited-click (closes s) = refl
awaited-click (unfolds s) = refl
awaited-click (details s) = refl

IsHeld-click : {s t : Board} → PageStep s t → IsHeld s → IsHeld t
IsHeld-click {s} step held d h =
    let awaited = sym (awaited-click step) ∙ h in
    let (shown, form, text) = held d awaited in
    let (_, form', same, shown') = Waits-step s.modal d step (awaited, form, refl, shown) in
    (shown', form', text)

IsHeld-begin : (s : Board) → may_submit s ≡ true → IsHeld (begin_submit s)
unfolding begin_submit
IsHeld-begin s may d h =
    let (shown, title, text, idle) = may_submit_lem s may in
    let same : form_of s ≡ d = some_eq h in (shown, same, rw (← same) (title, text))

awaited-finish : (m : Outcome Text) (s : Board) → (finish_submit m s).awaited ≡ none
unfolding finish_submit select_proposal
awaited-finish (throws t) s = refl
awaited-finish (returns id) s = elim (Bool-cases (is_empty id)) [
  | inl blank ↦ rw blank refl
  | inr given ↦ rw given refl
]

module _ {P R : Type 0} (c : Analyzer P R) where
  handle_submit_lem :
      (s : Board)
      → may_submit s ≡ true
      → handle_submit c false s.modal ≡ after_modal (submit_form c (form_of s)) s.modal
  unfolding handle_submit submit_form
  handle_submit_lem s h =
      let (shown, title, text, idle) = may_submit_lem s h in rw (title, text) refl

  Reached-IsHeld : {s : Board} → BoardReached c s → IsHeld s
  Reached-IsHeld at_first = λ d h. cc
  Reached-IsHeld (then_step r (clicks step)) = IsHeld-click step (Reached-IsHeld r)
  Reached-IsHeld (then_step r (begins s may)) = IsHeld-begin s may
  Reached-IsHeld (then_step r (answered s e awaited)) =
      λ d h. (let gone = awaited-finish (submit_form c e) s in cc)

  -- In every state of the page that clicks, edits and answers lead to: while a submission is under
  -- way, the modal is open, its form shows exactly what has been sent, and neither the title nor
  -- the description of it is blank.
  pub awaited-Reached :
      (s : Board) (d : Submission)
      → BoardReached c s
      → s.awaited ≡ some d
      → (s.modal.is_open ≡ true) × (form_of s ≡ d) × HasText d
  awaited-Reached s d r h = Reached-IsHeld r d h

  -- A submission that has begun and ends after any clicks and edits meanwhile leaves the modal as
  -- the handler does that runs without a break: it is still awaited when it ends, and the form is
  -- cleared or kept alike.
  pub finish-Meanwhile :
      (s t : Board)
      → may_submit s ≡ true
      → Meanwhile (begin_submit s) t
      → (d : Submission) × (t.awaited ≡ some d)
        × ((finish_submit (submit_form c d) t).modal ≡ handle_submit c false s.modal)
  finish-Meanwhile s t may way =
      let (awaited, form, same, shown) =
        Waits-Meanwhile s.modal (form_of s) way (Waits-begin s may) in
      (
        form_of s,
        awaited,
        finish-modal (submit_form c (form_of s)) t
            ∙ ap (after_modal _) same
            ∙ sym (handle_submit_lem s may),
      )

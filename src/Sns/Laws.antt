-- ===== src/Sns/Laws.antt =====
-- Proposals of one canister are told apart by their composite identifiers.
use mathlib.Core.List.{append_cancel_left}
use ic_govmind.Base.{ℕ, ◌≡◌, ◌∙◌, sym, ap}
use ic_govmind.Js.Text.{Text, codes}
use ic_govmind.Js.Decimal.{decimal, value}
use ic_govmind.Js.Decimal.Laws.{value-decimal}
use ic_govmind.Sns.{RawProposal, shown_proposal, composite_id_of}

composite_id_of_injective :
    (canister : Text) (a b : ℕ) → composite_id_of canister a ≡ composite_id_of canister b → a ≡ b
unfolding composite_id_of
composite_id_of_injective canister a b h =
    let same : decimal a ≡ decimal b =
      append_cancel_left (codes "-") _ _ (append_cancel_left canister _ _ h) in
    sym (value-decimal a) ∙ (ap value same ∙ value-decimal b)

-- Two proposals of a canister with the same composite identifier have the same number, where the
-- doubles hold both numbers exactly.
pub composite_id-shown_proposal :
    {N : Type 0} (number : ℕ → ℕ) (millis : ℕ → N) (canister : Text) (p q : RawProposal)
    → number p.id ≡ p.id
    → number q.id ≡ q.id
    → (shown_proposal number millis canister p).composite_id
      ≡ (shown_proposal number millis canister q).composite_id
    → p.id ≡ q.id
unfolding shown_proposal
composite_id-shown_proposal number millis canister p q hp hq h =
    sym hp ∙ (composite_id_of_injective canister (number p.id) (number q.id) h ∙ hq)

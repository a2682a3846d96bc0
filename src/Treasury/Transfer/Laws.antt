-- ===== src/Treasury/Transfer/Laws.antt =====
-- What a transfer out of the treasury can ask for.
use mathlib.Core.Path.{subst}
use ic_govmind.Base.{
  some_eq, ℕ, ◌≡◌, ◌<◌, ◌≤◌, ◌∷◌, error, syntax_error, type_error, range_error, refl, ap, ◌∙◌, Bool,
  true, false, not, ◌||◌, Option, none, some, Outcome, returns, throws, Thrown, >>=-eq-returns,
  Bool-cases, inl, inr, arith, leb, [],
}
use ic_govmind.Js.Text.{Text, is_empty, trim}
use ic_govmind.Units.{to_units}
use ic_govmind.Treasury.Wallet.{Asset, get_receive_address_for_asset}
use ic_govmind.Treasury.Transfer.{
  Dialogs, TransferArg, call_actor, Context, within_balance, checked_amount, source_of,
  transfer_arg, submit_transfer, require, Reply, ok, err, unknown, error_text, submit_asset, send,
  cleared, show_answer, show_error,
}
use ic_govmind.Treasury.Transfer.Origin.{
  injected, thrown, IsOwnSource, chain_name, subaccount_on, source_of_received,
  source_of-IsOwnSource,
}

unasked : {A : Type 0} {x : A} → none ≡ some x → ⊥
unasked h = cc

second : (a : Bool) {b : Bool} → (a || b) ≡ false → b ≡ false
second a h = ground arith

required : (b : Bool) (text : Text) {u : Unit {0}} → require (not b) text ≡ returns u → b ≡ false
required true text h = absurd (thrown h)
required false text h = refl

abbrev pub IsAffordable : Option ℕ → ℕ → Type 0
IsAffordable none n = 0 < n
IsAffordable (some held) n = (0 < n) × (n ≤ held)

within_balance-IsAffordable :
    (o : Option ℕ) (units n : ℕ)
    → 0 < units
    → within_balance o units ≡ returns n
    → (units ≡ n) × IsAffordable o n
unfolding within_balance
within_balance-IsAffordable none units n h e = let same : units ≡ n = cc in (same, omega arith)
within_balance-IsAffordable (some held) units n h e = ground arith

checked_amount-IsAffordable :
    (asset : Asset) (t : Text) (n : ℕ)
    → checked_amount asset t ≡ returns n
    → (to_units t asset.decimals ≡ returns n) × IsAffordable asset.base_units n
unfolding checked_amount
checked_amount-IsAffordable asset t n h =
    let (units, read, rest) = >>=-eq-returns (to_units t asset.decimals) _ h in
    elim (Bool-cases (leb units 0)) [
      | inl none_asked ↦ absurd (thrown (rw none_asked at rest))
      | inr some_asked ↦
          let (same, good) =
            within_balance-IsAffordable asset.base_units units n (ground arith)
              (rw some_asked at rest) in
          (read ∙ ap returns same, good)
    ]

-- What an accepted transfer asks for.
pub record IsSound (c : Context) (asset : Asset) (d : Dialogs) (arg : TransferArg) : Type 0 where
  pub same_token : arg.token_name ≡ asset.token_name
  pub same_chain : chain_name arg.chain_type ≡ asset.chain
  pub same_subaccount : arg.wallet_subaccount ≡ subaccount_on arg.chain_type c.wallets
  pub amount_read : to_units d.transfer_amount asset.decimals ≡ returns arg.amount
  pub affordable : IsAffordable asset.base_units arg.amount
  pub same_address : arg.wallet_address ≡ get_receive_address_for_asset c.wallets (some asset)
  pub address_given : is_empty arg.wallet_address ≡ false
  pub same_recipient : arg.recipient_address ≡ trim d.recipient
  pub recipient_given : is_empty arg.recipient_address ≡ false
  pub no_recipient_subaccount : arg.recipient_subaccount ≡ []

transfer_arg-IsSound :
    (c : Context) (asset : Asset) (d : Dialogs) (arg : TransferArg)
    → transfer_arg c asset d ≡ returns arg
    → IsSound c asset d arg
unfolding transfer_arg IsOwnSource
transfer_arg-IsSound c asset d arg h =
    let (_, agent, h) = >>=-eq-returns (require c.has_agent _) _ h in
    let (_, dao, h) = >>=-eq-returns (require (not (is_empty c.dao_id)) _) _ h in
    let (_, given, h) =
      >>=-eq-returns (require (not (is_empty d.recipient || is_empty (trim d.recipient))) _) _ h in
    let (units, amount, h) = >>=-eq-returns (checked_amount asset d.transfer_amount) _ h in
    let (source, from, h) = >>=-eq-returns (source_of c.wallets asset) _ h in
    let (_, there, h) = >>=-eq-returns (require (not (is_empty source.address)) _) _ h in
    let (read, good) = checked_amount-IsAffordable asset d.transfer_amount units amount in
    let made = injected h in
    let (chain, subaccount) = source_of-IsOwnSource c.wallets asset source from in
    subst (IsSound c asset d) made (record {
      same_token = refl;
      same_chain = chain;
      same_subaccount = subaccount;
      amount_read = read;
      affordable = good;
      same_address = source_of_received c.wallets asset source from;
      address_given = required _ _ there;
      same_recipient = refl;
      no_recipient_subaccount = refl;
      recipient_given = second _ (required _ _ given);
    })

call_actor-some :
    (c : Context) (m : Outcome (TransferArg → Outcome Reply)) (made : TransferArg) (d : Dialogs)
    (arg : TransferArg)
    → (call_actor c m made d).1 ≡ some arg
    → made ≡ arg
unfolding call_actor
call_actor-some c (throws e) made d arg h = absurd (unasked h)
call_actor-some c (returns actor) made d arg h = some_eq h

send-some :
    (c : Context) (m : Outcome TransferArg) (d : Dialogs) (arg : TransferArg)
    → (send c m d).1 ≡ some arg
    → m ≡ returns arg
unfolding send
send-some c (throws e) d arg h = cc
send-some c (returns made) d arg h =
    ap returns (call_actor-some c (c.create_backend_actor c.dao_id) made d arg h)

submit_asset-IsSound :
    (c : Context) (o : Option Asset) (d : Dialogs) (arg : TransferArg)
    → (submit_asset c o d).1 ≡ some arg
    → (asset : Asset) × (o ≡ some asset) × IsSound c asset d arg
unfolding submit_asset
submit_asset-IsSound c none d arg h = absurd (unasked h)
submit_asset-IsSound c (some asset) d arg h = (
  asset,
  refl,
  transfer_arg-IsSound c asset d arg (send-some c (transfer_arg c asset d) (cleared d) arg h),
)

-- Every call that a submission makes is for the asset that is selected: it has its token's name, its
-- chain and the subaccount of the wallet there, and is paid from the address at which the asset is
-- received, which is not empty. It asks for the amount that was typed, more than 0 and at most the
-- balance where this is known, and goes to the recipient that was typed, trimmed and not empty.
pub submit_transfer-IsSound :
    (c : Context) (d : Dialogs) (arg : TransferArg)
    → (submit_transfer c d).1 ≡ some arg
    → (asset : Asset) × (d.selected_asset ≡ some asset) × IsSound c asset d arg
unfolding submit_transfer
submit_transfer-IsSound c d arg h = submit_asset-IsSound c d.selected_asset d arg h

-- One message is shown and the other is empty.
abbrev pub ShowsOne : Dialogs → Type 0
ShowsOne d = is_empty d.transfer_error ≡ not (is_empty d.transfer_success)

error_text_given :
    (words : Thrown → Text) (e : Thrown)
    → ((t : Thrown) → is_empty (words t) ≡ false)
    → is_empty (error_text words e) ≡ false
error_text_given words (error []) h = refl
error_text_given words (error (x ∷ m)) h = refl
error_text_given words (syntax_error m) h = h (syntax_error m)
error_text_given words (type_error m) h = h (type_error m)
error_text_given words (range_error m) h = h (range_error m)

show_answer-ShowsOne :
    (c : Context) (answer : Outcome Reply) (d : Dialogs)
    → ((t : Thrown) → is_empty (c.words t) ≡ false)
    → ShowsOne (show_answer c answer (cleared d))
unfolding show_answer cleared
show_answer-ShowsOne c (throws e) d h = error_text_given c.words e h
show_answer-ShowsOne c (returns (ok id)) d h = refl
show_answer-ShowsOne c (returns (err [])) d h = refl
show_answer-ShowsOne c (returns (err (x ∷ t))) d h = refl
show_answer-ShowsOne c (returns unknown) d h = refl

call_actor-ShowsOne :
    (c : Context) (m : Outcome (TransferArg → Outcome Reply)) (arg : TransferArg) (d : Dialogs)
    → ((t : Thrown) → is_empty (c.words t) ≡ false)
    → ShowsOne (call_actor c m arg (cleared d)).0
unfolding call_actor cleared show_error
call_actor-ShowsOne c (throws e) arg d h = error_text_given c.words e h
call_actor-ShowsOne c (returns actor) arg d h = show_answer-ShowsOne c (actor arg) d h

send-ShowsOne :
    (c : Context) (m : Outcome TransferArg) (d : Dialogs)
    → ((t : Thrown) → is_empty (c.words t) ≡ false)
    → ShowsOne (send c m (cleared d)).0
unfolding send cleared show_error
send-ShowsOne c (throws e) d h = error_text_given c.words e h
send-ShowsOne c (returns arg) d h = call_actor-ShowsOne c (c.create_backend_actor c.dao_id) arg d h

submit_asset-ShowsOne :
    (c : Context) (o : Option Asset) (d : Dialogs) (asset : Asset)
    → o ≡ some asset
    → ((t : Thrown) → is_empty (c.words t) ≡ false)
    → ShowsOne (submit_asset c o d).0
unfolding submit_asset
submit_asset-ShowsOne c none d asset selected h = absurd (unasked selected)
submit_asset-ShowsOne c (some a) d asset selected h = send-ShowsOne c (transfer_arg c a d) d h

-- Whatever a submission comes to, it ends with one message: of success or of an error, never both
-- and never none, where an asset is selected and no error is without words.
pub submit_transfer-ShowsOne :
    (c : Context) (d : Dialogs) (asset : Asset)
    → d.selected_asset ≡ some asset
    → ((t : Thrown) → is_empty (c.words t) ≡ false)
    → ShowsOne (submit_transfer c d).0
unfolding submit_transfer
submit_transfer-ShowsOne c d asset selected h =
    submit_asset-ShowsOne c d.selected_asset d asset selected h

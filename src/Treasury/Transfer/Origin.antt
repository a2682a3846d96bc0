-- ===== src/Treasury/Transfer/Origin.antt =====
-- `submitTransfer` of src/ic_govmind_frontend/src/components/tabs/TreasuryTab.jsx: the chain, the
-- address and the subaccount that an asset is sent from.
use mathlib.Core.Path.{subst}
use ic_govmind.Base.{
  List, ℕ, ◌≡◌, refl, sym, ap, Option, some, returns, throws, Thrown, >>=-eq-returns, Option-cases,
  Bool-cases, inl, inr, [],
}
use ic_govmind.Js.Text.{Text, codes, text_eq}
use ic_govmind.Js.Text.Laws.{eq_of_text_eq}
use ic_govmind.Treasury.Wallet.{Asset, Wallets, owner_of, get_receive_address_for_asset}
use ic_govmind.Treasury.Transfer.{
  Chain, internet_computer, bitcoin, ethereum, subaccount_of, source_of, Source,
}

pub injected : {A : Type 0} {x y : A} → returns x ≡ returns y → x ≡ y
injected h = cc

pub thrown : {A : Type 0} {t : Thrown} {x : A} → throws t ≡ returns x → ⊥
thrown h = cc

-- The words that an asset has for a chain.
abbrev pub chain_name : Chain → Text
chain_name internet_computer = codes "Internet Computer"
chain_name bitcoin = codes "Bitcoin"
chain_name ethereum = codes "Ethereum"

-- Only the wallet on the Internet Computer has a subaccount.
abbrev pub subaccount_on : Chain → Option Wallets → List (List ℕ)
subaccount_on internet_computer w = subaccount_of w
subaccount_on bitcoin w = []
subaccount_on ethereum w = []

-- Where an asset is sent from is its own chain, with the subaccount of the wallet there.
unfoldable pub IsOwnSource : Option Wallets → Asset → Source → Type 0
IsOwnSource w asset s =
    (chain_name s.chain_type ≡ asset.chain) × (s.subaccount ≡ subaccount_on s.chain_type w)

pub source_of-IsOwnSource :
    (w : Option Wallets) (asset : Asset) (s : Source)
    → source_of w asset ≡ returns s
    → IsOwnSource w asset s
unfolding source_of IsOwnSource
source_of-IsOwnSource w asset s h =
    elim (Bool-cases (text_eq asset.chain (codes "Internet Computer"))) [
      | inl icp ↦
          let named = sym (eq_of_text_eq asset.chain _ icp) in
          elim (Option-cases (owner_of w)) [
            | inl nobody ↦
                let made = injected (rw (icp, nobody) at h) in
                subst (IsOwnSource w asset) made (named, refl)
            | inr (text, owner) ↦
                let (address, shown, rest) = >>=-eq-returns text _ (rw (icp, owner) at h) in
                subst (IsOwnSource w asset) (injected rest) (named, refl)
          ]
      | inr other ↦ elim (Bool-cases (text_eq asset.chain (codes "Bitcoin"))) [
        | inl btc ↦
            subst (IsOwnSource w asset) (injected (rw (other, btc) at h))
              (sym (eq_of_text_eq asset.chain _ btc), refl)
        | inr third ↦ elim (Bool-cases (text_eq asset.chain (codes "Ethereum"))) [
          | inl eth ↦
              subst (IsOwnSource w asset) (injected (rw (other, third, eth) at h))
                (sym (eq_of_text_eq asset.chain _ eth), refl)
          | inr none_of_them ↦ absurd (thrown (rw (other, third, none_of_them) at h))
        ]
      ]
    ]

pub source_of_received :
    (w : Option Wallets) (asset : Asset) (s : Source)
    → source_of w asset ≡ returns s
    → s.address ≡ get_receive_address_for_asset w (some asset)
unfolding source_of get_receive_address_for_asset
source_of_received w asset s h =
    elim (Bool-cases (text_eq asset.chain (codes "Internet Computer"))) [
      | inl icp ↦ elim (Option-cases (owner_of w)) [
        | inl nobody ↦
            rw (icp, nobody) (sym (ap (λ r. r.address) (injected (rw (icp, nobody) at h))))
        | inr (text, owner) ↦
            let (address, shown, rest) = >>=-eq-returns text _ (rw (icp, owner) at h) in
            rw (icp, owner, shown) (sym (ap (λ r. r.address) (injected rest)))
      ]
      | inr other ↦ elim (Bool-cases (text_eq asset.chain (codes "Bitcoin"))) [
        | inl btc ↦ rw (other, btc) (sym (ap (λ r. r.address) (injected (rw (other, btc) at h))))
        | inr third ↦ elim (Bool-cases (text_eq asset.chain (codes "Ethereum"))) [
          | inl eth ↦
              rw (other, third, eth)
                (sym (ap (λ r. r.address) (injected (rw (other, third, eth) at h))))
          | inr none_of_them ↦ absurd (thrown (rw (other, third, none_of_them) at h))
        ]
      ]
    ]

-- ===== src/Sns/Dashboard/Reached.antt =====
-- Which pages the dashboard's buttons lead to, and what stands on each.
use ic_govmind.Base.{
  ℕ, zero, suc, ◌+◌, ◌-◌, ◌*◌, ◌/◌, ◌≤◌, ◌<◌, ◌^◌, max, ◌≡◌, ◌∙◌, ◌↔◌, refl, sym, ap, true, List,
  [], ◌∷◌, length, take, drop, ltb, Bool-cases, inl, inr, if◌then◌else◌, arith, length-map,
  length-take, length-drop,
}
use ic_govmind.Js.Text.{Text}
use ic_govmind.Sns.{RawCanister, ShownCanister, shown_canister}
use ic_govmind.Sns.Registry.{PaginationInfo}
use ic_govmind.Sns.Registry.Laws.{length-sort_canisters}
use ic_govmind.Sns.Dashboard.{Fetched, SnsView, sns_view, click_next, click_previous}
use ic_govmind.Sns.Dashboard.Browsing.{load, load_page, page_at, sorted, Reached}

module _ {N : Type 0} where
  abbrev loaded_view : ℕ → List (ShownCanister N) → PaginationInfo → SnsView N
  loaded_view p cs info =
      sns_view p (Fetched.loaded (record { canisters = cs; pagination_info = info }))

  click_next_of_loaded :
      (p : ℕ) (cs : List (ShownCanister N)) (info : PaginationInfo)
      → (info.has_next_page ≡ true → 0 < length cs)
      → click_next (loaded_view p cs info) p ≡ (if info.has_next_page then p + 1 else p)
  unfolding sns_view click_next
  click_next_of_loaded p [] info full = elim (Bool-cases info.has_next_page) [
    | inl more ↦ absurd (omega (arith, full more))
    | inr none ↦ rw none refl
  ]
  click_next_of_loaded p (c ∷ cs) info full = refl

  click_previous_of_loaded :
      (p : ℕ) (cs : List (ShownCanister N)) (info : PaginationInfo)
      → (info.has_prev_page ≡ true → 0 < length cs)
      → click_previous (loaded_view p cs info) p ≡ (if info.has_prev_page then max 1 (p - 1) else p)
  unfolding sns_view click_previous
  click_previous_of_loaded p [] info full = elim (Bool-cases info.has_prev_page) [
    | inl more ↦ absurd (omega (arith, full more))
    | inr none ↦ rw none refl
  ]
  click_previous_of_loaded p (c ∷ cs) info full = refl

module _ {N : Type 0} (lowered : Text → List ℕ) (millis : ℕ → N) (stored : List RawCanister)
    (room : length stored + 18 ≤ 2 ^ 32) where
  abbrev view : ℕ → SnsView N
  view p = sns_view p (load lowered millis stored p)

  length-page_at :
      (k : ℕ) → k * 9 < length stored → 0 < length (page_at lowered millis stored k).canisters
  length-page_at k inside = omega (
    arith,
    length-map (take 9 (drop (k * 9) (sorted lowered millis stored))) (shown_canister millis),
    length-take 9 (drop (k * 9) (sorted lowered millis stored)),
    length-drop (k * 9) (sorted lowered millis stored),
    length-sort_canisters lowered stored,
  )

  pub click_next_lem :
      (k : ℕ)
      → k * 9 ≤ length stored
      → click_next (view (k + 1)) (k + 1)
        ≡ (if ltb (k * 9 + 9) (length stored) then k + 2 else k + 1)
  click_next_lem k inside = rw (load_page lowered millis stored k room inside) (
      click_next_of_loaded (k + 1) _ _ (λ more. length-page_at k (ground arith))
      ∙ ap (λ q. if ltb (k * 9 + 9) (length stored) then q else k + 1) (omega arith))

  pub click_previous_lem :
      (k : ℕ)
      → k * 9 ≤ length stored
      → (0 < k → k * 9 < length stored)
      → click_previous (view (k + 1)) (k + 1) ≡ max 1 k
  click_previous_lem k inside full = rw (load_page lowered millis stored k room inside) (
      click_previous_of_loaded (k + 1) _ _ (λ more. length-page_at k (full (ground arith)))
      ∙ ground arith)

  abbrev IsPage : ℕ → Type 0
  IsPage p = (k : ℕ) × (p ≡ k + 1) × (k * 9 ≤ length stored) × (0 < k → k * 9 < length stored)

  IsPage-next : (p q : ℕ) → IsPage p → q ≡ click_next (view p) p → IsPage q
  IsPage-next p q (k, e, inside, full) h =
      let landed : q ≡ (if ltb (k * 9 + 9) (length stored) then k + 2 else k + 1) =
        h ∙ rw e (click_next_lem k inside) in
      elim (Bool-cases (ltb (k * 9 + 9) (length stored))) [
        | inl more ↦ (k + 1, rw more at landed ∙ omega arith, ground arith, λ pos. ground arith)
        | inr none ↦ (k, rw none at landed, inside, full)
      ]

  IsPage-previous : (p q : ℕ) → IsPage p → q ≡ click_previous (view p) p → IsPage q
  IsPage-previous p q (k, e, inside, full) h =
      let landed : q ≡ max 1 k = h ∙ rw e (click_previous_lem k inside full) in
      (k - 1, omega arith, omega arith, λ pos. omega arith)

  Reached-IsPage : {p : ℕ} → Reached lowered millis stored p → IsPage p
  Reached-IsPage Reached.opened = (0, omega arith, omega arith, λ pos. omega arith)
  Reached-IsPage (Reached.next r h) = IsPage-next _ _ (Reached-IsPage r) h
  Reached-IsPage (Reached.previous r h) = IsPage-previous _ _ (Reached-IsPage r) h

  reaches : (k : ℕ) → (0 < k → k * 9 < length stored) → Reached lowered millis stored (k + 1)
  reaches zero h = rw (let e : zero + 1 ≡ 1 = omega arith in e) Reached.opened
  reaches (suc k) h =
      let inside : suc k * 9 < length stored = h (omega arith) in
      let more : ltb (k * 9 + 9) (length stored) ≡ true = ground arith in
      Reached.next (reaches k (λ pos. omega arith)) (
        let e : suc k + 1 ≡ k + 2 = omega arith in
        e ∙ sym (click_next_lem k (omega arith) ∙ rw more))

  -- The pages that the buttons lead to from the first are exactly those from 1 to the number of
  -- pages of nine, and the first alone where the canister stores nothing.
  pub Reached-iff :
      (p : ℕ) → Reached lowered millis stored p ↔ ((1 ≤ p) × (p ≤ max 1 ((length stored + 8) / 9)))
  Reached-iff p = (
    (λ r. let (k, e, inside, full) = Reached-IsPage r in bounded k e inside full),
    (λ h.
        let e : p - 1 + 1 ≡ p = omega (arith, h.0) in
        rw (← e) (reaches (p - 1) (λ pos. omega (arith, h.0, h.1)))),
  )
    where
      bounded :
          (k : ℕ)
          → p ≡ k + 1
          → k * 9 ≤ length stored
          → (0 < k → k * 9 < length stored)
          → (1 ≤ p) × (p ≤ max 1 ((length stored + 8) / 9))
      bounded zero e inside full = omega arith
      bounded (suc k) e inside full = omega (arith, full (omega arith))

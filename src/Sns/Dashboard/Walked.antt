-- ===== src/Sns/Dashboard/Walked.antt =====
-- What a user sees who goes through the dashboard's list from the first page to the last.
use mathlib.Core.List.{Perm, map-append}
use ic_govmind.Base.{
  ℕ, zero, suc, ◌+◌, ◌*◌, ◌≤◌, ◌^◌, ◌≡◌, ◌∙◌, refl, sym, ap, false, List, [], ◌∷◌, ◌++◌, map,
  length, take, drop, ltb, Bool-cases, inl, inr, arith, take-append-drop, length-drop, take_whole,
}
use ic_govmind.Js.Text.{Text}
use ic_govmind.Sns.{RawCanister, ShownCanister, shown_canister}
use ic_govmind.Sns.Registry.{sort_canisters}
use ic_govmind.Sns.Registry.Laws.{
  IsSorted, length-sort_canisters, sort_canisters-perm, sort_canisters-IsSorted,
}
use ic_govmind.Sns.Dashboard.{has_next_page}
use ic_govmind.Sns.Dashboard.Browsing.{load, load_page, Browses}
use ic_govmind.Sns.Dashboard.Reached.{click_next_lem}

drop-drop {ℓ} : {A : Type ℓ} (m n : ℕ) (xs : List A) → drop n (drop m xs) ≡ drop (m + n) xs
drop-drop zero n xs = rw (let e : zero + n ≡ n = omega arith in e) refl
drop-drop (suc m) zero [] = rw (let e : suc m + zero ≡ suc m = omega arith in e) refl
drop-drop (suc m) (suc n) [] = rw (let e : suc m + suc n ≡ suc (m + suc n) = omega arith in e) refl
drop-drop (suc m) n (x ∷ xs) =
    rw (let e : suc m + n ≡ suc (m + n) = omega arith in e) (drop-drop m n xs)

module _ {N : Type 0} (lowered : Text → List ℕ) (millis : ℕ → N) (stored : List RawCanister)
    (room : length stored + 18 ≤ 2 ^ 32) where
  abbrev names : List RawCanister
  names = sort_canisters lowered stored

  abbrev rest_from : ℕ → List (ShownCanister N)
  rest_from k = map (shown_canister millis) (drop (k * 9) names)

  has_next-load :
      (k : ℕ)
      → k * 9 ≤ length stored
      → has_next_page (load lowered millis stored (k + 1)) ≡ ltb (k * 9 + 9) (length stored)
  unfolding has_next_page
  has_next-load k inside = rw (load_page lowered millis stored k room inside)

  page-append-rest :
      (k : ℕ)
      → rest_from k ≡ map (shown_canister millis) (take 9 (drop (k * 9) names)) ++ rest_from (k + 1)
  page-append-rest k =
      let e : (k + 1) * 9 ≡ k * 9 + 9 = omega arith in
      rw (e, ← drop-drop (k * 9) 9 names)
        (ap (map (shown_canister millis)) (sym (take-append-drop 9 (drop (k * 9) names)))
          ∙ map-append (shown_canister millis) (take 9 (drop (k * 9) names))
              (drop 9 (drop (k * 9) names)))

  last_page :
      (k : ℕ)
      → k * 9 ≤ length stored
      → ltb (k * 9 + 9) (length stored) ≡ false
      → Browses lowered millis stored (k + 1) (rest_from k)
  last_page k inside done =
      let few : length stored ≤ k * 9 + 9 = ground arith in
      Browses.last (load_page lowered millis stored k room inside) (has_next-load k inside ∙ done) (
        ap (map (shown_canister millis)) (
          sym (
            take_whole 9 (drop (k * 9) names)
              (omega (arith, length-drop (k * 9) names, length-sort_canisters lowered stored)))))

  Browses-from :
      (rounds k : ℕ)
      → k * 9 ≤ length stored
      → length stored ≤ k * 9 + rounds * 9
      → Browses lowered millis stored (k + 1) (rest_from k)
  Browses-from zero k inside enough = last_page k inside (ground arith)
  Browses-from (suc rounds) k inside enough = elim (Bool-cases (ltb (k * 9 + 9) (length stored))) [
    | inl further ↦
        let on : (k + 1) * 9 ≤ length stored = ground arith in
        let e : k + 1 + 1 ≡ k + 2 = omega arith in
        Browses.more (load_page lowered millis stored k room inside)
          (has_next-load k inside ∙ further)
          (rw (click_next_lem lowered millis stored room k inside, further, ← e)
            (Browses-from rounds (k + 1) on (omega arith)))
          (page-append-rest k)
    | inr done ↦ last_page k inside done
  ]

  -- Whoever opens the dashboard and clicks Next until no page follows has seen every DAO that the
  -- canister stores, in the order of their names and each as often as it is stored; and there is
  -- such a way through the pages.
  pub browse_all :
      Browses lowered millis stored 1 (map (shown_canister millis) names)
      × IsSorted lowered names
      × Perm names stored
  browse_all = (
    Browses-from (length stored) 0 (omega arith) (omega arith),
    sort_canisters-IsSorted lowered stored,
    sort_canisters-perm lowered stored,
  )

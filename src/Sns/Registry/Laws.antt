-- ===== src/Sns/Registry/Laws.antt =====
-- The canister's list is its store, sorted by name.
use mathlib.Core.List.{Perm}
use mathlib.Core.List.Perm
use ic_govmind.Base.{
  ℕ, suc, ◌≡◌, refl, ap, List, [], ◌∷◌, length, inl, inr, true, false, Bool-cases, arith,
}
use ic_govmind.Js.Text.{Text, le_text}
use ic_govmind.Sns.{RawCanister}
use ic_govmind.Sns.Registry.{insert_canister, sort_canisters}

module _ (lowered : Text → List ℕ) where
  insert_canister-perm :
      (c : RawCanister) (ds : List RawCanister) → Perm (insert_canister lowered c ds) (c ∷ ds)
  unfolding insert_canister
  insert_canister-perm c [] = Perm.refl (c ∷ [])
  insert_canister-perm c (d ∷ ds) = elim (Bool-cases (le_text (lowered c.name) (lowered d.name))) [
    | inl first ↦ rw first (Perm.refl (c ∷ d ∷ ds))
    | inr later ↦ rw later (Perm.trans (Perm.cons d (insert_canister-perm c ds)) (Perm.swap c d ds))
  ]

  -- The sorted list has the stored entries, each as often.
  pub sort_canisters-perm :
      (stored : List RawCanister) → Perm (sort_canisters lowered stored) stored
  unfolding sort_canisters
  sort_canisters-perm [] = Perm.refl []
  sort_canisters-perm (c ∷ cs) =
      Perm.trans (insert_canister-perm c (sort_canisters lowered cs))
        (Perm.cons c (sort_canisters-perm cs))

  length-insert_canister :
      (c : RawCanister) (ds : List RawCanister)
      → length (insert_canister lowered c ds) ≡ suc (length ds)
  unfolding insert_canister
  length-insert_canister c [] = refl
  length-insert_canister c (d ∷ ds) =
      elim (Bool-cases (le_text (lowered c.name) (lowered d.name))) [
        | inl first ↦ rw first refl
        | inr later ↦ rw later (ap suc (length-insert_canister c ds))
      ]

  pub length-sort_canisters :
      (stored : List RawCanister) → length (sort_canisters lowered stored) ≡ length stored
  unfolding sort_canisters
  length-sort_canisters [] = refl
  length-sort_canisters (c ∷ cs) =
      omega (arith, length-insert_canister c (sort_canisters lowered cs), length-sort_canisters cs)

  -- Each name comes after those before it.
  abbrev pub IsAfter : List ℕ → List RawCanister → Type 0
  IsAfter name [] = Unit
  IsAfter name (c ∷ cs) = le_text name (lowered c.name) ≡ true

  abbrev pub IsSorted : List RawCanister → Type 0
  IsSorted [] = Unit
  IsSorted (c ∷ cs) = IsAfter (lowered c.name) cs × IsSorted cs

  le_text_total : (a b : List ℕ) → le_text a b ≡ false → le_text b a ≡ true
  unfolding le_text
  le_text_total [] b h = cc
  le_text_total (a ∷ as') [] h = refl
  le_text_total (a ∷ as') (b ∷ bs) h = ground (arith, le_text_total as' bs)

  IsAfter-insert_canister :
      (name : List ℕ) (c : RawCanister) (ds : List RawCanister)
      → le_text name (lowered c.name) ≡ true
      → IsAfter name ds
      → IsAfter name (insert_canister lowered c ds)
  unfolding insert_canister
  IsAfter-insert_canister name c [] h k = h
  IsAfter-insert_canister name c (d ∷ ds) h k =
      elim (Bool-cases (le_text (lowered c.name) (lowered d.name))) [
        | inl first ↦ rw first h
        | inr later ↦ rw later k
      ]

  insert_canister-IsSorted :
      (c : RawCanister) (ds : List RawCanister)
      → IsSorted ds
      → IsSorted (insert_canister lowered c ds)
  unfolding insert_canister
  insert_canister-IsSorted c [] h = (tt, tt)
  insert_canister-IsSorted c (d ∷ ds) h =
      elim (Bool-cases (le_text (lowered c.name) (lowered d.name))) [
        | inl first ↦ rw first (first, h)
        | inr later ↦ rw later (
          IsAfter-insert_canister (lowered d.name) c ds
              (le_text_total (lowered c.name) (lowered d.name) later) h.0,
          insert_canister-IsSorted c ds h.1,
        )
      ]

  pub sort_canisters-IsSorted :
      (stored : List RawCanister) → IsSorted (sort_canisters lowered stored)
  unfolding sort_canisters
  sort_canisters-IsSorted [] = tt
  sort_canisters-IsSorted (c ∷ cs) =
      insert_canister-IsSorted c (sort_canisters lowered cs) (sort_canisters-IsSorted cs)

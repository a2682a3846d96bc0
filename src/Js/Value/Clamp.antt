-- ===== src/Js/Value/Clamp.antt =====
-- `Math.min`, `Math.max` and the range that they cut out. NaN passes through both.
use ic_govmind.Base.{ℕ, ◌≡◌, true, false, if◌then◌else◌, arith}
use ic_govmind.Js.Value.{Engine}

module _ {N : Type 0} ⦃e : Engine N⦄ where
  -- `Math.min(Number(k), n)` and `Math.max(Number(k), n)`.
  unfoldable pub min_of : ℕ → N → N
  min_of k n = if e.is_nan n then n else if e.lt n (e.of_nat k) then n else e.of_nat k

  unfoldable pub max_of : ℕ → N → N
  max_of k n = if e.is_nan n then n else if e.lt (e.of_nat k) n then n else e.of_nat k

  -- `Math.max(1, Math.min(10, n))`.
  unfoldable pub clamp : N → N
  unfolding min_of max_of
  clamp n = max_of 1 (min_of 10 n)

  abbrev pub InRange : N → Type 0
  InRange n = (e.lt n (e.of_nat 1) ≡ false) × (e.lt (e.of_nat 10) n ≡ false)

  pub clamp-InRange :
      (n : N) → e.is_nan n ≡ false → InRange (clamp n) × (e.is_nan (clamp n) ≡ false)
  unfolding clamp
  clamp-InRange n real = ground (
    arith,
    e.lt-of_nat 1 10,
    e.lt-of_nat 10 1,
    e.lt-of_nat 1 1,
    e.lt-of_nat 10 10,
    e.is_nan-of_nat 1,
    e.is_nan-of_nat 10,
    e.lt_asymm (e.of_nat 1) n,
    e.lt_asymm n (e.of_nat 10),
  )

  pub clamp_of_nan : (n : N) → e.is_nan n ≡ true → clamp n ≡ n
  unfolding clamp
  clamp_of_nan n h = ground arith

-- ===== src/Treasury/Doubles.antt =====
-- What the treasury's page does with doubles: a parameter, whose laws are those of IEEE 754.
use ic_govmind.Base.{ℕ, ◌≡◌, Bool, true, false, if◌then◌else◌}
use ic_govmind.Js.Text.{Text}

-- `of_nat` is a literal, `gt` is `>` and `le` is `<=`: both are false where a side is NaN.
pub record Doubles (N : Type 0) : Type 0 where
  pub of_nat : ℕ → N
  pub number_of_text : Text → N
  pub infinity : N
  pub add : N → N → N
  pub mul : N → N → N
  pub div : N → N → N
  pub gt : N → N → Bool
  pub le : N → N → Bool

module _ {N : Type 0} ⦃d : Doubles N⦄ where
  infix 4 ◌≼◌
  abbrev pub ◌≼◌ : N → N → Type 0
  x ≼ y = d.le x y ≡ true

  abbrev pub IsFinite : N → Type 0
  IsFinite x = d.gt d.infinity x ≡ true

  -- `x || 0`: NaN and the zeros become 0.
  abbrev pub or_nought : N → N
  or_nought x = if d.gt x (d.of_nat 0) then x else if d.gt (d.of_nat 0) x then x else d.of_nat 0

  -- `Math.max(a, b)` and `Math.min(a, b)`, where neither is NaN.
  abbrev pub max_of : N → N → N
  max_of a b = if d.gt b a then b else a

  abbrev pub min_of : N → N → N
  min_of a b = if d.gt a b then b else a

-- Rounding is monotone, so sums, products and quotients keep these orders.
pub record IsRounded (N : Type 0) ⦃d : Doubles N⦄ : Type 0 where
  pub nought_refl : d.of_nat 0 ≼ d.of_nat 0
  pub refl_of_le : (x y : N) → x ≼ y → y ≼ y
  pub le_trans : (x y z : N) → x ≼ y → y ≼ z → x ≼ z
  pub not_gt_of_le : (x y : N) → x ≼ y → d.gt x y ≡ false
  pub gt_of_not_le : (x y : N) → y ≼ x → d.le x y ≡ false → d.gt x y ≡ true
  pub nought_le_hundred : d.of_nat 0 ≼ d.of_nat 100
  pub hundred_gt_nought : d.gt (d.of_nat 100) (d.of_nat 0) ≡ true
  pub hundred_of_not_gt :
      (x : N) → x ≼ d.of_nat 100 → d.gt (d.of_nat 100) x ≡ false → x ≡ d.of_nat 100
  pub le-add : (x y : N) → d.of_nat 0 ≼ x → d.of_nat 0 ≼ y → (x ≼ d.add x y) × (y ≼ d.add x y)
  pub mul_nonneg :
      (x y : N) → IsFinite x → IsFinite y → d.of_nat 0 ≼ x → d.of_nat 0 ≼ y → d.of_nat 0 ≼ d.mul x y
  pub div-le :
      (x y : N)
      → d.of_nat 0 ≼ x
      → x ≼ y
      → d.gt y (d.of_nat 0) ≡ true
      → IsFinite y
      → (d.of_nat 0 ≼ d.div x y) × (d.div x y ≼ d.of_nat 1)
  pub mul_hundred :
      (x : N)
      → d.of_nat 0 ≼ x
      → x ≼ d.of_nat 1
      → (d.of_nat 0 ≼ d.mul x (d.of_nat 100)) × (d.mul x (d.of_nat 100) ≼ d.of_nat 100)

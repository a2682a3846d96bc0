-- ===== src/Treasury/Whole.antt =====
-- Whole numbers in place of doubles, which have the laws that are asked of doubles: concrete runs of
-- what computes with doubles in src/ic_govmind_frontend/src stand on them.
use native.Mathlib.Nat.{div-lt_iff_lt-mul}
use ic_govmind.Base.{ℕ, ◌+◌, ◌*◌, ◌^◌, ◌<◌, ◌≡◌, refl, true, ◌/◌, ltb, leb, arith}
use ic_govmind.Js.Text.{only_digits}
use ic_govmind.Js.Decimal.{value}
use ic_govmind.Treasury.Doubles.{Doubles, IsRounded}

instance abbrev pub whole : Doubles ℕ
whole = record {
  of_nat = λ n. n;
  number_of_text = λ t. value (only_digits t);
  infinity = 10 ^ 30;
  add = λ a b. a + b;
  mul = λ a b. a * b;
  div = λ a b. a / b;
  gt = λ a b. ltb b a;
  le = leb;
}

div-le_one : (x y : ℕ) → leb x y ≡ true → ltb 0 y ≡ true → leb (x / y) 1 ≡ true
div-le_one x y h k =
    let small : x < 2 * y = ground arith in
    let below : x / y < 2 = (div-lt_iff_lt-mul {k = y} {x = x} {y = 2} (ground arith)).1 small in
    ground arith

pub whole-IsRounded : IsRounded ℕ
whole-IsRounded = record {
  nought_refl = refl;
  refl_of_le = λ x y h. ground arith;
  le_trans = λ x y z h k. ground arith;
  not_gt_of_le = λ x y h. ground arith;
  gt_of_not_le = λ x y h k. ground arith;
  nought_le_hundred = refl;
  hundred_gt_nought = refl;
  hundred_of_not_gt = λ x h k. ground arith;
  le-add = λ x y h k. (ground arith, ground arith);
  mul_nonneg = λ x y f g h k. ground arith;
  div-le = λ x y h k pos fin. (ground arith, div-le_one x y k pos);
  mul_hundred = λ x h k. (ground arith, ground arith);
}

-- ===== src/Units/RoundTrip.antt =====
-- Printing an amount and reading it back.
use native.Mathlib.Nat.{
  mul_assoc, div-add-mod', add-mul-div_right, mod-lt, sub-zero, pow-zero, one-le-pow, pow-suc,
}
use ic_govmind.Base.{
  ℕ, zero, suc, ◌+◌, ◌-◌, ◌*◌, ◌/◌, ◌%◌, ◌^◌, ◌≤◌, ◌<◌, min, ◌≡◌, ◌≢◌, refl, ap, ◌∙◌, true, false,
  some, [], ◌∷◌, ◌++◌, ltb, length, take, returns, arith, length-take, All-append,
}
use ic_govmind.Js.Text.{
  Text, only_digits, all_digits, pad_start, pad_end, is_empty, is_digit, is_space,
}
use ic_govmind.Js.Text.Laws.{
  trim_of_NoSpace, split_at, split_of_Lacks, digits-NoSpace, digits-Lacks,
  only_digits_of_all_digits, NoSpace,
}
use ic_govmind.Js.Decimal.{decimal, value}
use ic_govmind.Js.Decimal.Laws.{
  value-take, value-pad_end, value-pad_start, value-decimal, all_digits-decimal, all_digits-take,
  all_digits-pad_start, length-decimal, length-pad_start, decimal-ne-nil,
}
use ic_govmind.Units.{to_units, from_units, units_of_parts, or_zero}

pub value-or_zero : (t : Text) → value (or_zero t) ≡ value t
value-or_zero [] = unfold value in refl
value-or_zero (c ∷ t) = refl

value_nil : value [] ≡ 0
unfolding value
value_nil = refl

-- The parts of an amount that is digits, a point and digits.
units_of_digits :
    (i f : Text) (d : ℕ)
    → i ≢ []
    → all_digits i ≡ true
    → all_digits f ≡ true
    → length f ≤ d
    → units_of_parts (i ∷ f ∷ []) d ≡ returns (value i * 10 ^ d + value f * 10 ^ (d - length f))
unfolding units_of_parts
units_of_digits [] f d ne hi hf fits = absurd (ne refl)
units_of_digits (c ∷ i) f d ne hi hf fits =
    rw (only_digits_of_all_digits f hf, hi, hf, value-or_zero (pad_end d b'0' f), value-pad_end d f)
      (ground arith)

is_empty-append : (i : Text) (c : ℕ) (f : Text) → is_empty (i ++ c ∷ f) ≡ false
is_empty-append [] c f = refl
is_empty-append (x ∷ i) c f = refl

dot_NoSpace : (i f : Text) → all_digits i ≡ true → all_digits f ≡ true → NoSpace (i ++ b'.' ∷ f)
dot_NoSpace i f hi hf =
    All-append _ i (b'.' ∷ f) (digits-NoSpace i hi) ((unfold is_space in refl), digits-NoSpace f hf)

to_units_of_digits :
    (i f : Text) (d : ℕ)
    → i ≢ []
    → all_digits i ≡ true
    → all_digits f ≡ true
    → length f ≤ d
    → to_units (i ++ b'.' ∷ f) d ≡ returns (value i * 10 ^ d + value f * 10 ^ (d - length f))
unfolding to_units
to_units_of_digits i f d ne hi hf fits =
    rw
      (
        trim_of_NoSpace (i ++ b'.' ∷ f) (dot_NoSpace i f hi hf),
        is_empty-append i b'.' f,
        split_at b'.' i f (digits-Lacks b'.' i (unfold is_digit in refl) hi),
        split_of_Lacks b'.' f (digits-Lacks b'.' f (unfold is_digit in refl) hf),
      )
      (units_of_digits i f d ne hi hf fits)

-- A text of digits alone.
units_of_whole :
    (i : Text) (d : ℕ)
    → i ≢ []
    → all_digits i ≡ true
    → units_of_parts (i ∷ []) d ≡ returns (value i * 10 ^ d)
unfolding units_of_parts only_digits all_digits
units_of_whole [] d ne hi = absurd (ne refl)
units_of_whole (c ∷ i) d ne hi =
    rw (hi, value-or_zero (pad_end d b'0' []), value-pad_end d [], value_nil) (ground arith)

to_units_of_whole :
    (i : Text) (d : ℕ) → i ≢ [] → all_digits i ≡ true → to_units i d ≡ returns (value i * 10 ^ d)
unfolding to_units
to_units_of_whole [] d ne hi = absurd (ne refl)
to_units_of_whole (c ∷ i) d ne hi =
    rw
      (
        trim_of_NoSpace (c ∷ i) (digits-NoSpace (c ∷ i) hi),
        split_of_Lacks b'.' (c ∷ i) (digits-Lacks b'.' (c ∷ i) (unfold is_digit in refl) hi),
      )
      (units_of_whole (c ∷ i) d ne hi)

-- Rounding down the fraction rounds down the whole amount.
cut_digits : (n b q k : ℕ) → 0 < q → b ≡ q * k → n / b * b + n % b / q * q ≡ n / q * q
cut_digits n b q k pos e =
    let a = n / b in
    let r = n % b in
    let b_times : a * b ≡ a * k * q = rw e (grind arith) in
    let same : n ≡ r + a * k * q = omega (arith, div-add-mod' n b, b_times) in
    let cut : n / q ≡ r / q + a * k = ap (λ m. m / q) same ∙ add-mul-div_right r (a * k) pos in
    rw cut (omega (arith, b_times))

pow_split : (d k : ℕ) → k ≤ d → 10 ^ d ≡ 10 ^ (d - k) * 10 ^ k
pow_split d zero h = rw (sub-zero, pow-zero) (omega arith)
pow_split zero (suc k) h = absurd (omega arith)
pow_split (suc d) (suc k) h =
    let same : suc d - suc k ≡ d - k = omega arith in
    rw (pow-suc 10 d, pow_split d k (omega arith), pow-suc 10 k, same)
      (mul_assoc (10 ^ (d - k)) (10 ^ k) 10)

module _ (n d k : ℕ) where
  -- The fraction of `n` in `suc d` places, cut to `suc k` of them or all.
  shown : Text
  shown = take (min (suc d) (suc k)) (pad_start (suc d) b'0' (decimal (n % 10 ^ suc d)))

  all_places : length (pad_start (suc d) b'0' (decimal (n % 10 ^ suc d))) ≡ suc d
  all_places =
      length-pad_start (suc d) (decimal (n % 10 ^ suc d))
        (length-decimal (n % 10 ^ suc d) d (mod-lt n (one-le-pow (suc d) 10 (omega arith))))

  length-shown : length shown ≡ min (suc d) (suc k)
  unfolding shown
  length-shown = length-take _ _ ∙ rw all_places (omega arith)

  all_digits-shown : all_digits shown ≡ true
  unfolding shown
  all_digits-shown = all_digits-take _ _ (all_digits-pad_start _ _ (all_digits-decimal _))

  value-shown : value shown ≡ n % 10 ^ suc d / 10 ^ (suc d - suc k)
  unfolding shown
  value-shown =
      let places = pad_start (suc d) b'0' (decimal (n % 10 ^ suc d)) in
      let left : length places - min (suc d) (suc k) ≡ suc d - suc k = omega (arith, all_places) in
      value-take (min (suc d) (suc k)) places (all_digits-pad_start _ _ (all_digits-decimal _))
      ∙ rw
          (left, value-pad_start (suc d) (decimal (n % 10 ^ suc d)), value-decimal (n % 10 ^ suc d))

  shown-ne-nil : ltb 0 (length shown) ≡ true
  shown-ne-nil = rw length-shown (ground arith)

  shown_units :
      to_units (decimal (n / 10 ^ suc d) ++ b'.' ∷ shown) (suc d)
      ≡ returns (n / 10 ^ (suc d - suc k) * 10 ^ (suc d - suc k))
  shown_units =
      let left : suc d - length shown ≡ suc d - suc k = omega (arith, length-shown) in
      let j = min (suc d) (suc k) in
      let kept : suc d - j ≡ suc d - suc k = omega arith in
      let q = 10 ^ (suc d - suc k) in
      let scale : 10 ^ suc d ≡ q * 10 ^ j = pow_split (suc d) j (omega arith) ∙ rw kept in
      to_units_of_digits (decimal (n / 10 ^ suc d)) shown (suc d) (decimal-ne-nil _)
        (all_digits-decimal _) all_digits-shown (omega (arith, length-shown))
      ∙ rw (left, value-decimal (n / 10 ^ suc d), value-shown)
          (ap returns (cut_digits n (10 ^ suc d) q (10 ^ j) (one-le-pow _ 10 (omega arith)) scale))

-- Reading back what is shown rounds down to the last digit shown.
pub to_units-from_units :
    (n d fraction_digits : ℕ)
    → to_units (from_units (some n) d fraction_digits) d
      ≡ returns (n / 10 ^ (d - fraction_digits) * 10 ^ (d - fraction_digits))
unfolding from_units shown
to_units-from_units n zero f =
    let cut : min zero f ≡ 0 = omega arith in
    let left : zero - f ≡ 0 = omega arith in
    rw (cut, left)
      (to_units_of_whole (decimal (n / 10 ^ 0)) zero (decimal-ne-nil _) (all_digits-decimal _)
        ∙ rw value-decimal)
to_units-from_units n (suc d) zero =
    let cut : min (suc d) zero ≡ 0 = omega arith in
    rw (cut, sub-zero)
      (to_units_of_whole (decimal (n / 10 ^ suc d)) (suc d) (decimal-ne-nil _)
          (all_digits-decimal _)
        ∙ rw value-decimal)
to_units-from_units n (suc d) (suc k) = rw (shown-ne-nil n d k) (shown_units n d k)

-- ===== src/Js/Decimal/Laws.antt =====
-- Printing a number and reading it back, and how padding and cutting digits change the value.
use native.Mathlib.Nat.{pow-suc, mul-add-div_right, div-eq_of_lt, one-le-pow}
use native.Mathlib.Decide.{dec_lt}
use mathlib.Core.List.{cons-ne-nil, concat-ne-nil}
use ic_govmind.Base.{
  ℕ, zero, suc, ◌+◌, ◌-◌, ◌*◌, ◌/◌, ◌%◌, ◌^◌, ◌≤◌, ◌<◌, ◌≡◌, ◌≢◌, refl, sym, ap, ◌∙◌, true, [], ◌∷◌,
  ◌++◌, arith, length, length-append, take, drop, take-append-drop, length-drop, length-replicate,
  replicate,
}
use ic_govmind.Js.Text.{Text, all_digits, pad_start, pad_end}
use ic_govmind.Js.Decimal.{digits_of, decimal, value_from, value}

value_from-eq : (s : Text) (n : ℕ) → value_from n s ≡ n * 10 ^ length s + value s
unfolding value
value_from-eq [] n = omega arith
value_from-eq (c ∷ s) n =
    let x = c - b'0' in
    omega (
      arith,
      value_from-eq s (n * 10 + x),
      value_from-eq s (0 + x),
      ap (λ t. n * t) (pow-suc 10 (length s)),
    )

value_from-append : (n : ℕ) (s t : Text) → value_from n (s ++ t) ≡ value_from (value_from n s) t
unfolding value_from
value_from-append n [] t = refl
value_from-append n (c ∷ s) t = value_from-append (n * 10 + (c - b'0')) s t

pub value-append : (s t : Text) → value (s ++ t) ≡ value s * 10 ^ length t + value t
unfolding value
value-append s t = value_from-append 0 s t ∙ value_from-eq t (value_from 0 s)

pub all_digits-append :
    (s t : Text) → all_digits s ≡ true → all_digits t ≡ true → all_digits (s ++ t) ≡ true
unfolding all_digits
all_digits-append [] t hs ht = ht
all_digits-append (c ∷ s) t hs ht = ground (arith, all_digits-append s t)

pub all_digits-take : (n : ℕ) (s : Text) → all_digits s ≡ true → all_digits (take n s) ≡ true
unfolding all_digits
all_digits-take zero s h = refl
all_digits-take (suc n) [] h = refl
all_digits-take (suc n) (c ∷ s) h = ground (arith, all_digits-take n s)

pub all_digits-drop : (n : ℕ) (s : Text) → all_digits s ≡ true → all_digits (drop n s) ≡ true
unfolding all_digits
all_digits-drop zero s h = h
all_digits-drop (suc n) [] h = refl
all_digits-drop (suc n) (c ∷ s) h = ground (arith, all_digits-drop n s)

all_digits-zeros : (n : ℕ) → all_digits (replicate n b'0') ≡ true
unfolding all_digits
all_digits-zeros zero = refl
all_digits-zeros (suc n) = all_digits-zeros n

value-zeros : (n : ℕ) → value (replicate n b'0') ≡ 0
unfolding value
value-zeros zero = refl
value-zeros (suc n) = value-zeros n

digit_step : (x p v : ℕ) → x ≤ 9 → v < p → x * p + v < p * 10
digit_step x p v hx hv = grind arith

value_one : (c : ℕ) → value (c ∷ []) ≡ c - b'0'
unfolding value
value_one c = omega arith

pub value-lt : (s : Text) → all_digits s ≡ true → value s < 10 ^ length s
value-lt [] h = unfold value in omega arith
value-lt (c ∷ s) h =
    let digit : c - b'0' ≤ 9 = unfold all_digits in ground arith in
    let rest : all_digits s ≡ true = unfold all_digits in ground arith in
    rw (value-append (c ∷ []) s, value_one, pow-suc)
      (digit_step (c - b'0') (10 ^ length s) (value s) digit (value-lt s rest))

-- Cutting digits off the end is a division.
div_of_digits : (q p r n : ℕ) → 0 < p → r < p → n ≡ q * p + r → q ≡ n / p
div_of_digits q p r n pos small e =
    rw (e, mul-add-div_right pos q r, div-eq_of_lt small) (omega arith)

pub value-take :
    (n : ℕ) (s : Text) → all_digits s ≡ true → value (take n s) ≡ value s / 10 ^ (length s - n)
value-take n s h =
    let rest = drop n s in
    rw (← length-drop n s) (
      div_of_digits (value (take n s)) (10 ^ length rest) (value rest) (value s)
        (one-le-pow (length rest) 10 (omega arith)) (value-lt rest (all_digits-drop n s h))
        (sym (ap value (take-append-drop n s)) ∙ value-append (take n s) rest))

pub value-pad_end : (n : ℕ) (s : Text) → value (pad_end n b'0' s) ≡ value s * 10 ^ (n - length s)
unfolding pad_end
value-pad_end n s =
    value-append s (replicate (n - length s) b'0')
    ∙ rw (length-replicate, value-zeros) (omega arith)

pub value-pad_start : (n : ℕ) (s : Text) → value (pad_start n b'0' s) ≡ value s
unfolding pad_start
value-pad_start n s = value-append (replicate (n - length s) b'0') s ∙ rw value-zeros (omega arith)

pub all_digits-pad_start :
    (n : ℕ) (s : Text) → all_digits s ≡ true → all_digits (pad_start n b'0' s) ≡ true
unfolding pad_start
all_digits-pad_start n s h =
    all_digits-append (replicate (n - length s) b'0') s (all_digits-zeros (n - length s)) h

pub length-pad_start : (n : ℕ) (s : Text) → length s ≤ n → length (pad_start n b'0' s) ≡ n
unfolding pad_start
length-pad_start n s h = omega (
  arith,
  length-append (replicate (n - length s) b'0') s,
  length-replicate {A = ℕ} (n - length s) b'0',
)

digits_of_small : (fuel n : ℕ) → n < 10 → digits_of (suc fuel) n ≡ (b'0' + n) ∷ []
unfolding digits_of
digits_of_small fuel n h = ground arith

digits_of_large :
    (fuel n : ℕ)
    → ¬ (n < 10)
    → digits_of (suc fuel) n ≡ digits_of fuel (n / 10) ++ (b'0' + n % 10) ∷ []
unfolding digits_of
digits_of_large fuel n h = ground arith

-- What `decimal` prints is a number again, and has no more digits than it needs.
digits_of-value : (fuel n : ℕ) → n < fuel → value (digits_of fuel n) ≡ n
digits_of-value zero n h = absurd (omega arith)
digits_of-value (suc fuel) n h = elim (dec_lt n 10) [
  | yes small ↦ rw (digits_of_small fuel n small, value_one) (omega arith)
  | no large ↦
      rw
        (
          digits_of_large fuel n large,
          value-append (digits_of fuel (n / 10)) ((b'0' + n % 10) ∷ []),
          value_one,
        )
        (omega (arith, digits_of-value fuel (n / 10)))
]

pub value-decimal : (n : ℕ) → value (decimal n) ≡ n
unfolding decimal
value-decimal n = digits_of-value (suc n) n (omega arith)

digit_IsDigit : (n : ℕ) → n < 10 → all_digits ((b'0' + n) ∷ []) ≡ true
unfolding all_digits
digit_IsDigit n h = ground arith

all_digits-digits_of : (fuel n : ℕ) → all_digits (digits_of fuel n) ≡ true
all_digits-digits_of zero n = unfold all_digits digits_of in refl
all_digits-digits_of (suc fuel) n = elim (dec_lt n 10) [
  | yes small ↦ rw (digits_of_small fuel n small) (digit_IsDigit n small)
  | no large ↦ rw (digits_of_large fuel n large) (
      all_digits-append (digits_of fuel (n / 10)) ((b'0' + n % 10) ∷ [])
        (all_digits-digits_of fuel (n / 10)) (digit_IsDigit (n % 10) (omega arith)))
]

pub all_digits-decimal : (n : ℕ) → all_digits (decimal n) ≡ true
unfolding decimal
all_digits-decimal n = all_digits-digits_of (suc n) n

length-digits_of : (fuel n k : ℕ) → n < 10 ^ suc k → length (digits_of fuel n) ≤ suc k
length-digits_of zero n k h = unfold digits_of in omega arith
length-digits_of (suc fuel) n zero h = rw (digits_of_small fuel n h) (omega arith)
length-digits_of (suc fuel) n (suc k) h = elim (dec_lt n 10) [
  | yes small ↦ rw (digits_of_small fuel n small) (omega arith)
  | no large ↦
      let shorter = length-digits_of fuel (n / 10) k (omega (arith, pow-suc 10 (suc k))) in
      rw (digits_of_large fuel n large)
        (omega (arith, shorter, length-append (digits_of fuel (n / 10)) ((b'0' + n % 10) ∷ [])))
]

pub length-decimal : (n k : ℕ) → n < 10 ^ suc k → length (decimal n) ≤ suc k
unfolding decimal
length-decimal n k h = length-digits_of (suc n) n k h

pub decimal-ne-nil : (n : ℕ) → decimal n ≢ []
unfolding decimal
decimal-ne-nil n = elim (dec_lt n 10) [
  | yes small ↦ rw (digits_of_small n n small) (cons-ne-nil _ _)
  | no large ↦ rw (digits_of_large n n large) (concat-ne-nil _ _)
]

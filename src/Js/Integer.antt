-- ===== src/Js/Integer.antt =====
-- Integers, as `BigInt` and as what a number field of a form holds, and `parseInt`.
pub mod Laws
use ic_govmind.Base.{
  ℕ, zero, suc, ◌+◌, ◌-◌, ◌*◌, ◌≡◌, refl, Bool, true, false, ◌&&◌, ◌||◌, Option, none, some, List,
  [], ◌∷◌, leb, ◌==◌, if◌then◌else◌, Outcome, returns, throws, range_error, syntax_error, ltb,
}
use ic_govmind.Js.Text.{Text, codes, is_digit, trim_start, trim, is_empty}
use ic_govmind.Js.Decimal.{value}

pub data ℤ : Type 0 where
  pos : ℕ → ℤ
  negsuc : ℕ → ℤ

unfoldable pub negate : ℤ → ℤ
negate (pos zero) = pos 0
negate (pos (suc n)) = negsuc n
negate (negsuc n) = pos (suc n)

-- `n <= 0` and `n > 0`.
abbrev pub is_positive : ℤ → Bool
is_positive (pos zero) = false
is_positive (pos (suc n)) = true
is_positive (negsuc n) = false

-- The digits that a text starts with.
unfoldable pub leading_digits : Text → Text
unfolding is_digit
leading_digits [] = []
leading_digits (c ∷ s) = let rest = leading_digits s in if is_digit c then c ∷ rest else []

-- The value of a hexadecimal digit.
unfoldable pub hex_digit : ℕ → Option ℕ
unfolding is_digit
hex_digit c =
    if is_digit c
    then some (c - b'0')
    else if leb b'a' c && leb c b'f'
    then some (c - b'a' + 10)
    else if leb b'A' c && leb c b'F'
    then some (c - b'A' + 10)
    else none

unfoldable pub leading_hex : ℕ → Text → ℕ
unfolding hex_digit
leading_hex n [] = n
leading_hex n (c ∷ s) = elim (hex_digit c) [ none ↦ n | some d ↦ leading_hex (n * 16 + d) s ]

unfoldable pub natural_of_digits : Text → Option ℕ
unfolding leading_digits
natural_of_digits s =
    let digits = leading_digits s in if is_empty digits then none else some (value digits)

unfoldable pub hex_of : Text → Option ℕ
unfolding hex_digit leading_hex
hex_of [] = none
hex_of (c ∷ s) = elim (hex_digit c) [ none ↦ none | some d ↦ some (leading_hex d s) ]

-- What follows the sign, with the prefix `0x` of the hexadecimal numbers where no radix is given.
unfoldable pub parse_unsigned : Bool → Text → Option ℕ
unfolding natural_of_digits hex_of
parse_unsigned true (a ∷ x ∷ s) =
    if (a == b'0') && ((x == b'x') || (x == b'X')) then hex_of s else natural_of_digits (a ∷ x ∷ s)
parse_unsigned any_radix s = natural_of_digits s

abbrev integer_of : (ℤ → ℤ) → Option ℕ → Option ℤ
integer_of f none = none
integer_of f (some n) = some (f (pos n))

unfoldable pub parse_signed : Bool → Text → Option ℤ
unfolding parse_unsigned negate
parse_signed hex [] = none
parse_signed hex (c ∷ s) =
    if c == b'-'
    then integer_of negate (parse_unsigned hex s)
    else if c == b'+'
    then integer_of (λ n. n) (parse_unsigned hex s)
    else integer_of (λ n. n) (parse_unsigned hex (c ∷ s))

-- `parseInt(text)` and `parseInt(text, 10)`, before the rounding to a double; `none` is NaN.
unfoldable pub parse_int : Text → Option ℤ
unfolding parse_signed
parse_int s = parse_signed true (trim_start s)

unfoldable pub parse_int_10 : Text → Option ℤ
unfolding parse_signed
parse_int_10 s = parse_signed false (trim_start s)

-- `BigInt(n)` of a number that is an integer, or else NaN or infinite.
unfoldable pub big_int : Option ℤ → Outcome ℤ
big_int none = throws (range_error "not an integer")
big_int (some n) = returns n

-- The value of digits that are all below the base.
unfoldable pub number_in_base : ℕ → ℕ → Text → Option ℕ
unfolding hex_digit
number_in_base base n [] = some n
number_in_base base n (c ∷ s) = elim (hex_digit c) [
  | none ↦ none
  | some d ↦ elim (ltb d base) [ true ↦ number_in_base base (n * base + d) s | false ↦ none ]
]

-- At least one digit.
abbrev whole_in_base : ℕ → Text → Option ℕ
whole_in_base base [] = none
whole_in_base base (c ∷ s) = number_in_base base 0 (c ∷ s)

abbrev base_of : ℕ → Option ℕ
base_of c =
    if (c == b'x') || (c == b'X')
    then some 16
    else if (c == b'o') || (c == b'O')
    then some 8
    else if (c == b'b') || (c == b'B')
    then some 2
    else none

-- A text without white space around it: a sign is for decimals alone.
unfoldable pub literal : Text → Option ℤ
unfolding number_in_base negate
literal [] = some (pos 0)
literal (c ∷ []) = integer_of (λ n. n) (whole_in_base 10 (c ∷ []))
literal (c ∷ x ∷ s) =
    if c == b'-'
    then integer_of negate (whole_in_base 10 (x ∷ s))
    else if c == b'+'
    then integer_of (λ n. n) (whole_in_base 10 (x ∷ s))
    else if c == b'0'
    then integer_of (λ n. n)
        (elim (base_of x) [
          | some base ↦ whole_in_base base s
          | none ↦ whole_in_base 10 (c ∷ x ∷ s)
        ])
    else integer_of (λ n. n) (whole_in_base 10 (c ∷ x ∷ s))

-- `BigInt(text)`.
unfoldable pub big_int_of_text : Text → Outcome ℤ
unfolding literal
big_int_of_text s = elim (literal (trim s)) [
  | none ↦ throws (syntax_error (codes "Cannot convert to a BigInt"))
  | some n ↦ returns n
]

integers :
    (parse_int (codes " -12px") ≡ some (negsuc 11))
    × (parse_int (codes "0x1Fz") ≡ some (pos 31))
    × (parse_int_10 (codes "0x1F") ≡ some (pos 0))
    × (parse_int (codes "0x") ≡ none)
    × (parse_int (codes "-0") ≡ some (pos 0))
    × (parse_int (codes "x1") ≡ none)
    × (big_int_of_text (codes " -07 ") ≡ returns (negsuc 6))
    × (big_int_of_text (codes "0b101") ≡ returns (pos 5))
unfolding parse_int parse_int_10 trim_start trim leading_digits value big_int_of_text
integers = (refl, refl, refl, refl, refl, refl, refl, refl)

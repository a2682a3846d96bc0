-- ===== src/Units.antt =====
-- src/ic_govmind_frontend/src/utils/units.js: token amounts between decimal texts and base units.
-- A `BigInt` that these functions handle is never negative here, so it is a native number.
pub mod Accept
pub mod RoundTrip
mod Tests
use ic_govmind.Base.{
  ℕ, zero, suc, ◌+◌, ◌-◌, ◌*◌, ◌/◌, ◌%◌, ◌^◌, min, ◌≡◌, refl, Bool, true, false, not, ◌&&◌, ◌||◌,
  Option, none, some, List, [], ◌∷◌, ◌++◌, ltb, if◌then◌else◌, length, take, Outcome, returns,
  throws, error, range_error, ◌>>=◌,
}
use ic_govmind.Js.Text.{
  Text, codes, trim, split, only_digits, all_digits, pad_start, pad_end, is_empty,
}
use ic_govmind.Js.Integer.{ℤ, pos, negsuc}
use ic_govmind.Js.Decimal.{decimal, value}

-- `parts[i] || ""`, which is also `parts[0]` of a split, since that has a first part.
abbrev part : List Text → ℕ → Text
part [] i = []
part (p ∷ ps) zero = p
part (p ∷ ps) (suc i) = part ps i

-- `t || "0"`.
abbrev or_zero : Text → Text
or_zero t = if is_empty t then codes "0" else t

abbrev pub too_many_places : ℕ → Text
too_many_places decimals = codes "Too many decimal places (max " ++ (decimal decimals ++ codes ")")

-- `toUnits` behind the split: `/^\d+$/` wants a digit, `/^\d*$/` does not.
units_of_parts : List Text → ℕ → Outcome ℕ
units_of_parts parts decimals =
    let whole = or_zero (part parts 0) in
    let frac = only_digits (part parts 1) in
    if ltb 2 (length parts)
    then throws (error (codes "Invalid amount"))
    else if not (not (is_empty whole) && all_digits whole) || not (all_digits frac)
    then throws (error (codes "Invalid amount"))
    else if ltb decimals (length frac)
    then throws (error (too_many_places decimals))
    else returns
        (value (or_zero whole) * 10 ^ decimals + value (or_zero (pad_end decimals b'0' frac)))

-- `toUnits(value, decimals)`; `v` is `String(value ?? "")`, which is the text that a form holds.
unfoldable pub to_units : Text → ℕ → Outcome ℕ
unfolding units_of_parts
to_units v decimals =
    let s = trim v in
    if is_empty s
    then throws (error (codes "Amount is required"))
    else units_of_parts (split b'.' s) decimals

-- `fromUnits(balanceNat, decimals, fractionDigits)`; `none` is `null` or `undefined`.
unfoldable pub from_units : Option ℕ → ℕ → ℕ → Text
from_units none decimals fraction_digits = codes "0"
from_units (some bn) decimals fraction_digits =
    let denom = 10 ^ decimals in
    let integer = bn / denom in
    let fraction = bn % denom in
    let frac_str =
      take (min decimals fraction_digits) (pad_start decimals b'0' (decimal fraction)) in
    if ltb 0 (length frac_str) then decimal integer ++ (b'.' ∷ frac_str) else decimal integer

-- `toUnits` where the number of decimals comes from a form: NaN passes every test and is no
-- `BigInt`, and a negative number is less than the places of any fraction.
unfoldable pub units_at : Text → Option ℤ → Outcome ℕ
unfolding to_units
units_at v (some (pos decimals)) = to_units v decimals
units_at v none = to_units v (length v) >>= λ n. throws (range_error "NaN is no BigInt")
units_at v (some (negsuc n)) = to_units v (length v) >>= λ m.
    throws (error (codes "Too many decimal places (max -" ++ (decimal (suc n) ++ codes ")")))

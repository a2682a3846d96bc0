-- ===== src/Units/Accept.antt =====
-- Which texts `toUnits` takes for an amount, and how the amount depends on the decimals.
use native.Mathlib.Nat.{pow-suc}
use ic_govmind.Base.{
  ℕ, suc, ◌+◌, ◌-◌, ◌*◌, ◌^◌, ◌≤◌, ◌≡◌, refl, sym, ◌∙◌, List, [], ◌∷◌, ◌++◌, length, returns, arith,
  All-append,
}
use ic_govmind.Js.Text.{Text, trim, split, only_digits, pad_end, is_space, is_digit}
use ic_govmind.Js.Text.Laws.{
  NoSpace, Lacks, trim_of_NoSpace, split_at, split_of_Lacks, digits-NoSpace, digits-Lacks,
  all_digits-only_digits, only_digits_of_all_digits,
}
use ic_govmind.Js.Decimal.{value}
use ic_govmind.Js.Decimal.Laws.{value-pad_end}
use ic_govmind.Units.{to_units, units_of_parts, or_zero, part}
use ic_govmind.Units.RoundTrip.{value-or_zero}

units_of_parts-only_digits :
    (w f : Text) (d : ℕ) → units_of_parts (w ∷ f ∷ []) d ≡ units_of_parts (w ∷ only_digits f ∷ []) d
unfolding units_of_parts
units_of_parts-only_digits w f d =
    rw (only_digits_of_all_digits (only_digits f) (all_digits-only_digits f))

dotted_NoSpace : (w f : Text) → NoSpace w → NoSpace f → NoSpace (w ++ b'.' ∷ f)
dotted_NoSpace w f hw hf = All-append _ w (b'.' ∷ f) hw ((unfold is_space in refl), hf)

to_units_of_dotted :
    (w f : Text) (d : ℕ)
    → NoSpace w
    → NoSpace f
    → Lacks b'.' w
    → Lacks b'.' f
    → to_units (w ++ b'.' ∷ f) d ≡ units_of_parts (w ∷ f ∷ []) d
unfolding to_units
to_units_of_dotted [] f d hw hf lw lf = rw (
  trim_of_NoSpace (b'.' ∷ f) (dotted_NoSpace [] f hw hf),
  split_at b'.' [] f lw,
  split_of_Lacks b'.' f lf,
)
to_units_of_dotted (c ∷ w) f d hw hf lw lf = rw (
  trim_of_NoSpace ((c ∷ w) ++ b'.' ∷ f) (dotted_NoSpace (c ∷ w) f hw hf),
  split_at b'.' (c ∷ w) f lw,
  split_of_Lacks b'.' f lf,
)

-- Characters of the fraction that are no digits are dropped, not refused: the amount is that of
-- the text without them. (The text is taken without white space, and with one point.)
pub to_units-only_digits :
    (w f : Text) (d : ℕ)
    → NoSpace w
    → NoSpace f
    → Lacks b'.' w
    → Lacks b'.' f
    → to_units (w ++ b'.' ∷ f) d ≡ to_units (w ++ b'.' ∷ only_digits f) d
to_units-only_digits w f d hw hf lw lf =
    let kept = all_digits-only_digits f in
    to_units_of_dotted w f d hw hf lw lf
    ∙ units_of_parts-only_digits w f d
    ∙ sym (
        to_units_of_dotted w (only_digits f) d hw (digits-NoSpace _ kept) lw
          (digits-Lacks b'.' _ (unfold is_digit in refl) kept))

ten_times : (w f p q : ℕ) → w * (p * 10) + f * (q * 10) ≡ (w * p + f * q) * 10
ten_times w f p q = omega arith

amount_scales :
    (w f : Text) (d : ℕ)
    → length f ≤ d
    → value w * 10 ^ suc d + value (or_zero (pad_end (suc d) b'0' f))
      ≡ (value w * 10 ^ d + value (or_zero (pad_end d b'0' f))) * 10
amount_scales w f d fits =
    let longer : suc d - length f ≡ suc (d - length f) = omega arith in
    rw
      (
        value-or_zero (pad_end (suc d) b'0' f),
        value-or_zero (pad_end d b'0' f),
        value-pad_end (suc d) f,
        value-pad_end d f,
        longer,
        pow-suc 10 d,
        pow-suc 10 (d - length f),
      )
      (ten_times (value w) (value f) (10 ^ d) (10 ^ (d - length f)))

units_scale :
    (ps : List Text) (d n : ℕ)
    → units_of_parts ps d ≡ returns n
    → units_of_parts ps (suc d) ≡ returns (n * 10)
unfolding units_of_parts
units_scale ps d n h =
    ground (arith, amount_scales (or_zero (or_zero (part ps 0))) (only_digits (part ps 1)) d)

-- A token with one decimal place more has ten times the base units: an amount accepted for `d`
-- decimals is accepted for `d + 1`, and its units are ten times as many.
pub to_units-suc :
    (v : Text) (d n : ℕ) → to_units v d ≡ returns n → to_units v (suc d) ≡ returns (n * 10)
unfolding to_units
to_units-suc v d n h = ground (arith, units_scale (split b'.' (trim v)) d n)

-- ===== src/Js/Integer/Laws.antt =====
-- `parseInt` reads what `String` writes.
use ic_govmind.Base.{ℕ, ◌≡◌, ◌≢◌, ◌∙◌, refl, true, some, [], ◌∷◌, arith, ap}
use ic_govmind.Js.Text.{Text, is_digit, is_space, all_digits, trim_start}
use ic_govmind.Js.Decimal.{decimal, value}
use ic_govmind.Js.Decimal.Laws.{all_digits-decimal, value-decimal, decimal-ne-nil}
use ic_govmind.Js.Integer.{
  pos, leading_digits, natural_of_digits, parse_unsigned, parse_signed, parse_int_10,
}

leading_digits_of_all_digits : (s : Text) → all_digits s ≡ true → leading_digits s ≡ s
unfolding leading_digits all_digits
leading_digits_of_all_digits [] h = refl
leading_digits_of_all_digits (c ∷ s) h = ground (arith, leading_digits_of_all_digits s)

parse_int_10_of_digits :
    (c : ℕ) (s : Text)
    → all_digits (c ∷ s) ≡ true
    → parse_int_10 (c ∷ s) ≡ some (pos (value (c ∷ s)))
unfolding parse_int_10 parse_signed trim_start is_space all_digits is_digit natural_of_digits
    parse_unsigned
parse_int_10_of_digits c s h = ground (arith, leading_digits_of_all_digits (c ∷ s))

parse_int_10_of_text :
    (s : Text) → s ≢ [] → all_digits s ≡ true → parse_int_10 s ≡ some (pos (value s))
parse_int_10_of_text [] e h = absurd (e refl)
parse_int_10_of_text (c ∷ s) e h = parse_int_10_of_digits c s h

-- A number that is written out is read back.
pub parse_int_10-decimal : (n : ℕ) → parse_int_10 (decimal n) ≡ some (pos n)
parse_int_10-decimal n =
    parse_int_10_of_text (decimal n) (decimal-ne-nil n) (all_digits-decimal n)
    ∙ ap (λ k. some (pos k)) (value-decimal n)

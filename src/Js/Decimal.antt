-- ===== src/Js/Decimal.antt =====
-- BigInt texts: `toString` of a non-negative integer and `BigInt` of a text of decimal digits.
pub mod Laws
use ic_govmind.Base.{
  ℕ, zero, suc, ◌+◌, ◌-◌, ◌*◌, ◌/◌, ◌%◌, ◌≡◌, refl, true, false, [], ◌∷◌, ◌++◌, ltb,
}
use ic_govmind.Js.Text.{Text, codes}

-- The digits of `n`, the last one first to be found; a fuel above `n` is enough.
digits_of : ℕ → ℕ → Text
digits_of zero n = []
digits_of (suc fuel) n = elim (ltb n 10) [
  | true ↦ (b'0' + n) ∷ []
  | false ↦ digits_of fuel (n / 10) ++ (b'0' + n % 10) ∷ []
]

unfoldable pub decimal : ℕ → Text
unfolding digits_of
decimal n = digits_of (suc n) n

-- The number that the digits spell behind `n`.
unfoldable pub value_from : ℕ → Text → ℕ
value_from n [] = n
value_from n (c ∷ s) = value_from (n * 10 + (c - b'0')) s

unfoldable pub value : Text → ℕ
unfolding value_from
value = value_from 0

print_and_read : (decimal 1203 ≡ codes "1203") × (value (codes "0450") ≡ 450)
unfolding decimal value
print_and_read = (refl, refl)

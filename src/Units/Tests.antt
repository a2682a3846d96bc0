-- ===== src/Units/Tests.antt =====
-- Runs of the amount conversions, and the theorems about them at concrete amounts.
use ic_govmind.Base.{
  ◌/◌, ◌*◌, ◌^◌, ◌-◌, ◌≡◌, refl, none, some, ◌∷◌, ◌++◌, returns, throws, error, arith,
}
use ic_govmind.Js.Text.{codes, only_digits, all_digits, is_space, trim, split, pad_start, pad_end}
use ic_govmind.Js.Decimal.{decimal, value}
use ic_govmind.Units.{to_units, from_units, too_many_places}
use ic_govmind.Units.Accept.{to_units-only_digits, to_units-suc}
use ic_govmind.Units.RoundTrip.{to_units-from_units}

runs : Unit {0}
unfolding to_units from_units trim split all_digits only_digits value pad_start pad_end decimal
runs = tt

amounts :
    (to_units (codes " 123.45 ") 8 ≡ returns 12345000000)
    × (to_units (codes ".5") 2 ≡ returns 50)
    × (to_units (codes "1.2.3") 2 ≡ throws (error (codes "Invalid amount")))
    × (to_units (codes "1x") 2 ≡ throws (error (codes "Invalid amount")))
    × (to_units (codes "0.123") 2 ≡ throws (error (too_many_places 2)))
    × (to_units (codes "1.5e3") 2 ≡ returns 153)
    × (from_units (some 12345) 3 6 ≡ codes "12.345")
    × (from_units (some 7) 0 6 ≡ codes "7")
    × (from_units none 3 6 ≡ codes "0")
unfolding runs
amounts = (refl, refl, refl, refl, refl, refl, refl, refl, refl)

to_units-from_units_example :
    to_units (from_units (some 123456789) 8 6) 8 ≡ returns (123456789 / 10 ^ (8 - 6) * 10 ^ (8 - 6))
to_units-from_units_example = to_units-from_units 123456789 8 6

to_units-only_digits_example :
    to_units (codes "1" ++ b'.' ∷ codes "5e3") 2
    ≡ to_units (codes "1" ++ b'.' ∷ only_digits (codes "5e3")) 2
unfolding is_space
to_units-only_digits_example =
    to_units-only_digits (codes "1") (codes "5e3") 2 (refl, tt) (refl, (refl, (refl, tt)))
      (omega arith) (omega arith)

to_units-suc_sample : to_units (codes "2.5") 2 ≡ returns (25 * 10)
unfolding runs
to_units-suc_sample = to_units-suc (codes "2.5") 1 25 refl

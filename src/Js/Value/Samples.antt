-- ===== src/Js/Value/Samples.antt =====
-- A small engine for the tests: its numbers are the naturals with NaN, and its `JSON.parse` knows
-- the texts of a table.
use ic_govmind.Base.{
  ℕ, ◌≡◌, refl, Bool, true, false, Option, none, some, List, [], ◌∷◌, ltb, if◌then◌else◌, Outcome,
  returns, throws, syntax_error, arith,
}
use ic_govmind.Js.Text.{Text, codes, text_eq, all_digits}
use ic_govmind.Js.Decimal.{decimal, value}
use ic_govmind.Js.Value.{Value, Engine}

abbrev pub Number : Type 0
Number = Option ℕ

abbrev parse_from : List (Text × Value Number) → Text → Outcome (Value Number)
parse_from [] t = throws (syntax_error t)
parse_from ((key, v) ∷ table) t = if text_eq key t then returns v else parse_from table t

abbrev number_of : Text → Number
number_of t = if all_digits t then some (value t) else none

abbrev text_of : Number → Text
text_of none = codes "NaN"
text_of (some n) = decimal n

abbrev is_none : Number → Bool
is_none none = true
is_none (some n) = false

abbrev lt_number : Number → Number → Bool
lt_number (some a) (some b) = ltb a b
lt_number (some a) none = false
lt_number none b = false

pub lt_number_asymm : (x y : Number) → lt_number x y ≡ true → lt_number y x ≡ false
lt_number_asymm (some a) (some b) h = ground arith
lt_number_asymm (some a) none h = refl
lt_number_asymm none (some b) h = refl
lt_number_asymm none none h = refl

abbrev pub engine_with : List (Text × Value Number) → Engine Number
engine_with table = record {
  of_nat = some;
  nan = none;
  number_of_text = number_of;
  text_of_number = text_of;
  is_nan = is_none;
  lt = lt_number;
  json_parse = parse_from table;
  describe = λ t. codes "engine error";
  is_nan-of_nat = λ k. refl;
  lt-of_nat = λ a b. refl;
  lt_asymm = lt_number_asymm;
}

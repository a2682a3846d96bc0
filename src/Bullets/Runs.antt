-- ===== src/Bullets/Runs.antt =====
-- Runs of digits in a text that is put together, and points with white space around them.
use ic_govmind.Base.{
  ℕ, ◌≡◌, ◌≢◌, ◌∙◌, refl, ap, true, false, List, [], ◌∷◌, ◌++◌, All, reverse, arith, append-nil,
  All-reverse,
}
use mathlib.Core.List.{reverse-append}
use ic_govmind.Js.Text.{Text, is_digit, is_space, trim, trim_start, trim_end, all_digits}
use ic_govmind.Js.Decimal.{decimal}
use ic_govmind.Js.Decimal.Laws.{all_digits-decimal, decimal-ne-nil}
use ic_govmind.Bullets.{number_runs, character_before}

abbrev pub NoDigit : Text → Type 0
NoDigit = All (λ c. is_digit c ≡ false)

space_no_digit : (c : ℕ) → is_space c ≡ true → is_digit c ≡ false
unfolding is_digit is_space
space_no_digit c h = ground arith

abbrev pub IsSpaces : Text → Type 0
IsSpaces = All (λ c. is_space c ≡ true)

pub number_runs_of_text :
    (s r : Text) → NoDigit s → number_runs (s ++ r) ≡ (s ++ (number_runs r).0, (number_runs r).1)
unfolding number_runs
number_runs_of_text [] r h = refl
number_runs_of_text (c ∷ s) r (hc, hs) = rw (number_runs_of_text s r hs, hc) refl

number_runs-cons : (c : ℕ) (s : Text) → number_runs (c ∷ s) ≡ character_before c (number_runs s)
unfolding number_runs
number_runs-cons c s = refl

-- A run of digits before a text that starts with none.
number_runs_of_digits :
    (c : ℕ) (d r : Text) (x : ℕ) (tail : Text) (runs : List (Text × Text))
    → all_digits (c ∷ d) ≡ true
    → number_runs r ≡ (x ∷ tail, runs)
    → number_runs (c ∷ (d ++ r)) ≡ ([], (c ∷ d, x ∷ tail) ∷ runs)
unfolding all_digits
number_runs_of_digits c [] r x tail runs h e =
    let digit : is_digit c ≡ true = ground arith in number_runs-cons c r ∙ rw (e, digit) refl
number_runs_of_digits c (d ∷ ds) r x tail runs h e =
    let digit : is_digit c ≡ true = ground arith in
    let rest : all_digits (d ∷ ds) ≡ true = ground arith in
    number_runs-cons c (d ∷ (ds ++ r))
    ∙ rw (number_runs_of_digits d ds r x tail runs rest e, digit) refl

-- A number with a text behind it that starts with no digit and has none.
number_runs_of_number :
    (n x : ℕ) (tail r : Text)
    → NoDigit (x ∷ tail)
    → (number_runs r).0 ≡ []
    → number_runs (decimal n ++ (x ∷ (tail ++ r))) ≡ ([], (decimal n, x ∷ tail) ∷ (number_runs r).1)
number_runs_of_number n x tail r h fresh =
    of_digits (decimal n) (decimal-ne-nil n) (all_digits-decimal n)
  where
    behind : number_runs (x ∷ (tail ++ r)) ≡ (x ∷ tail, (number_runs r).1)
    behind =
        number_runs_of_text (x ∷ tail) r h
        ∙ ap (λ t. (t, (number_runs r).1)) (rw fresh (append-nil (x ∷ tail)))

    of_digits :
        (d : Text)
        → d ≢ []
        → all_digits d ≡ true
        → number_runs (d ++ (x ∷ (tail ++ r))) ≡ ([], (d, x ∷ tail) ∷ (number_runs r).1)
    of_digits [] some_digits all = absurd (some_digits refl)
    of_digits (c ∷ d) some_digits all =
        number_runs_of_digits c d (x ∷ (tail ++ r)) x tail (number_runs r).1 all behind

pub number_then :
    (n x : ℕ) (tail r : Text) (runs : List (Text × Text))
    → NoDigit (x ∷ tail)
    → number_runs r ≡ ([], runs)
    → number_runs (decimal n ++ (x ∷ (tail ++ r))) ≡ ([], (decimal n, x ∷ tail) ∷ runs)
number_then n x tail r runs h e =
    number_runs_of_number n x tail r h (ap (λ r. r.0) e)
    ∙ ap (λ r. ([], (decimal n, x ∷ tail) ∷ r.1)) e

-- White space at the ends.
trim_start_of_spaces : (s t : Text) → IsSpaces s → trim_start (s ++ t) ≡ trim_start t
unfolding trim_start
trim_start_of_spaces [] t h = refl
trim_start_of_spaces (c ∷ s) t (hc, hs) = rw hc (trim_start_of_spaces s t hs)

-- A point's text: no digit, not blank, and no white space at its ends.
pub record IsPoint (c : ℕ) (s : Text) : Type 0 where
  pub no_digit : NoDigit (c ∷ s)
  pub starts : is_space c ≡ false
  pub ends : trim_end (c ∷ s) ≡ c ∷ s

trim_end_of_spaces : (s sep : Text) → IsSpaces sep → trim_end (s ++ sep) ≡ trim_end s
unfolding trim_end
trim_end_of_spaces s sep h =
    rw (reverse-append s sep)
      (ap reverse (trim_start_of_spaces (reverse sep) (reverse s) (All-reverse _ sep h)))

pub trim-point :
    (c : ℕ) (s sep : Text)
    → IsPoint c s
    → IsSpaces sep
    → trim (trim_start (b' ' ∷ (c ∷ (s ++ sep)))) ≡ c ∷ s
unfolding trim trim_start
trim-point c s sep h spaces =
    rw (h.starts, h.starts) (trim_end_of_spaces (c ∷ s) sep spaces ∙ h.ends)

pub spaces-NoDigit : (sep : Text) → IsSpaces sep → NoDigit sep
spaces-NoDigit [] h = tt
spaces-NoDigit (c ∷ sep) (hc, hs) = (space_no_digit c hc, spaces-NoDigit sep hs)

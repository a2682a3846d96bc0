-- ===== src/Bullets/Laws.antt =====
-- Numbered points are read back as they were written, where no point's text has a digit; a point
-- that mentions a number is lost.
use ic_govmind.Base.{
  ℕ, suc, ◌+◌, ◌≡◌, ◌∙◌, refl, ap, true, false, List, [], ◌∷◌, ◌++◌, map, length, All, ltb, ◌==◌,
  arith, All-append,
}
use ic_govmind.Js.Text.{Text, is_digit, is_empty, trim_start}
use ic_govmind.Js.Decimal.{decimal}
use ic_govmind.Bullets.{
  listed, number_runs, dotted_points, bullets_from, numbered_from, format_points, format_dotted,
}
use ic_govmind.Bullets.Runs.{
  NoDigit, IsSpaces, IsPoint, number_runs_of_text, number_then, trim-point, spaces-NoDigit,
}

-- The first character of a point's text, and the others.
abbrev pub Point : Type 0
Point = ℕ × Text

abbrev pub text_of : Point → Text
text_of (c, s) = c ∷ s

abbrev pub AllPoints : List Point → Type 0
AllPoints = All (λ p. IsPoint p.0 p.1)

module _ (sep : Text) where
  -- `n. text`, one after the other, with white space between them.
  abbrev pub numbered : ℕ → List Point → Text
  numbered n [] = []
  numbered n ((c, s) ∷ points) =
      decimal n ++ (b'.' ∷ ((b' ' ∷ c ∷ (s ++ sep)) ++ numbered (n + 1) points))

  abbrev runs_of : ℕ → List Point → List (Text × Text)
  runs_of n [] = []
  runs_of n ((c, s) ∷ points) = (decimal n, b'.' ∷ b' ' ∷ c ∷ (s ++ sep)) ∷ runs_of (n + 1) points

  module _ (spaces : IsSpaces sep) where
    number_runs-numbered :
        (n : ℕ) (points : List Point)
        → AllPoints points
        → number_runs (numbered n points) ≡ ([], runs_of n points)
    number_runs-numbered n [] h = unfold number_runs in refl
    number_runs-numbered n ((c, s) ∷ points) (h, hs) =
        let rest = number_runs-numbered (n + 1) points hs in
        let digits : NoDigit (s ++ sep) =
          All-append _ s sep h.no_digit.1 (spaces-NoDigit sep spaces) in
        number_then n b'.' (b' ' ∷ c ∷ (s ++ sep)) (numbered (n + 1) points)
          (runs_of (n + 1) points) (unfold is_digit in (refl, (refl, (h.no_digit.0, digits)))) rest

    dotted_points-runs_of :
        (n : ℕ) (points : List Point)
        → dotted_points (runs_of n points)
          ≡ map (λ p. trim_start (b' ' ∷ (text_of p ++ sep))) points
    unfolding dotted_points
    dotted_points-runs_of n [] = refl
    dotted_points-runs_of n (p ∷ []) = refl
    dotted_points-runs_of n (p ∷ q ∷ points) =
        ap (λ ps. trim_start (b' ' ∷ (text_of p ++ sep)) ∷ ps)
          (dotted_points-runs_of (n + 1) (q ∷ points))

    pub bullets_from-points :
        (index : ℕ) (points : List Point)
        → AllPoints points
        → bullets_from index (map (λ p. trim_start (b' ' ∷ (text_of p ++ sep))) points)
          ≡ numbered_from index (map text_of points)
    unfolding bullets_from numbered_from
    bullets_from-points index [] h = refl
    bullets_from-points index ((c, s) ∷ points) (h, hs) =
        rw (trim-point c s sep h spaces, bullets_from-points (index + 1) points hs) refl

pub is_empty_of_runs :
    (t : Text) (run : Text × Text) (runs : List (Text × Text))
    → (number_runs t).1 ≡ run ∷ runs
    → is_empty t ≡ false
unfolding number_runs
is_empty_of_runs [] run runs h = cc
is_empty_of_runs (c ∷ t) run runs h = refl

-- What is shown of a text that has two points at least.
format_dotted_of_runs :
    (t head x y : Text) (run : Text × Text) (runs : List (Text × Text)) (points : List Text)
    → number_runs t ≡ (head, run ∷ runs)
    → dotted_points (run ∷ runs) ≡ x ∷ y ∷ points
    → format_dotted t ≡ listed (bullets_from 0 (x ∷ y ∷ points))
unfolding format_dotted format_points
format_dotted_of_runs t head x y run runs points found taken =
    let not_empty : is_empty t ≡ false = is_empty_of_runs t run runs (ap (λ r. r.1) found) in
    let several : ltb 1 (suc (suc (length points))) ≡ true = ground arith in
    rw (found, taken, not_empty, several) refl

module _ (sep intro : Text) (spaces : IsSpaces sep) (plain : NoDigit intro) where
  -- Two points or more, numbered from any number on with white space between them, are listed as
  -- they were written and counted from 1, where neither the text before them nor a point has a
  -- digit, and no point is blank or has white space at its ends.
  pub format_dotted-numbered :
      (n : ℕ) (p q : Point) (points : List Point)
      → AllPoints (p ∷ q ∷ points)
      → format_dotted (intro ++ numbered sep n (p ∷ q ∷ points))
        ≡ listed (numbered_from 0 (map text_of (p ∷ q ∷ points)))
  format_dotted-numbered n p q points h =
      let all = p ∷ q ∷ points in
      format_dotted_of_runs (intro ++ numbered sep n all) (intro ++ []) _ _ _ _ _
        (number_runs_of_text intro (numbered sep n all) plain
          ∙ ap (λ r. (intro ++ r.0, r.1)) (number_runs-numbered sep spaces n all h))
        (dotted_points-runs_of sep spaces n all)
      ∙ ap listed (bullets_from-points sep spaces 0 all h)

  -- A point whose text mentions a number is lost: the one that is shown as the second is the third.
  pub format_dotted-loses :
      (n m : ℕ) (first last : Point) (before : Text) (c : ℕ) (after : Text)
      → AllPoints (first ∷ last ∷ [])
      → NoDigit before
      → NoDigit (c ∷ after)
      → c == b'.' ≡ false
      → format_dotted (
          intro
          ++ (decimal n
              ++ (b'.'
                  ∷ ((b' ' ∷ (text_of first ++ sep))
                      ++ (decimal (n + 1)
                          ++ (b'.'
                              ∷ (before
                                  ++ (decimal m
                                      ++ (c ∷ (after ++ numbered sep (n + 2) (last ∷ [])))))))))))
        ≡ listed (numbered_from 0 (text_of first ∷ text_of last ∷ []))
  format_dotted-loses n m first last before c after h hb ha other =
      let dot : is_digit b'.' ≡ false = unfold is_digit in refl in
      let blank : is_digit b' ' ≡ false = unfold is_digit in refl in
      let digits = All-append _ first.1 sep h.0.no_digit.1 (spaces-NoDigit sep spaces) in
      let lost =
        decimal (n + 1)
        ++ (b'.' ∷ (before ++ (decimal m ++ (c ∷ (after ++ numbered sep (n + 2) (last ∷ [])))))) in
      let found =
        number_then n b'.' (b' ' ∷ (text_of first ++ sep)) lost _
          (dot, (blank, (h.0.no_digit.0, digits)))
          (number_then (n + 1) b'.' before _ _ (dot, hb)
            (number_then m c after _ _ ha
              (number_runs-numbered sep spaces (n + 2) (last ∷ []) (h.1.0, tt)))) in
      let shown = λ (p : Point). trim_start (b' ' ∷ (text_of p ++ sep)) in
      format_dotted_of_runs _ (intro ++ []) (shown first) (shown last) _ _ []
        (number_runs_of_text intro _ plain ∙ ap (λ r. (intro ++ r.0, r.1)) found)
        (unfold dotted_points in rw other refl)
      ∙ ap listed (bullets_from-points sep spaces 0 (first ∷ last ∷ []) (h.0, (h.1.0, tt)))

-- ===== src/Bullets/Bracketed.antt =====
-- `formatBulletPoints` of pages/ProposalListPage.jsx and components/ProposalAnalysisPanel.jsx, which
-- looks for the form `(1) text`: numbered points are read back as they were written.
use ic_govmind.Base.{
  Bool, if◌then◌else◌, Bool-cases, inl, inr, ℕ, suc, ◌+◌, ◌-◌, ◌≡◌, ◌∙◌, sym, refl, ap, true, false,
  ◌&&◌, List, [], ◌∷◌, ◌++◌, map, length, take, ltb, arith, All-append, append-nil, append_assoc,
}
use ic_govmind.Js.Text.{trim, Text, is_digit, is_empty, trim_start}
use ic_govmind.Js.Decimal.{decimal}
use ic_govmind.Bullets.{
  dotted_points, pieces, long_pieces, unchanged, format_dotted, listed, number_runs, ends_with,
  before_next, opens_next, bracketed_points, bullets_from, numbered_from, format_points,
  format_bracketed,
}
use ic_govmind.Bullets.Runs.{NoDigit, IsSpaces, number_runs_of_text, number_then, spaces-NoDigit}
use ic_govmind.Bullets.Laws.{Point, text_of, AllPoints, bullets_from-points, is_empty_of_runs}

-- The parenthesis that opens the next point.
abbrev gap : List Point → Text
gap [] = []
gap (q ∷ points) = b'(' ∷ []

gap-NoDigit : (points : List Point) → NoDigit (gap points)
gap-NoDigit [] = tt
gap-NoDigit (q ∷ points) = unfold is_digit in (refl, tt)

ends_with_last : (c : ℕ) (t : Text) → ends_with c (t ++ c ∷ []) ≡ true
ends_with_last c [] = ground arith
ends_with_last c (x ∷ []) = ends_with_last c []
ends_with_last c (x ∷ y ∷ t) = ends_with_last c (y ∷ t)

take_own : (t r : Text) → take (length t) (t ++ r) ≡ t
take_own [] r = refl
take_own (x ∷ t) r = ap (λ u. x ∷ u) (take_own t r)

length-last : (t : Text) (c : ℕ) → length (t ++ c ∷ []) ≡ suc (length t)
length-last [] c = refl
length-last (x ∷ t) c = ap suc (length-last t c)

before_suc : (n : ℕ) → suc n - 1 ≡ n
before_suc n = omega arith

take_but_last : (t : Text) (c : ℕ) → take (length (t ++ c ∷ []) - 1) (t ++ c ∷ []) ≡ t
take_but_last t c =
    let one_less : length (t ++ c ∷ []) - 1 ≡ length t =
      ap (λ n. n - 1) (length-last t c) ∙ before_suc (length t) in
    ap (λ n. take n (t ++ c ∷ [])) one_less ∙ take_own t (c ∷ [])

bracketed_points-cons :
    (before digits body : Text) (runs : List (Text × Text))
    → ends_with b'(' before ≡ true
    → opens_next runs body ≡ true
    → bracketed_points before ((digits, b')' ∷ body) ∷ runs)
      ≡ trim_start (before_next runs body) ∷ bracketed_points (b')' ∷ body) runs
unfolding bracketed_points
bracketed_points-cons before digits body runs h o = rw (h, o) refl

module _ (sep : Text) where
  -- `n) text`, with the parenthesis of the next.
  abbrev pub bracketed : ℕ → List Point → Text
  bracketed n [] = []
  bracketed n ((c, s) ∷ points) =
      decimal n ++ (b')' ∷ ((b' ' ∷ c ∷ (s ++ (sep ++ gap points))) ++ bracketed (n + 1) points))

  abbrev runs_of : ℕ → List Point → List (Text × Text)
  runs_of n [] = []
  runs_of n ((c, s) ∷ points) =
      (decimal n, b')' ∷ b' ' ∷ c ∷ (s ++ (sep ++ gap points))) ∷ runs_of (n + 1) points

  number_runs-bracketed :
      (n : ℕ) (points : List Point)
      → IsSpaces sep
      → AllPoints points
      → number_runs (bracketed n points) ≡ ([], runs_of n points)
  number_runs-bracketed n [] spaces h = unfold number_runs in refl
  number_runs-bracketed n ((c, s) ∷ points) spaces (h, hs) =
      let digits : NoDigit (s ++ (sep ++ gap points)) =
        All-append _ s _ h.no_digit.1
          (All-append _ sep _ (spaces-NoDigit sep spaces) (gap-NoDigit points)) in
      number_then n b')' (b' ' ∷ c ∷ (s ++ (sep ++ gap points))) (bracketed (n + 1) points)
        (runs_of (n + 1) points) (unfold is_digit in (refl, (refl, (h.no_digit.0, digits))))
        (number_runs-bracketed (n + 1) points spaces hs)

  bracketed_points-runs_of :
      (before : Text) (n : ℕ) (points : List Point)
      → ends_with b'(' before ≡ true
      → bracketed_points before (runs_of n points)
        ≡ map (λ p. trim_start (b' ' ∷ (text_of p ++ sep))) points
  unfolding bracketed_points
  bracketed_points-runs_of before n [] h = refl
  bracketed_points-runs_of before n ((c, s) ∷ []) h =
      bracketed_points-cons before (decimal n) _ [] h refl
      ∙ ap (λ r. trim_start (b' ' ∷ c ∷ (s ++ r)) ∷ []) (append-nil sep)
  bracketed_points-runs_of before n ((c, s) ∷ q ∷ points) h =
      let text = b' ' ∷ c ∷ (s ++ sep) in
      let whole = b' ' ∷ c ∷ (s ++ (sep ++ b'(' ∷ [])) in
      let body : whole ≡ text ++ b'(' ∷ [] =
        ap (λ r. b' ' ∷ c ∷ r) (sym (append_assoc s sep (b'(' ∷ []))) in
      let opens : ends_with b'(' whole ≡ true =
        ap (ends_with b'(') body ∙ ends_with_last b'(' text in
      bracketed_points-cons before (decimal n) whole (runs_of (n + 1) (q ∷ points)) h
        (ap (λ b. b && true) opens)
      ∙ ap (λ t. trim_start t ∷ bracketed_points (b')' ∷ whole) (runs_of (n + 1) (q ∷ points)))
          (ap (before_next (runs_of (n + 1) (q ∷ points))) body ∙ take_but_last text b'(')
      ∙ ap (λ ps. trim_start text ∷ ps)
          (bracketed_points-runs_of (b')' ∷ whole) (n + 1) (q ∷ points) opens)

  -- The dotted form finds nothing in them.
  dotted_points_of_bracketed : (n : ℕ) (points : List Point) → dotted_points (runs_of n points) ≡ []
  unfolding dotted_points
  dotted_points_of_bracketed n [] = refl
  dotted_points_of_bracketed n (p ∷ points) = dotted_points_of_bracketed (n + 1) points

  pieces_of_bracketed :
      (n : ℕ) (points : List Point) (piece : Text)
      → (t : Text) × (pieces piece (runs_of n points) ≡ t ∷ [])
  unfolding pieces
  pieces_of_bracketed n [] piece = (piece, refl)
  pieces_of_bracketed n (p ∷ points) piece = pieces_of_bracketed (n + 1) points _

one_sentence : (t : Text) → ltb 1 (length (long_pieces (t ∷ []))) ≡ false
unfolding long_pieces
one_sentence t = elim (Bool-cases (ltb 5 (length (trim t)))) [
  | inl long ↦ rw long refl
  | inr short ↦ rw short refl
]

if_same {ℓ} : {A : Type ℓ} (b : Bool) (x : A) → (if b then x else x) ≡ x
if_same true x = refl
if_same false x = refl

format_dotted_of_none :
    (t head piece : Text) (runs : List (Text × Text))
    → number_runs t ≡ (head, runs)
    → dotted_points runs ≡ []
    → pieces head runs ≡ piece ∷ []
    → format_dotted t ≡ unchanged t
unfolding format_dotted format_points
format_dotted_of_none t head piece runs found taken whole =
    rw (found, taken, whole, one_sentence piece) (if_same (is_empty t) (unchanged t))

format_bracketed_of_runs :
    (t head x y : Text) (run : Text × Text) (runs : List (Text × Text)) (points : List Text)
    → number_runs t ≡ (head, run ∷ runs)
    → bracketed_points head (run ∷ runs) ≡ x ∷ y ∷ points
    → format_bracketed t ≡ listed (bullets_from 0 (x ∷ y ∷ points))
unfolding format_bracketed format_points
format_bracketed_of_runs t head x y run runs points found taken =
    let not_empty : is_empty t ≡ false = is_empty_of_runs t run runs (ap (λ r. r.1) found) in
    let several : ltb 1 (suc (suc (length points))) ≡ true = ground arith in
    rw (found, taken, not_empty, several) refl

module _ (sep intro : Text) (spaces : IsSpaces sep) (plain : NoDigit intro) where
  abbrev opened : Text
  opened = intro ++ b'(' ∷ []

  number_runs-opened :
      (n : ℕ) (points : List Point)
      → AllPoints points
      → number_runs (opened ++ bracketed sep n points) ≡ (opened ++ [], runs_of sep n points)
  number_runs-opened n points h =
      let no_digit : NoDigit opened = All-append _ intro _ plain (unfold is_digit in (refl, tt)) in
      number_runs_of_text opened (bracketed sep n points) no_digit
      ∙ ap (λ r. (opened ++ r.0, r.1)) (number_runs-bracketed sep n points spaces h)

  -- Two points or more, written as (n) with white space between them and numbered from any number
  -- on, are listed as they were written and counted from 1, where neither the text before them nor
  -- a point has a digit, and no point is blank or has white space at its ends.
  pub format_bracketed-bracketed :
      (n : ℕ) (p q : Point) (points : List Point)
      → AllPoints (p ∷ q ∷ points)
      → format_bracketed ((intro ++ b'(' ∷ []) ++ bracketed sep n (p ∷ q ∷ points))
        ≡ listed (numbered_from 0 (map text_of (p ∷ q ∷ points)))
  format_bracketed-bracketed n p q points h =
      let all = p ∷ q ∷ points in
      format_bracketed_of_runs (opened ++ bracketed sep n all) (opened ++ []) _ _ _ _ _
        (number_runs-opened n all h)
        (bracketed_points-runs_of sep (opened ++ []) n all
          (ap (ends_with b'(') (append-nil opened) ∙ ends_with_last b'(' intro))
      ∙ ap listed (bullets_from-points sep spaces 0 all h)

  -- The form `n. text` is not found in them.
  pub format_dotted-bracketed :
      (n : ℕ) (points : List Point)
      → AllPoints points
      → format_dotted (opened ++ bracketed sep n points)
        ≡ unchanged (opened ++ bracketed sep n points)
  format_dotted-bracketed n points h =
      let (piece, whole) = pieces_of_bracketed sep n points (opened ++ []) in
      format_dotted_of_none _ (opened ++ []) piece _ (number_runs-opened n points h)
        (dotted_points_of_bracketed sep n points) whole

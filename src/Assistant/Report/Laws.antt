-- ===== src/Assistant/Report/Laws.antt =====
-- One report on two pages: the forms of numbered points that each of them knows.
use ic_govmind.Base.{ℕ, ◌≡◌, Bool, ap, ◌∙◌, List, ◌∷◌, [], ◌++◌, map}
use ic_govmind.Js.Text.{Text}
use ic_govmind.Treasury.Doubles.{Doubles}
use ic_govmind.Bullets.{listed, unchanged, numbered_from, format_bracketed}
use ic_govmind.Bullets.Runs.{NoDigit, IsSpaces}
use ic_govmind.Bullets.Laws.{Point, text_of, AllPoints}
use ic_govmind.Bullets.Bracketed.{bracketed, format_bracketed-bracketed, format_dotted-bracketed}
use ic_govmind.Assistant.Report.{ProposalAnalysis, panel_report, page_report}

module _ {N : Type 0} ⦃d : Doubles N⦄ (to_fixed words : N → Text) (sep intro : Text)
    (spaces : IsSpaces sep) (plain : NoDigit intro) where
  -- A risk assessment of two points or more in the form (n), with white space between them, is a
  -- list of these points, counted from 1, in the analysis panel, and the text as it stands on the
  -- page of proposals, where neither the text before them nor a point has a digit, and no point is
  -- blank or has white space at its ends.
  pub risks-bracketed :
      (show : Bool) (a : ProposalAnalysis N) (n : ℕ) (p q : Point) (points : List Point)
      → AllPoints (p ∷ q ∷ points)
      → a.risk_assessment ≡ (intro ++ b'(' ∷ []) ++ bracketed sep n (p ∷ q ∷ points)
      → ((panel_report to_fixed show a).risks
          ≡ listed (numbered_from 0 (map text_of (p ∷ q ∷ points))))
        × ((page_report words show a).risks ≡ unchanged a.risk_assessment)
  unfolding panel_report page_report
  risks-bracketed show a n p q points h written = (
    ap format_bracketed written ∙ format_bracketed-bracketed sep intro spaces plain n p q points h,
    rw written (format_dotted-bracketed sep intro spaces plain n (p ∷ q ∷ points) h),
  )

-- ===== src/Assistant/Report/Tests.antt =====
-- A report with two risks, over whole numbers in place of doubles.
use ic_govmind.Base.{ℕ, ◌≡◌, refl, true, none, [], ◌∷◌, ◌++◌, map}
use ic_govmind.Js.Text.{Text, codes, is_digit, is_space, trim_end}
use ic_govmind.Js.Decimal.{decimal}
use ic_govmind.Treasury.Whole.{whole}
use ic_govmind.Bullets.{listed, unchanged, numbered_from}
use ic_govmind.Bullets.Runs.{IsPoint, NoDigit, IsSpaces}
use ic_govmind.Bullets.Laws.{Point, text_of}
use ic_govmind.Bullets.Bracketed.{bracketed}
use ic_govmind.Assistant.Report.{
  ProposalAnalysis, panel_report, page_report, complexity_label, summary_of, details_of,
  page_details, score_of_ten,
}
use ic_govmind.Assistant.Report.Laws.{risks-bracketed}

runs : Unit {0}
unfolding panel_report page_report complexity_label summary_of details_of page_details score_of_ten
    decimal trim_end is_digit is_space
runs = tt

abbrev cost : Point
cost = (b'C', codes "ost")

abbrev delay : Point
delay = (b'D', codes "elay")

abbrev intro : Text
intro = codes "As: "

abbrev report : ProposalAnalysis ℕ
report = record {
  summary = [];
  risk_assessment = (intro ++ b'(' ∷ []) ++ bracketed (codes " ") 1 (cost ∷ delay ∷ []);
  recommendations = codes "None";
  complexity_score = 7;
  complexity_breakdown = record {
    technical_complexity = 6;
    financial_complexity = 8;
    governance_complexity = 5;
    timeline_complexity = 4;
    explanation = codes "New code";
    comparison = [];
  };
  estimated_impact = [];
}

labels :
    map {A = ℕ} complexity_label (9 ∷ 6 ∷ 5 ∷ 3 ∷ [])
    ≡ codes "Very Complex" ∷ codes "Complex" ∷ codes "Moderate" ∷ codes "Simple" ∷ []
unfolding runs
labels = refl

no_summary : (panel_report decimal true report).summary ≡ codes "No summary available"
unfolding runs
no_summary = refl

score : (panel_report decimal true report).score ≡ codes "7/10"
unfolding runs
score = refl

-- The page of proposals shows an impact that is empty, the panel does not.
no_impact : (panel_report decimal true report).impact ≡ none
unfolding runs
no_impact = refl

points-IsPoint : IsPoint b'C' (codes "ost") × IsPoint b'D' (codes "elay")
unfolding runs
points-IsPoint = (
  record { no_digit = (refl, (refl, (refl, (refl, tt)))); starts = refl; ends = refl },
  record { no_digit = (refl, (refl, (refl, (refl, (refl, tt))))); starts = refl; ends = refl },
)

intro-NoDigit : NoDigit intro × IsSpaces (codes " ")
unfolding runs
intro-NoDigit = ((refl, (refl, (refl, (refl, tt)))), (refl, tt))

risks-bracketed_example :
    ((panel_report decimal true report).risks
      ≡ listed (numbered_from 0 (map text_of (cost ∷ delay ∷ []))))
    × ((page_report decimal true report).risks ≡ unchanged report.risk_assessment)
risks-bracketed_example =
    risks-bracketed decimal decimal (codes " ") intro intro-NoDigit.1 intro-NoDigit.0 true report 1
      cost delay [] (points-IsPoint.0, (points-IsPoint.1, tt)) refl

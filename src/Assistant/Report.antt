-- ===== src/Assistant/Report.antt =====
-- The report of an analysis as src/ic_govmind_frontend/src/components/ProposalAnalysisPanel.jsx,
-- pages/ProposalListPage.jsx and pages/ProposalsPage.jsx lay it out. Scores are doubles, and
-- `to_fixed` is `toFixed(1)` of them; a score as it stands is `words` of it.
pub mod Laws
mod Tests
use ic_govmind.Base.{ℕ, Bool, true, false, Option, none, some, List, [], ◌∷◌, ◌++◌, if◌then◌else◌}
use ic_govmind.Js.Text.{Text, codes, is_empty, or_text}
use ic_govmind.Bullets.{Formatted, format_dotted, format_bracketed}
use ic_govmind.Treasury.Doubles.{Doubles, or_nought}

pub record ComplexityBreakdown (N : Type 0) : Type 0 where
  pub technical_complexity : N
  pub financial_complexity : N
  pub governance_complexity : N
  pub timeline_complexity : N
  pub explanation : Text
  pub comparison : Text

-- What the canister keeps of an analysis.
pub record ProposalAnalysis (N : Type 0) : Type 0 where
  pub summary : Text
  pub risk_assessment : Text
  pub recommendations : Text
  pub complexity_score : N
  pub complexity_breakdown : ComplexityBreakdown N
  pub estimated_impact : Text

-- A part that is shown only where its text is not empty.
abbrev pub text_or_none : Text → Option Text
text_or_none t = if is_empty t then none else some t

-- The part behind "Details".
pub record Details : Type 0 where
  pub technical : Text
  pub financial : Text
  pub governance : Text
  pub timeline : Text
  pub explanation : Option Text
  pub comparison : Option Text

pub record Report : Type 0 where
  pub summary : Text
  pub risks : Formatted
  pub recommendations : Formatted
  pub score : Text
  pub complexity : Option Text
  pub details : Option Details
  pub impact : Option Text

unfoldable pub summary_of : Text → Text
summary_of t = or_text t (codes "No summary available")

module _ {N : Type 0} ⦃d : Doubles N⦄ (to_fixed : N → Text) where
  -- `(score || 0).toFixed(1)` with the "/10" behind it.
  unfoldable pub score_of_ten : N → Text
  score_of_ten n = to_fixed (or_nought n) ++ codes "/10"

  unfoldable pub details_of : ComplexityBreakdown N → Details
  details_of b = record {
    technical = score_of_ten b.technical_complexity;
    financial = score_of_ten b.financial_complexity;
    governance = score_of_ten b.governance_complexity;
    timeline = score_of_ten b.timeline_complexity;
    explanation = text_or_none b.explanation;
    comparison = text_or_none b.comparison;
  }

  -- The panel and the page of an SNS; `show` is `showComplexityBreakdown`.
  unfoldable pub panel_report : Bool → ProposalAnalysis N → Report
  panel_report show a = record {
    summary = summary_of a.summary;
    risks = format_bracketed a.risk_assessment;
    recommendations = format_bracketed a.recommendations;
    score = score_of_ten a.complexity_score;
    complexity = none;
    details = if show then some (details_of a.complexity_breakdown) else none;
    impact = text_or_none a.estimated_impact;
  }

module _ {N : Type 0} ⦃d : Doubles N⦄ where
  unfoldable pub complexity_label : N → Text
  complexity_label n =
      if d.le (d.of_nat 8) n
      then codes "Very Complex"
      else if d.le (d.of_nat 6) n
      then codes "Complex"
      else if d.le (d.of_nat 4) n
      then codes "Moderate"
      else codes "Simple"

module _ {N : Type 0} ⦃d : Doubles N⦄ (words : N → Text) where
  -- The details of the page of proposals, with each score as it stands.
  unfoldable pub page_details : ComplexityBreakdown N → Details
  page_details b = record {
    technical = words b.technical_complexity ++ codes "/10";
    financial = words b.financial_complexity ++ codes "/10";
    governance = words b.governance_complexity ++ codes "/10";
    timeline = words b.timeline_complexity ++ codes "/10";
    explanation = text_or_none b.explanation;
    comparison = text_or_none b.comparison;
  }

  -- The page of proposals, which shows the impact also where it is empty.
  unfoldable pub page_report : Bool → ProposalAnalysis N → Report
  page_report show a = record {
    summary = summary_of a.summary;
    risks = format_dotted a.risk_assessment;
    recommendations = format_dotted a.recommendations;
    score = words a.complexity_score;
    complexity = some (complexity_label a.complexity_score);
    details = if show then some (page_details a.complexity_breakdown) else none;
    impact = some a.estimated_impact;
  }

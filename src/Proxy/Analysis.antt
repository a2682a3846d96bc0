-- ===== src/Proxy/Analysis.antt =====
-- src/ic_govmind_api_proxy/server.js: `parseAIResponse`, which turns the model's answer into the
-- analysis that is sent back.
pub mod Laws
use ic_govmind.Base.{
  ℕ, Bool, true, false, Option, none, some, Outcome, returns, throws, error, ◌>>=◌, ◌++◌, [],
}
use ic_govmind.Js.Text.{Text, codes}
use ic_govmind.Js.Value.{
  Value, null, num, str, arr, Engine, prop, optional_prop, or_else, join_items, to_number, message,
}
use ic_govmind.Js.Value.Clamp.{clamp}
use ic_govmind.Proxy.Extract.{clean_content}

pub record Breakdown (N : Type 0) : Type 0 where
  pub technical_complexity : N
  pub financial_complexity : N
  pub governance_complexity : N
  pub timeline_complexity : N
  pub explanation : Value N
  pub comparison : Value N

pub record Analysis (N : Type 0) : Type 0 where
  pub summary : Value N
  pub risk_assessment : Value N
  pub recommendations : Value N
  pub complexity_score : N
  pub complexity_breakdown : Breakdown N
  pub estimated_impact : Value N

-- `catch (error) { throw new Error(`… ${error.message}`) }`.
unfoldable pub rethrow {ℓ} : {N : Type 0} {A : Type ℓ} → Engine N → Text → Outcome A → Outcome A
rethrow e prefix (returns a) = returns a
rethrow e prefix (throws t) = throws (error (prefix ++ message e t))

module _ {N : Type 0} ⦃e : Engine N⦄ where
  -- `convertToString`.
  unfoldable pub convert_to_string : Option (Value N) → Outcome (Value N)
  convert_to_string (some (arr vs)) = do s ← join_items (codes " ") vs; returns (str s)
  convert_to_string v = returns (or_else v (str []))

  -- `typeof v === 'number' ? Math.max(1, Math.min(10, v)) : 5.0`.
  unfoldable pub score_or_default : Option (Value N) → N
  score_or_default (some (num n)) = clamp n
  score_or_default v = e.of_nat 5

  -- `Math.max(1, Math.min(10, breakdown?.key || 5.0))`.
  unfoldable pub breakdown_score : Text → Option (Value N) → Outcome N
  breakdown_score key breakdown = do
    n ← to_number (or_else (optional_prop key breakdown) (num (e.of_nat 5)))
    returns (clamp n)

  unfoldable pub breakdown_of : Option (Value N) → Outcome (Breakdown N)
  unfolding breakdown_score
  breakdown_of b = do
    technical ← breakdown_score (codes "technical_complexity") b
    financial ← breakdown_score (codes "financial_complexity") b
    governance ← breakdown_score (codes "governance_complexity") b
    timeline ← breakdown_score (codes "timeline_complexity") b
    returns (record {
      technical_complexity = technical;
      financial_complexity = financial;
      governance_complexity = governance;
      timeline_complexity = timeline;
      explanation =
          or_else (optional_prop (codes "explanation") b)
            (str (codes "Standard complexity assessment"));
      comparison =
          or_else (optional_prop (codes "comparison") b)
            (str (codes "Typical DAO proposal complexity"));
    })

  -- What the `try` block returns for the parsed answer.
  unfoldable pub analysis_of : Value N → Outcome (Analysis N)
  unfolding breakdown_of score_or_default convert_to_string
  analysis_of analysis = do
    summary ← prop (codes "summary") analysis
    risks ← prop (codes "risk_assessment") analysis
    risk_text ← convert_to_string risks
    advice ← prop (codes "recommendations") analysis
    advice_text ← convert_to_string advice
    score ← prop (codes "complexity_score") analysis
    breakdown ← prop (codes "complexity_breakdown") analysis
    scores ← breakdown_of breakdown
    impact ← prop (codes "estimated_impact") analysis
    returns (record {
      summary = or_else summary (str (codes "Analysis completed"));
      risk_assessment = or_else (some risk_text) (str (codes "Standard proposal risks apply"));
      recommendations = or_else (some advice_text) (str (codes "Follow standard DAO procedures"));
      complexity_score = score_or_default score;
      complexity_breakdown = scores;
      estimated_impact = or_else impact (str (codes "Moderate impact expected"));
    })

  unfoldable pub parse_ai_response : Text → Outcome (Analysis N)
  parse_ai_response content =
      rethrow e (codes "Failed to parse AI response as JSON: ")
        (e.json_parse (clean_content content) >>= analysis_of)

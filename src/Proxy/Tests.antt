-- ===== src/Proxy/Tests.antt =====
-- Runs of the service, and its theorems at concrete requests and answers.
use ic_govmind.Base.{◌≡◌, refl, none, some, [], ◌∷◌, ◌++◌, returns, ◌>>=◌, arith}
use ic_govmind.Js.Text.{
  codes, trim, strip_prefix, strip_suffix, index_of, last_index_of, substring, text_eq, all_digits,
}
use ic_govmind.Js.Decimal.{decimal, value}
use ic_govmind.Js.Value.{
  Value, num, str, obj, field, end, Engine, prop, get_field, optional_prop, truthy, or_else,
  join_items, to_text, to_number, message,
}
use ic_govmind.Js.Value.Clamp.{clamp}
use ic_govmind.Js.Value.Samples.{Number, engine_with}
use ic_govmind.Proxy.Extract.{clean_content}
use ic_govmind.Proxy.Extract.Surrounded.{braced, clean_content-braced}
use ic_govmind.Proxy.Analysis.{
  Analysis, parse_ai_response, analysis_of, rethrow, breakdown_score, convert_to_string,
}
use ic_govmind.Proxy.Prompts.Laws.{create_draft_prompt_injective}
use ic_govmind.Proxy.Analysis.Laws.{
  AllScores, parse_ai_response-AllScores, parse_ai_response-braced, breakdown_score-nan,
}

runs : Unit {0}
unfolding clean_content trim strip_prefix strip_suffix index_of last_index_of substring text_eq
    all_digits decimal value get_field prop optional_prop truthy or_else join_items to_text
    to_number message clamp parse_ai_response analysis_of rethrow breakdown_score convert_to_string
runs = tt

fenced : clean_content (codes "```json\n{\"a\": 1}\n```") ≡ codes "{\"a\": 1}"
unfolding runs
fenced = refl

clean_content-braced_example :
    clean_content (codes "Sure: " ++ (braced (codes "1") ++ codes " done")) ≡ braced (codes "1")
clean_content-braced_example =
    clean_content-braced (codes "Sure: ") (codes "1") (codes " done") (omega arith) (omega arith)

-- `{1}` stands for an object with a score of 42 and one breakdown score that is a word.
abbrev breakdown : Value Number
breakdown = obj (field (codes "technical_complexity") (str (codes "high")) end)

abbrev answer : Value Number
answer = obj (
    field (codes "complexity_score") (num (some 42))
      (field (codes "complexity_breakdown") breakdown end))

instance abbrev sample : Engine Number
sample = engine_with ((codes "{1}", answer) ∷ [])

abbrev analysis : Analysis Number
analysis = record {
  summary = str (codes "Analysis completed");
  risk_assessment = str (codes "Standard proposal risks apply");
  recommendations = str (codes "Follow standard DAO procedures");
  complexity_score = some 10;
  complexity_breakdown = record {
    technical_complexity = none;
    financial_complexity = some 5;
    governance_complexity = some 5;
    timeline_complexity = some 5;
    explanation = str (codes "Standard complexity assessment");
    comparison = str (codes "Typical DAO proposal complexity");
  };
  estimated_impact = str (codes "Moderate impact expected");
}

analyzed : parse_ai_response (codes "Sure: {1} done") ≡ returns analysis
unfolding runs
analyzed = refl

parse_ai_response-AllScores_example : AllScores analysis
parse_ai_response-AllScores_example =
    parse_ai_response-AllScores (codes "Sure: {1} done") analysis analyzed

parse_ai_response-braced_example :
    parse_ai_response (codes "Sure: " ++ (braced (codes "1") ++ codes " done"))
    ≡ rethrow sample
        (codes "Failed to parse AI response as JSON: ")
        (sample.json_parse (braced (codes "1")) >>= analysis_of)
parse_ai_response-braced_example =
    parse_ai_response-braced (codes "Sure: ") (codes "1") (codes " done") (omega arith)
      (omega arith)

breakdown_score-nan_sample :
    breakdown_score (codes "technical_complexity") (some breakdown) ≡ returns none
unfolding runs
breakdown_score-nan_sample =
    breakdown_score-nan (codes "technical_complexity") (some breakdown) b'h' (codes "igh") refl refl

create_draft_prompt_injective_sample : codes "a grant" ≡ codes "a grant"
create_draft_prompt_injective_sample =
    create_draft_prompt_injective (codes "a grant") (codes "a grant") refl

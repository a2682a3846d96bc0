-- ===== src/Proxy/Handlers/Tests.antt =====
-- Runs of the handlers, and their theorems at concrete requests.
mod Parsers
use ic_govmind.Base.{
  ◌≡◌, refl, ◌↔◌, ◌⊎◌, Option, some, List, [], ◌∷◌, ◌++◌, returns, arith, length, false, ◌-◌,
}
use ic_govmind.Js.Text.{
  Text, codes, trim, strip_prefix, strip_suffix, index_of, last_index_of, substring, text_eq,
  all_digits,
}
use ic_govmind.Js.Decimal.{decimal, value}
use ic_govmind.Js.Value.{
  Value, null, str, arr, obj, Items, nil, cons, field, end, Engine, prop, get_field, optional_prop,
  truthy, or_else, join_items, to_text, to_number, message,
}
use ic_govmind.Js.Value.Clamp.{clamp}
use ic_govmind.Js.Value.Samples.{Number, engine_with}
use ic_govmind.Proxy.Extract.{clean_content}
use ic_govmind.Proxy.Analysis.{
  Analysis, parse_ai_response, analysis_of, rethrow, breakdown_score, convert_to_string,
}
use ic_govmind.Proxy.Analysis.Laws.{AllScores}
use ic_govmind.Proxy.Debate.{
  Persona, persona_of, personas_of, debate_of, fill, reviewer, array_or,
  parse_debate_simulation_response,
}
use ic_govmind.Proxy.Debate.Laws.{
  length-parse_debate_simulation_response, fill-reviewers, reviewers,
}
use ic_govmind.Proxy.Debate.Total.{IsDebate}
use ic_govmind.Proxy.Handlers.Debate.{IsAsked, debate_simulation_of_answer}
use ic_govmind.Proxy.Draft.{
  DraftWithCommittee, strict_eq, draft_of, find_committee, suggestion_of,
  parse_committee_suggestion_response,
}
use ic_govmind.Proxy.Draft.Laws.{IsSuggested, parse_committee_suggestion_response-IsSuggested}
use ic_govmind.Proxy.Host.{
  answered, Host, sent, failed, body_prop, as_text, member, first_of_value, has_no_length, chat,
  choice_content,
}
use ic_govmind.Proxy.Handlers.{
  analyze, analyze_call, debate_simulation, draft_with_committee, draft,
}
use ic_govmind.Proxy.Handlers.Guards.{keyless_handlers, analyze_400_iff, reply_status, IsMissing}
use ic_govmind.Proxy.Handlers.Success.{
  IsGiven, analyze-AllScores, analyze_of_error_status, analyze_of_answer,
}

runs : Unit {0}
unfolding clean_content trim strip_prefix strip_suffix index_of last_index_of substring text_eq
    all_digits decimal value get_field prop optional_prop truthy or_else join_items to_text
    to_number message clamp parse_ai_response analysis_of rethrow breakdown_score convert_to_string
    persona_of personas_of debate_of fill reviewer array_or parse_debate_simulation_response
    strict_eq draft_of find_committee suggestion_of parse_committee_suggestion_response body_prop
    as_text member first_of_value has_no_length chat choice_content analyze analyze_call
runs = tt

abbrev content : Value Number
content = str (codes "ok {1}")

-- The body of the service's reply, parsed.
abbrev completion : Value Number
completion = obj (
    field (codes "choices")
      (arr
        (cons (obj (field (codes "message") (obj (field (codes "content") content end)) end)) nil))
      end)

abbrev suggested : Value Number
suggested = obj (field (codes "suggested_committee_id") (str (codes "c2")) end)

instance abbrev sample : Engine Number
sample =
    engine_with
      ((codes "{1}", obj end) ∷ (codes "reply", completion) ∷ (codes "{2}", suggested) ∷ [])

abbrev host : Host
host = record {
  api_key = codes "key";
  now = codes "today";
  fetch = λ r. answered 200 (returns (codes "reply"));
}

abbrev busy : Host
busy = record { api_key = codes "key"; now = codes "today"; fetch = λ r. answered 429 (returns []) }

abbrev body : Option (Value Number)
body = some (
    obj (
      field (codes "title") (str (codes "Budget"))
        (field (codes "description") (str (codes "Spend it")) end)))

abbrev five : Value Number → Value Number → Analysis Number
five s r = record {
  summary = str (codes "Analysis completed");
  risk_assessment = s;
  recommendations = r;
  complexity_score = some 5;
  complexity_breakdown = record {
    technical_complexity = some 5;
    financial_complexity = some 5;
    governance_complexity = some 5;
    timeline_complexity = some 5;
    explanation = str (codes "Standard complexity assessment");
    comparison = str (codes "Typical DAO proposal complexity");
  };
  estimated_impact = str (codes "Moderate impact expected");
}

abbrev plain : Analysis Number
plain =
    five (str (codes "Standard proposal risks apply"))
      (str (codes "Follow standard DAO procedures"))

analyzed : analyze host body ≡ sent plain (codes "today")
unfolding runs
analyzed = refl

analyze-AllScores_example : AllScores plain
analyze-AllScores_example = analyze-AllScores host body plain (codes "today") analyzed

host-IsGiven : IsGiven host body (codes "Budget") (codes "Spend it")
unfolding runs
host-IsGiven = record {
  title_given = refl;
  description_given = refl;
  title_set = refl;
  description_set = refl;
  key_set = refl;
}

busy-IsGiven : IsGiven busy body (codes "Budget") (codes "Spend it")
unfolding runs
busy-IsGiven = record {
  title_given = refl;
  description_given = refl;
  title_set = refl;
  description_set = refl;
  key_set = refl;
}

analyze_of_error_status_example :
    analyze busy body
    ≡ failed 500 (record {
      success_false = false;
      failure = codes "Analysis failed";
      details = some (codes "DeepSeek API error: " ++ decimal 429);
      failure_code = codes "ANALYSIS_FAILED";
    })
analyze_of_error_status_example =
    analyze_of_error_status busy body (codes "Budget") (codes "Spend it") 429 [] busy-IsGiven
      (λ r. refl) refl

analyze_of_answer_example : analyze host body ≡ sent plain (codes "today")
unfolding runs
analyze_of_answer_example =
    analyze_of_answer host body (codes "Budget") (codes "Spend it") 200 (codes "reply")
      (codes "ok ") (codes "1") [] completion (obj end) plain host-IsGiven (λ r. refl) refl refl
      refl (omega arith) tt refl refl

keyless_handlers_example :
    (analyze (record { api_key = []; now = []; fetch = host.fetch }) body
      ≡ analyze (record { api_key = []; now = []; fetch = busy.fetch }) body)
    × (debate_simulation (record { api_key = []; now = []; fetch = host.fetch }) body
        ≡ debate_simulation (record { api_key = []; now = []; fetch = busy.fetch }) body)
    × (draft_with_committee (record { api_key = []; now = []; fetch = host.fetch }) body
        ≡ draft_with_committee (record { api_key = []; now = []; fetch = busy.fetch }) body)
    × (draft (record { api_key = []; now = []; fetch = host.fetch }) body
        ≡ draft (record { api_key = []; now = []; fetch = busy.fetch }) body)
keyless_handlers_example = keyless_handlers [] host.fetch busy.fetch body

analyze_400_iff_example : (reply_status (analyze host body) ≡ 400) ↔ IsMissing body
analyze_400_iff_example = analyze_400_iff host body

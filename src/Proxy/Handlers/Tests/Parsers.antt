-- ===== src/Proxy/Handlers/Tests/Parsers.antt =====
-- The theorems about the debates and about the suggested committees, at concrete answers.
use ic_govmind.Base.{◌≡◌, refl, ◌⊎◌, Option, some, List, [], ◌∷◌, ◌++◌, arith, length, ◌-◌}
use ic_govmind.Js.Text.{Text, codes}
use ic_govmind.Js.Value.{Value, null, str, arr, obj, Items, nil, cons, field, end, Engine}
use ic_govmind.Js.Value.Samples.{Number, engine_with}
use ic_govmind.Proxy.Debate.{Persona, fill, reviewer}
use ic_govmind.Proxy.Debate.Laws.{
  length-parse_debate_simulation_response, fill-reviewers, reviewers,
}
use ic_govmind.Proxy.Debate.Total.{IsDebate}
use ic_govmind.Proxy.Handlers.Debate.{IsAsked, debate_simulation_of_answer}
use ic_govmind.Proxy.Draft.{DraftWithCommittee}
use ic_govmind.Proxy.Draft.Laws.{
  IsItem, IsSuggested, parse_committee_suggestion_response-IsSuggested,
}
use ic_govmind.Proxy.Host.{sent, optional_content}
use ic_govmind.Proxy.Prompts.{create_committee_suggestion_prompt, committee_lines, committee_line}
use ic_govmind.Proxy.Handlers.{
  debate_simulation, draft, draft_with_committee, draft_with_committee_call,
}
use ic_govmind.Proxy.Handlers.Drafts.{HasIdea, filled, draft_of_answer}
use ic_govmind.Proxy.Handlers.Committee.{draft_with_committee-HasItem}
use ic_govmind.Proxy.Handlers.Tests.{runs, host, completion, suggested, sample}

-- An object with no personas: four reviewers are made up.
length-parse_debate_simulation_response_sample :
    length {A = Persona Number} (reviewer 0 ∷ reviewer 1 ∷ reviewer 2 ∷ reviewer 3 ∷ []) ≡ 4
unfolding runs
length-parse_debate_simulation_response_sample =
    length-parse_debate_simulation_response {N = Number} (codes "ok {1}")
      (reviewer 0 ∷ reviewer 1 ∷ reviewer 2 ∷ reviewer 3 ∷ []) refl

fill-reviewers_example :
    fill 4 (reviewer {N = Number} 7 ∷ [])
    ≡ (reviewer 7 ∷ [])
      ++ reviewers
          (length (reviewer {N = Number} 7 ∷ []))
          (4 - length (reviewer {N = Number} 7 ∷ []))
fill-reviewers_example = fill-reviewers 4 (reviewer 7 ∷ []) (omega arith)

abbrev committee : Text → Value Number
committee id = obj (field (codes "id") (str id) end)

abbrev committees : Items Number
committees = cons (committee (codes "c1")) (cons (committee (codes "c2")) nil)

abbrev chosen : DraftWithCommittee Number
chosen = record {
  draft = record {
    title = str (codes "Untitled Proposal");
    summary = str (codes "No summary provided");
    rationale = str (codes "No rationale provided");
    specifications = str (codes "No specifications provided");
  };
  committee_suggestion = record {
    committee_id = str (codes "c2");
    committee = committee (codes "c2");
    reasoning = str (codes "No reasoning provided");
  };
}

parse_committee_suggestion_response-IsSuggested_sample :
    (committee (codes "c2") ≡ null) ⊎ IsSuggested suggested committees (committee (codes "c2"))
unfolding runs
parse_committee_suggestion_response-IsSuggested_sample =
    parse_committee_suggestion_response-IsSuggested (codes "{2}") committees suggested chosen refl
      refl

abbrev question : Option (Value Number)
question = some (
    obj (
      field (codes "title") (str (codes "Budget"))
        (field (codes "content") (str (codes "Spend it")) end)))

abbrev opinions : Value Number
opinions = obj (field (codes "personas") (arr (cons (obj end) nil)) end)

abbrev debater : Engine Number
debater = engine_with ((codes "{1}", opinions) ∷ (codes "reply", completion) ∷ [])

question-IsAsked :
    IsAsked {N = Number} ⦃e = debater⦄ host question (codes "Budget") (codes "Spend it")
unfolding runs
question-IsAsked = record {
  title_given = refl;
  content_given = refl;
  title_set = refl;
  content_set = refl;
  key_set = refl;
}

opinions-IsDebate : IsDebate opinions
unfolding runs
opinions-IsDebate = (_, cons (obj end) nil, refl, refl, ((λ h. cc), tt))

debate_simulation_of_answer_example :
    (ps : List (Persona Number)) × (debate_simulation ⦃e = debater⦄ host question
      ≡ sent ps (codes "today"))
    × (length ps ≡ 4)
unfolding runs
debate_simulation_of_answer_example =
    debate_simulation_of_answer ⦃e = debater⦄ host question (codes "Budget") (codes "Spend it") 200
      (codes "reply") (codes "ok ") (codes "1") [] completion opinions question-IsAsked (λ r. refl)
      refl refl refl (omega arith) tt refl opinions-IsDebate

abbrev wish : Option (Value Number)
wish = some (
    obj (
      field (codes "idea") (str (codes "Plant trees"))
        (field (codes "committees") (arr committees) end)))

abbrev chooser : Engine Number
chooser = engine_with ((codes "{1}", suggested) ∷ (codes "reply", completion) ∷ [])

draft_with_committee-HasItem_example :
    (committee (codes "c2") ≡ null) ⊎ IsItem (committee (codes "c2")) committees
unfolding runs draft_with_committee draft_with_committee_call create_committee_suggestion_prompt
    optional_content committee_lines committee_line
draft_with_committee-HasItem_example =
    draft_with_committee-HasItem ⦃e = chooser⦄ host wish committees chosen (codes "today") refl refl

wish-HasIdea : HasIdea {N = Number} ⦃e = chooser⦄ host wish (codes "Plant trees")
unfolding runs
wish-HasIdea = record { idea_given = refl; idea_set = refl; key_set = refl }

draft_of_answer_example :
    draft ⦃e = chooser⦄ host wish
    ≡ sent
        (filled ⦃e = chooser⦄ (field (codes "suggested_committee_id") (str (codes "c2")) end))
        (codes "today")
unfolding runs
draft_of_answer_example =
    draft_of_answer ⦃e = chooser⦄ host wish (codes "Plant trees") 200 (codes "reply") (codes "ok ")
      (codes "1") [] completion (field (codes "suggested_committee_id") (str (codes "c2")) end)
      wish-HasIdea (λ r. refl) refl refl refl (omega arith) tt refl

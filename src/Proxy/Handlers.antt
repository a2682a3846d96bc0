-- ===== src/Proxy/Handlers.antt =====
-- src/ic_govmind_api_proxy/server.js: the request handlers. A handler is a function of the host
-- and the request's body; `try … catch` is `attempt`, and an early `return res.status(…)` is a
-- branch that returns the reply.
pub mod Guards
pub mod Success
pub mod Debate
pub mod Committee
pub mod Drafts
mod Tests
use ic_govmind.Base.{
  Bool, true, false, not, ◌||◌, Option, none, some, List, if◌then◌else◌, Outcome, returns, throws,
  error, ◌>>=◌, attempt,
}
use ic_govmind.Js.Text.{codes, is_empty}
use ic_govmind.Js.Value.{Value, arr, Items, Engine, truthy, to_text}
use ic_govmind.Proxy.Host.{
  Host, Reply, sent, bad_request, no_api_key, crashed, body_prop, as_text, chat, choice_content,
  optional_content,
}
use ic_govmind.Proxy.Analysis.{Analysis, parse_ai_response}
use ic_govmind.Proxy.Debate.{Persona, parse_debate_simulation_response}
use ic_govmind.Proxy.Draft.{
  Draft, DraftWithCommittee, parse_draft_response, parse_committee_suggestion_response,
}
use ic_govmind.Proxy.Prompts.{
  create_analysis_prompt, create_draft_prompt, create_debate_simulation_prompt,
  create_committee_suggestion_prompt,
}

module _ {N : Type 0} ⦃e : Engine N⦄ where
  -- POST /api/proposals/analyze
  unfoldable pub analyze_call :
      Host → Option (Value N) → Option (Value N) → Outcome (Reply (Analysis N))
  analyze_call host title description = do
    title_text ← to_text title
    description_text ← to_text description
    log ← as_text title
    answer ← chat {N = N} host (record {
      bearer = host.api_key;
      system =
          codes
            "You are a professional DAO governance analyst. Always provide consistent, structured responses in valid JSON format without markdown wrappers.";
      user = create_analysis_prompt title_text description_text;
      temperature_tenths = 3;
      max_tokens = 2000;
    })
    content ← choice_content answer
    ai_response ← as_text content
    analysis ← parse_ai_response ai_response
    returns (sent analysis host.now)

  unfoldable pub analyze_body : Host → Option (Value N) → Outcome (Reply (Analysis N))
  analyze_body host body = body_prop (codes "title") body >>= λ title.
      body_prop (codes "description") body >>= λ description.
      if not (truthy title) || not (truthy description)
      then returns (bad_request false "Title and description are required")
      else if is_empty host.api_key
      then returns (no_api_key false)
      else analyze_call host title description

  unfoldable pub analyze : Host → Option (Value N) → Reply (Analysis N)
  unfolding analyze_body
  analyze host body =
      attempt (analyze_body host body) (crashed e false "Analysis failed" "ANALYSIS_FAILED")

  -- POST /api/proposals/debate-simulation
  unfoldable pub debate_call :
      Host → Option (Value N) → Option (Value N) → Outcome (Reply (List (Persona N)))
  debate_call host title content = do
    title_text ← to_text title
    content_text ← to_text content
    log ← as_text title
    answer ← chat {N = N} host (record {
      bearer = host.api_key;
      system =
          codes
            "You are a professional DAO governance expert who facilitates constructive debate by representing multiple stakeholder perspectives. Always provide consistent, structured responses in valid JSON format without markdown wrappers.";
      user = create_debate_simulation_prompt title_text content_text;
      temperature_tenths = 4;
      max_tokens = 3000;
    })
    reply ← choice_content answer
    ai_response ← as_text reply
    personas ← parse_debate_simulation_response ai_response
    returns (sent personas host.now)

  unfoldable pub debate_body : Host → Option (Value N) → Outcome (Reply (List (Persona N)))
  debate_body host body = body_prop (codes "title") body >>= λ title.
      body_prop (codes "content") body >>= λ content.
      if not (truthy title) || not (truthy content)
      then returns (bad_request false "Title and content are required")
      else if is_empty host.api_key
      then returns (no_api_key false)
      else debate_call host title content

  unfoldable pub debate_simulation : Host → Option (Value N) → Reply (List (Persona N))
  unfolding debate_body
  debate_simulation host body =
      attempt (debate_body host body)
        (crashed e true "Debate simulation failed" "DEBATE_SIMULATION_FAILED")

  -- POST /api/proposals/draft-with-committee
  unfoldable pub draft_with_committee_call :
      Host → Option (Value N) → Items N → Outcome (Reply (DraftWithCommittee N))
  draft_with_committee_call host idea committees =
      create_committee_suggestion_prompt idea committees >>= λ prompt. as_text idea >>= λ log.
      chat {N = N} host (record {
        bearer = host.api_key;
        system =
            codes
              "You are an expert assistant for a Decentralized Autonomous Organization (DAO). You help transform raw ideas into formal, well-structured proposal drafts and suggest the most appropriate committee for review. Always respond with valid JSON format without markdown wrappers.";
        user = prompt;
        temperature_tenths = 3;
        max_tokens = 2500;
      })
      >>= λ answer. optional_content answer >>= λ content.
          if not (truthy content)
          then throws (error (codes "No content received from DeepSeek API"))
          else as_text content >>= λ text.
              parse_committee_suggestion_response text committees >>= λ result.
              returns (sent result host.now)

  unfoldable pub draft_with_committee_body :
      Host → Option (Value N) → Outcome (Reply (DraftWithCommittee N))
  draft_with_committee_body host body = body_prop (codes "idea") body >>= λ idea.
      body_prop (codes "committees") body >>= λ committees.
      if not (truthy idea)
      then returns (bad_request true "Idea parameter is required")
      else elim committees [
        | some (arr cs) ↦
            if is_empty host.api_key
            then returns (no_api_key true)
            else draft_with_committee_call host idea cs
        | _ ↦ returns (bad_request true "Committees parameter is required and must be an array")
      ]

  unfoldable pub draft_with_committee : Host → Option (Value N) → Reply (DraftWithCommittee N)
  unfolding draft_with_committee_body
  draft_with_committee host body = attempt (draft_with_committee_body host body) (
      crashed e true "Failed to generate proposal draft with committee suggestion"
        "DRAFT_GENERATION_FAILED")

  -- POST /api/proposals/draft
  unfoldable pub draft_call : Host → Option (Value N) → Outcome (Reply (Draft N))
  draft_call host idea = do
    idea_text ← to_text idea
    log ← as_text idea
    answer ← chat {N = N} host (record {
      bearer = host.api_key;
      system =
          codes
            "You are an expert assistant for a Decentralized Autonomous Organization (DAO). You help transform raw ideas into formal, well-structured proposal drafts. Always respond with valid JSON format without markdown wrappers.";
      user = create_draft_prompt idea_text;
      temperature_tenths = 3;
      max_tokens = 2000;
    })
    content ← choice_content answer
    ai_response ← as_text content
    draft ← parse_draft_response ai_response
    returns (sent draft host.now)

  unfoldable pub draft_body : Host → Option (Value N) → Outcome (Reply (Draft N))
  draft_body host body = body_prop (codes "idea") body >>= λ idea.
      if not (truthy idea)
      then returns (bad_request false "Idea parameter is required")
      else if is_empty host.api_key
      then returns (no_api_key false)
      else draft_call host idea

  unfoldable pub draft : Host → Option (Value N) → Reply (Draft N)
  unfolding draft_body
  draft host body =
      attempt (draft_body host body)
        (crashed e true "Draft generation failed" "DRAFT_GENERATION_FAILED")

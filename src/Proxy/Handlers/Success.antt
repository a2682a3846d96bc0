-- ===== src/Proxy/Handlers/Success.antt =====
-- What a reply of status 200 holds, when it is sent, and what a failing model's service leads to.
use ic_govmind.Base.{
  ℕ, ◌≡◌, ◌∙◌, true, false, not, ◌||◌, Option, some, ◌++◌, returns, throws, error, attempt, Ensures,
  Ensures-bind, Ensures-attempt, Bool-cases, inl, inr, if◌then◌else◌,
}
use ic_govmind.Js.Text.{Text, codes, is_empty}
use ic_govmind.Js.Text.Laws.{Lacks}
use ic_govmind.Js.Decimal.{decimal}
use ic_govmind.Js.Value.{Value, str, Engine, truthy, to_text, message}
use ic_govmind.Proxy.Host.{
  ChatRequest, answered, Host, Reply, sent, failed, body_prop, as_text, chat, choice_content,
  crashed, is_ok,
}
use ic_govmind.Proxy.Analysis.{Analysis, parse_ai_response, analysis_of, rethrow}
use ic_govmind.Proxy.Analysis.Laws.{
  AllScores, parse_ai_response-AllScores, parse_ai_response-braced,
}
use ic_govmind.Proxy.Extract.Surrounded.{braced}
use ic_govmind.Proxy.Handlers.{analyze_call, analyze_body, analyze}

-- `P` holds of the body of a reply that is no failure.
abbrev pub Sends : {A : Type 0} → (A → Type 0) → Reply A → Type 0
Sends P (sent a now) = P a
Sends P (failed status f) = Unit

module _ {N : Type 0} ⦃e : Engine N⦄ where
  analyze_call-Sends :
      (host : Host) (title description : Option (Value N))
      → Ensures (Sends AllScores) (analyze_call host title description)
  unfolding analyze_call
  analyze_call-Sends host title description =
      let P = Sends AllScores in
      Ensures-bind P (to_text title) _ λ t _. Ensures-bind P (to_text description) _ λ d _.
        Ensures-bind P (as_text title) _ λ log _. Ensures-bind P (chat {N = N} host _) _ λ answer _.
          Ensures-bind P (choice_content answer) _ λ content _.
            Ensures-bind P (as_text content) _ λ ai _.
              Ensures-bind P (parse_ai_response ai) _ λ a h. parse_ai_response-AllScores ai a h

  analyze_body-Sends :
      (host : Host) (body : Option (Value N)) → Ensures (Sends AllScores) (analyze_body host body)
  unfolding analyze_body
  analyze_body-Sends host body =
      let P = Sends AllScores in
      Ensures-bind P (body_prop (codes "title") body) _ λ title _.
        Ensures-bind P (body_prop (codes "description") body) _ λ description _.
          elim (Bool-cases (not (truthy title) || not (truthy description))) [
            | inl missing ↦ rw missing tt
            | inr given ↦ elim (Bool-cases (is_empty host.api_key)) [
              | inl none_set ↦ rw (given, none_set) tt
              | inr set ↦ rw (given, set) (analyze_call-Sends host title description)
            ]
          ]

  analyze-Sends : (host : Host) (body : Option (Value N)) → Sends AllScores (analyze host body)
  unfolding analyze
  analyze-Sends host body =
      Ensures-attempt (Sends AllScores) (analyze_body host body) _ (analyze_body-Sends host body)
        (λ t. tt)

  -- Whatever the request and the model's answer, every score of an analysis that the service sends
  -- is a number from 1 to 10, or NaN.
  pub analyze-AllScores :
      (host : Host) (body : Option (Value N)) (a : Analysis N) (now : Text)
      → analyze host body ≡ sent a now
      → AllScores a
  analyze-AllScores host body a now h = rw h at (analyze-Sends host body)

  -- A request with a title and a description that are texts and not empty, at a host with a key.
  pub record IsGiven (host : Host) (body : Option (Value N)) (title description : Text)
      : Type 0 where
    pub title_given : body_prop (codes "title") body ≡ returns (some (str title))
    pub description_given : body_prop (codes "description") body ≡ returns (some (str description))
    pub title_set : is_empty title ≡ false
    pub description_set : is_empty description ≡ false
    pub key_set : is_empty host.api_key ≡ false

  analyze_of_given :
      (host : Host) (body : Option (Value N)) (title description : Text)
      → IsGiven host body title description
      → analyze host body
        ≡ attempt
            (analyze_call host (some (str title)) (some (str description)))
            (crashed e false "Analysis failed" "ANALYSIS_FAILED")
  unfolding analyze truthy
  analyze_of_given host body title description g =
      rw (g.title_given, g.description_given, g.title_set, g.description_set, g.key_set)

  pub chat_of_status :
      (host : Host) (r : ChatRequest) (status : ℕ) (text : Text)
      → host.fetch r ≡ answered status (returns text)
      → chat {N = N} host r ≡ (
          if is_ok status
          then e.json_parse text
          else throws (error (codes "DeepSeek API error: " ++ decimal status)))
  unfolding chat
  chat_of_status host r status text answers = rw (answers, chat)

  -- Where the model's service answers with an error status, the reply is a 500 whose details name
  -- that status.
  pub analyze_of_error_status :
      (host : Host) (body : Option (Value N)) (title description : Text) (status : ℕ) (text : Text)
      → IsGiven host body title description
      → ((r : ChatRequest) → host.fetch r ≡ answered status (returns text))
      → is_ok status ≡ false
      → analyze host body
        ≡ failed 500 (record {
          success_false = false;
          failure = codes "Analysis failed";
          details = some (codes "DeepSeek API error: " ++ decimal status);
          failure_code = codes "ANALYSIS_FAILED";
        })
  unfolding analyze_call to_text as_text message
  analyze_of_error_status host body title description status text g answers bad =
      analyze_of_given host body title description g
      ∙ rw (analyze_call, chat_of_status host _ status text (answers _), bad)

  -- The handler succeeds: where the service answers with a choice whose content is an object text
  -- with prose or fences around it, which parses to an analysis, that analysis is sent.
  pub analyze_of_answer :
      (host : Host) (body : Option (Value N)) (title description : Text) (status : ℕ)
      (text p m s : Text) (answer v : Value N) (a : Analysis N)
      → IsGiven host body title description
      → ((r : ChatRequest) → host.fetch r ≡ answered status (returns text))
      → is_ok status ≡ true
      → e.json_parse text ≡ returns answer
      → choice_content answer ≡ returns (some (str (p ++ (braced m ++ s))))
      → Lacks b'{' p
      → Lacks b'}' s
      → e.json_parse (braced m) ≡ returns v
      → analysis_of v ≡ returns a
      → analyze host body ≡ sent a host.now
  unfolding analyze_call to_text as_text rethrow
  analyze_of_answer host body title description status text p m s answer v a g answers ok parsed
        chosen hp hs object good =
      analyze_of_given host body title description g
      ∙ rw (
        analyze_call,
        chat_of_status host _ status text (answers _),
        ok,
        parsed,
        chosen,
        parse_ai_response-braced p m s hp hs,
        object,
        good,
      )

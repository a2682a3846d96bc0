-- ===== src/Proxy/Handlers/Guards.antt =====
-- When the handlers refuse a request, and that a refused request costs no call of the model.
use ic_govmind.Base.{
  ℕ, ◌≡◌, ◌≢◌, refl, ◌↔◌, ◌⊎◌, inl, inr, true, false, Option, [], Outcome-cases, returns, Ensures,
  Ensures-bind, Ensures-attempt, Bool-cases, arith,
}
use ic_govmind.Js.Text.{Text, codes, is_empty}
use ic_govmind.Js.Value.{Value, Engine, truthy, to_text}
use ic_govmind.Proxy.Host.{
  ChatRequest, Fetched, Host, Reply, sent, failed, body_prop, as_text, chat, choice_content,
}
use ic_govmind.Proxy.Analysis.{Analysis, parse_ai_response}
use ic_govmind.Proxy.Handlers.{
  analyze_call, analyze, debate_simulation, draft_with_committee, draft,
}

abbrev keyless : Text → (ChatRequest → Fetched) → Host
keyless now fetch = record { api_key = []; now = now; fetch = fetch }

abbrev pub reply_status : {A : Type 0} → Reply A → ℕ
reply_status (sent a now) = 200
reply_status (failed status f) = status

module _ {N : Type 0} ⦃e : Engine N⦄ where
  -- Without an API key no handler asks the model: its reply is the same whatever the model's
  -- service would answer.
  pub keyless_handlers :
      (now : Text) (f g : ChatRequest → Fetched) (body : Option (Value N))
      → (analyze (keyless now f) body ≡ analyze (keyless now g) body)
        × (debate_simulation (keyless now f) body ≡ debate_simulation (keyless now g) body)
        × (draft_with_committee (keyless now f) body ≡ draft_with_committee (keyless now g) body)
        × (draft (keyless now f) body ≡ draft (keyless now g) body)
  unfolding analyze debate_simulation draft_with_committee draft
  keyless_handlers now f g body = (refl, refl, refl, refl)

  -- The title or the description is missing or falsy.
  abbrev pub IsMissing : Option (Value N) → Type 0
  IsMissing body =
      (title : Option (Value N)) × (description : Option (Value N)) × (body_prop (codes "title")
          body
        ≡ returns title)
      × (body_prop (codes "description") body ≡ returns description)
      × ((truthy title ≡ false) ⊎ (truthy description ≡ false))

  abbrev IsNot400 : Reply (Analysis N) → Type 0
  IsNot400 r = reply_status r ≢ 400

  analyze_call-IsNot400 :
      (host : Host) (title description : Option (Value N))
      → Ensures IsNot400 (analyze_call host title description)
  unfolding analyze_call
  analyze_call-IsNot400 host title description = Ensures-bind IsNot400 (to_text title) _ λ t _.
      Ensures-bind IsNot400 (to_text description) _ λ d _.
        Ensures-bind IsNot400 (as_text title) _ λ log _.
          Ensures-bind IsNot400 (chat {N = N} host _) _ λ answer _.
            Ensures-bind IsNot400 (choice_content answer) _ λ content _.
              Ensures-bind IsNot400 (as_text content) _
                λ ai _. Ensures-bind IsNot400 (parse_ai_response ai) _ λ a _. omega arith

  -- A 400 is answered exactly where the title or the description is missing or falsy.
  pub analyze_400_iff :
      (host : Host) (body : Option (Value N))
      → (reply_status (analyze host body) ≡ 400) ↔ IsMissing body
  unfolding analyze
  analyze_400_iff host body = (to, from)
    where
      accepted :
          (title description : Option (Value N))
          → body_prop (codes "title") body ≡ returns title
          → body_prop (codes "description") body ≡ returns description
          → truthy title ≡ true
          → truthy description ≡ true
          → reply_status (analyze host body) ≢ 400
      accepted title description ht hd yes_t yes_d =
          rw (ht, hd, yes_t, yes_d)
            (elim (Bool-cases (is_empty host.api_key)) [
              | inl none_set ↦ rw none_set (omega arith)
              | inr set ↦ rw set (
                  Ensures-attempt IsNot400 (analyze_call host title description) _
                    (analyze_call-IsNot400 host title description) (λ t. omega arith))
            ])

      to : reply_status (analyze host body) ≡ 400 → IsMissing body
      to h = elim (Outcome-cases (body_prop (codes "title") body)) [
        | inr (t, bad) ↦ absurd (omega (arith, (rw bad at h)))
        | inl (title, ht) ↦ elim (Outcome-cases (body_prop (codes "description") body)) [
          | inr (t, bad) ↦ absurd (omega (arith, (rw (ht, bad) at h)))
          | inl (description, hd) ↦ elim (Bool-cases (truthy title)) [
            | inr falsy ↦ (title, description, ht, hd, inl falsy)
            | inl yes_t ↦ elim (Bool-cases (truthy description)) [
              | inr falsy ↦ (title, description, ht, hd, inr falsy)
              | inl yes_d ↦ absurd (accepted title description ht hd yes_t yes_d h)
            ]
          ]
        ]
      ]

      from : IsMissing body → reply_status (analyze host body) ≡ 400
      from (title, description, ht, hd, inl falsy) = rw (ht, hd, falsy)
      from (title, description, ht, hd, inr falsy) = elim (Bool-cases (truthy title)) [
        | inl yes_t ↦ rw (ht, hd, yes_t, falsy)
        | inr no_t ↦ rw (ht, hd, no_t)
      ]

-- ===== src/Proxy/Handlers/Committee.antt =====
-- Which committee the service sends back, whatever the model answers.
use ic_govmind.Base.{
  ◌≡◌, ◌⊎◌, inl, inr, not, Option, some, returns, Ensures, Ensures-bind, Ensures-attempt,
  Bool-cases,
}
use ic_govmind.Js.Text.{Text, codes, is_empty}
use ic_govmind.Js.Value.{Value, null, arr, Items, Engine, truthy}
use ic_govmind.Proxy.Host.{Host, sent, body_prop, as_text, chat, optional_content}
use ic_govmind.Proxy.Draft.{DraftWithCommittee, parse_committee_suggestion_response}
use ic_govmind.Proxy.Draft.Laws.{IsItem, parse_committee_suggestion_response-HasItem}
use ic_govmind.Proxy.Prompts.{create_committee_suggestion_prompt}
use ic_govmind.Proxy.Handlers.{
  draft_with_committee_call, draft_with_committee_body, draft_with_committee,
}
use ic_govmind.Proxy.Handlers.Success.{Sends}

module _ {N : Type 0} ⦃e : Engine N⦄ (host : Host) where
  -- The committee is null or one of `cs`.
  abbrev HasItem : Items N → DraftWithCommittee N → Type 0
  HasItem cs d =
      (d.committee_suggestion.committee ≡ null) ⊎ IsItem d.committee_suggestion.committee cs

  draft_with_committee_call-Sends :
      (idea : Option (Value N)) (cs : Items N)
      → Ensures (Sends (HasItem cs)) (draft_with_committee_call host idea cs)
  unfolding draft_with_committee_call
  draft_with_committee_call-Sends idea cs =
      let P = Sends (HasItem cs) in
      Ensures-bind P (create_committee_suggestion_prompt idea cs) _ λ prompt _.
        Ensures-bind P (as_text idea) _ λ log _. Ensures-bind P (chat {N = N} host _) _ λ answer _.
          Ensures-bind P (optional_content answer) _ λ content _.
            elim (Bool-cases (not (truthy content))) [
              | inl empty ↦ rw empty tt
              | inr given ↦ rw given (
                  Ensures-bind P (as_text content) _ λ text _.
                    Ensures-bind P (parse_committee_suggestion_response text cs) _
                      λ d h. parse_committee_suggestion_response-HasItem text cs d h)
            ]

  draft_with_committee_body-Sends :
      (body : Option (Value N)) (cs : Items N)
      → body_prop (codes "committees") body ≡ returns (some (arr cs))
      → Ensures (Sends (HasItem cs)) (draft_with_committee_body host body)
  unfolding draft_with_committee_body
  draft_with_committee_body-Sends body cs listed =
      let P = Sends (HasItem cs) in
      Ensures-bind P (body_prop (codes "idea") body) _ λ idea _.
        rw listed (elim (Bool-cases (not (truthy idea))) [
          | inl missing ↦ rw missing tt
          | inr given ↦ elim (Bool-cases (is_empty host.api_key)) [
            | inl none_set ↦ rw (given, none_set) tt
            | inr set ↦ rw (given, set) (draft_with_committee_call-Sends idea cs)
          ]
        ])

  draft_with_committee-Sends :
      (body : Option (Value N)) (cs : Items N)
      → body_prop (codes "committees") body ≡ returns (some (arr cs))
      → Sends (HasItem cs) (draft_with_committee host body)
  unfolding draft_with_committee
  draft_with_committee-Sends body cs listed =
      Ensures-attempt (Sends (HasItem cs)) (draft_with_committee_body host body) _
        (draft_with_committee_body-Sends body cs listed) (λ t. tt)

  -- Whatever the model's service answers, the committee that a reply with a draft sends back is
  -- null or stands in the list of committees that the request has.
  pub draft_with_committee-HasItem :
      (body : Option (Value N)) (cs : Items N) (d : DraftWithCommittee N) (now : Text)
      → body_prop (codes "committees") body ≡ returns (some (arr cs))
      → draft_with_committee host body ≡ sent d now
      → (d.committee_suggestion.committee ≡ null) ⊎ IsItem d.committee_suggestion.committee cs
  draft_with_committee-HasItem body cs d now listed h =
      rw h at (draft_with_committee-Sends body cs listed)

-- ===== src/Proxy/Draft/Laws.antt =====
-- Which committee `parseCommitteeSuggestionResponse` suggests.
use ic_govmind.Base.{
  ◌≡◌, refl, ◌⊎◌, inl, inr, true, Option, none, some, Outcome, returns, throws, ◌>>=◌, Ensures,
  Ensures-bind, Ensures-returns, Bool-cases,
}
use ic_govmind.Js.Text.{Text, codes}
use ic_govmind.Js.Value.{Value, null, Items, nil, cons, Engine, prop, or_else, truthy}
use ic_govmind.Proxy.Extract.{clean_content}
use ic_govmind.Proxy.Analysis.Laws.{rethrow-eq-returns}
use ic_govmind.Proxy.Draft.{
  DraftWithCommittee, strict_eq, draft_of, find_committee, suggestion_of,
  parse_committee_suggestion_response,
}

module _ {N : Type 0} where
  -- `c` stands in the array.
  abbrev pub IsItem : Value N → Items N → Type 0
  IsItem c nil = ⊥
  IsItem c (cons v vs) = (c ≡ v) ⊎ IsItem c vs

module _ {N : Type 0} ⦃e : Engine N⦄ where
  -- `c` is one of the committees, and its id is the one that the answer suggests.
  abbrev pub IsSuggested : Value N → Items N → Value N → Type 0
  IsSuggested response committees c =
      IsItem c committees
      × (id : Option (Value N)) × (suggested : Option (Value N)) × (prop (codes "id") c
          ≡ returns id)
      × (prop (codes "suggested_committee_id") response ≡ returns suggested)
      × (strict_eq id suggested ≡ true)

  abbrev FoundIsSuggested : Value N → Items N → Option (Value N) → Type 0
  FoundIsSuggested response committees none = Unit
  FoundIsSuggested response committees (some c) = IsSuggested response committees c

  IsSuggested-cons :
      (response v : Value N) (vs : Items N) (found : Option (Value N))
      → FoundIsSuggested response vs found
      → FoundIsSuggested response (cons v vs) found
  IsSuggested-cons response v vs none h = tt
  IsSuggested-cons response v vs (some c) (listed, id, suggested, a, b, same) =
      (inr listed, id, suggested, a, b, same)

  find_committee_sound :
      (response : Value N) (vs : Items N)
      → Ensures (FoundIsSuggested response vs) (find_committee response vs)
  unfolding find_committee
  find_committee_sound response nil = tt
  find_committee_sound response (cons v vs) = Ensures-bind _ (prop (codes "id") v) _ λ id hid.
      Ensures-bind _ (prop (codes "suggested_committee_id") response) _ λ suggested hs.
        elim (Bool-cases (strict_eq id suggested)) [
          | inl same ↦ rw same (inl refl, id, suggested, hid, hs, same)
          | inr other ↦
              rw other (later (find_committee response vs) (find_committee_sound response vs))
        ]
    where
      later :
          (m : Outcome (Option (Value N)))
          → Ensures (FoundIsSuggested response vs) m
          → Ensures (FoundIsSuggested response (cons v vs)) m
      later (returns found) h = IsSuggested-cons response v vs found h
      later (throws t) h = tt

  -- The suggestion of an answer that was parsed to `response`.
  abbrev HasCommittee : Items N → Value N → DraftWithCommittee N → Type 0
  HasCommittee committees response d =
      (d.committee_suggestion.committee ≡ null)
      ⊎ IsSuggested response committees d.committee_suggestion.committee

  or_null :
      (response : Value N) (cs : Items N) (found : Option (Value N))
      → FoundIsSuggested response cs found
      → (or_else found null ≡ null) ⊎ IsSuggested response cs (or_else found null)
  unfolding or_else
  or_null response cs none h = inl refl
  or_null response cs (some c) h = elim (Bool-cases (truthy (some c))) [
    | inl kept ↦ inr (rw kept h)
    | inr dropped ↦ inl (rw dropped)
  ]

  suggestion_of-HasCommittee :
      (cs : Items N) (response : Value N)
      → Ensures (HasCommittee cs response) (suggestion_of cs response)
  unfolding suggestion_of
  suggestion_of-HasCommittee cs response =
      let P = HasCommittee cs response in
      Ensures-bind P (find_committee response cs) _ λ found hf.
        Ensures-bind P (draft_of response) _ λ draft _.
          Ensures-bind P (prop (codes "suggested_committee_id") response) _ λ id _.
            Ensures-bind P (prop (codes "committee_reasoning") response) _ λ reasoning _.
              or_null response cs found (
                Ensures-returns (FoundIsSuggested response cs) (find_committee response cs) found
                  (find_committee_sound response cs) hf)

  -- The committee that is sent back is null or stands in the request's list, with an id that is
  -- strictly equal to the one that the answer suggests.
  pub parse_committee_suggestion_response-IsSuggested :
      (content : Text) (cs : Items N) (response : Value N) (d : DraftWithCommittee N)
      → e.json_parse (clean_content content) ≡ returns response
      → parse_committee_suggestion_response content cs ≡ returns d
      → (d.committee_suggestion.committee ≡ null)
        ⊎ IsSuggested response cs d.committee_suggestion.committee
  unfolding parse_committee_suggestion_response
  parse_committee_suggestion_response-IsSuggested content cs response d parsed h =
      Ensures-returns (HasCommittee cs response) (suggestion_of cs response) d
        (suggestion_of-HasCommittee cs response)
        (rw parsed at
          (rethrow-eq-returns e _ (e.json_parse (clean_content content) >>= suggestion_of cs) d h))

  -- Without a word about the parsed answer: it is null or an item of the list.
  pub parse_committee_suggestion_response-HasItem :
      (content : Text) (cs : Items N) (d : DraftWithCommittee N)
      → parse_committee_suggestion_response content cs ≡ returns d
      → (d.committee_suggestion.committee ≡ null) ⊎ IsItem d.committee_suggestion.committee cs
  unfolding parse_committee_suggestion_response
  parse_committee_suggestion_response-HasItem content cs d h =
      Ensures-returns HasItem _ d
        (Ensures-bind HasItem (e.json_parse (clean_content content)) _ λ response _.
          forget response (suggestion_of cs response) (suggestion_of-HasCommittee cs response))
        (rethrow-eq-returns e _ (e.json_parse (clean_content content) >>= suggestion_of cs) d h)
    where
      HasItem : DraftWithCommittee N → Type 0
      HasItem x =
          (x.committee_suggestion.committee ≡ null) ⊎ IsItem x.committee_suggestion.committee cs

      forget :
          (response : Value N) (m : Outcome (DraftWithCommittee N))
          → Ensures (HasCommittee cs response) m
          → Ensures HasItem m
      forget response (returns x) (inl none_found) = inl none_found
      forget response (returns x) (inr (listed, _, _, _, _, _)) = inr listed
      forget response (throws t) h = tt

-- ===== src/Proxy/Draft.antt =====
-- src/ic_govmind_api_proxy/server.js: `parseDraftResponse` and `parseCommitteeSuggestionResponse`.
pub mod Laws
use ic_govmind.Base.{
  ◌==◌, Bool, true, false, not, ◌&&◌, Option, none, some, Outcome, returns, throws, ◌>>=◌,
}
use ic_govmind.Js.Text.{Text, codes, text_eq}
use ic_govmind.Js.Value.{Value, null, bool, num, str, Items, nil, cons, Engine, prop, or_else}
use ic_govmind.Proxy.Extract.{clean_content}
use ic_govmind.Proxy.Analysis.{rethrow}

pub record Draft (N : Type 0) : Type 0 where
  pub title : Value N
  pub summary : Value N
  pub rationale : Value N
  pub specifications : Value N

pub record Suggestion (N : Type 0) : Type 0 where
  pub committee_id : Value N
  pub committee : Value N
  pub reasoning : Value N

pub record DraftWithCommittee (N : Type 0) : Type 0 where
  pub draft : Draft N
  pub committee_suggestion : Suggestion N

abbrev same_bool : Bool → Bool → Bool
same_bool true b = b
same_bool false b = not b

module _ {N : Type 0} ⦃e : Engine N⦄ where
  -- `a === b` between a value of the request and one of the answer: arrays and objects of two
  -- texts are never the same object.
  unfoldable pub strict_eq : Option (Value N) → Option (Value N) → Bool
  strict_eq none none = true
  strict_eq (some null) (some null) = true
  strict_eq (some (bool a)) (some (bool b)) = same_bool a b
  strict_eq (some (num a)) (some (num b)) =
      not (e.is_nan a) && (not (e.is_nan b) && (not (e.lt a b) && not (e.lt b a)))
  strict_eq (some (str s)) (some (str t)) = text_eq s t
  strict_eq a b = false

  unfoldable pub draft_of : Value N → Outcome (Draft N)
  draft_of draft = do
    title ← prop (codes "title") draft
    summary ← prop (codes "summary") draft
    rationale ← prop (codes "rationale") draft
    specifications ← prop (codes "specifications") draft
    returns (record {
      title = or_else title (str (codes "Untitled Proposal"));
      summary = or_else summary (str (codes "No summary provided"));
      rationale = or_else rationale (str (codes "No rationale provided"));
      specifications = or_else specifications (str (codes "No specifications provided"));
    })

  unfoldable pub parse_draft_response : Text → Outcome (Draft N)
  parse_draft_response content =
      rethrow e (codes "Failed to parse draft response as JSON: ")
        (e.json_parse (clean_content content) >>= draft_of)

  -- `committees.find(c => c.id === response.suggested_committee_id)`.
  unfoldable pub find_committee : Value N → Items N → Outcome (Option (Value N))
  find_committee response nil = returns none
  find_committee response (cons c cs) = prop (codes "id") c >>= λ id.
      prop (codes "suggested_committee_id") response >>= λ suggested.
      elim (strict_eq id suggested) [ true ↦ returns (some c) | false ↦ find_committee response cs ]

  unfoldable pub suggestion_of : Items N → Value N → Outcome (DraftWithCommittee N)
  suggestion_of committees response = do
    suggested ← find_committee response committees
    draft ← draft_of response
    id ← prop (codes "suggested_committee_id") response
    reasoning ← prop (codes "committee_reasoning") response
    returns (record {
      draft = draft;
      committee_suggestion = record {
        committee_id = or_else id null;
        committee = or_else suggested null;
        reasoning = or_else reasoning (str (codes "No reasoning provided"));
      };
    })

  unfoldable pub parse_committee_suggestion_response :
      Text → Items N → Outcome (DraftWithCommittee N)
  parse_committee_suggestion_response content committees =
      rethrow e (codes "Failed to parse committee suggestion response as JSON: ")
        (e.json_parse (clean_content content) >>= suggestion_of committees)

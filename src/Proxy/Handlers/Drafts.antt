-- ===== src/Proxy/Handlers/Drafts.antt =====
-- When the draft handler succeeds, and with which draft.
use ic_govmind.Base.{ℕ, ◌≡◌, ◌∙◌, true, false, Option, some, ◌++◌, returns, attempt}
use ic_govmind.Js.Text.{Text, codes, is_empty}
use ic_govmind.Js.Text.Laws.{Lacks}
use ic_govmind.Js.Value.{Value, str, obj, Fields, Engine, prop, get_field, or_else, truthy, to_text}
use ic_govmind.Proxy.Extract.Surrounded.{braced, clean_content-braced}
use ic_govmind.Proxy.Analysis.{rethrow}
use ic_govmind.Proxy.Draft.{Draft, draft_of, parse_draft_response}
use ic_govmind.Proxy.Host.{
  ChatRequest, answered, Host, sent, body_prop, as_text, choice_content, crashed, is_ok,
}
use ic_govmind.Proxy.Handlers.{draft_call, draft}
use ic_govmind.Proxy.Handlers.Success.{chat_of_status}

module _ {N : Type 0} ⦃e : Engine N⦄ where
  -- A request with an idea that is a text and not empty, at a host with a key.
  pub record HasIdea (host : Host) (body : Option (Value N)) (idea : Text) : Type 0 where
    pub idea_given : body_prop (codes "idea") body ≡ returns (some (str idea))
    pub idea_set : is_empty idea ≡ false
    pub key_set : is_empty host.api_key ≡ false

  draft_of_idea :
      (host : Host) (body : Option (Value N)) (idea : Text)
      → HasIdea host body idea
      → draft host body
        ≡ attempt
            (draft_call host (some (str idea)))
            (crashed e true "Draft generation failed" "DRAFT_GENERATION_FAILED")
  unfolding draft truthy
  draft_of_idea host body idea g = rw (g.idea_given, g.idea_set, g.key_set)

  -- The draft that an object's fields give, with a standard text for a part that is falsy.
  abbrev pub filled : Fields N → Draft N
  filled fs = record {
    title = or_else (get_field (codes "title") fs) (str (codes "Untitled Proposal"));
    summary = or_else (get_field (codes "summary") fs) (str (codes "No summary provided"));
    rationale = or_else (get_field (codes "rationale") fs) (str (codes "No rationale provided"));
    specifications =
        or_else (get_field (codes "specifications") fs) (str (codes "No specifications provided"));
  }

  parse_of_draft :
      (p m s : Text) (fs : Fields N)
      → Lacks b'{' p
      → Lacks b'}' s
      → e.json_parse (braced m) ≡ returns (obj fs)
      → parse_draft_response (p ++ (braced m ++ s)) ≡ returns (filled fs)
  unfolding parse_draft_response rethrow draft_of prop
  parse_of_draft p m s fs hp hs object = rw (clean_content-braced p m s hp hs, object)

  -- The draft handler succeeds: where the service answers with a choice whose content is an object
  -- text with prose or fences around it, which parses to an object, the draft of that object's
  -- fields is sent, with a standard text for each part that is missing or falsy.
  pub draft_of_answer :
      (host : Host) (body : Option (Value N)) (idea : Text) (status : ℕ) (text p m s : Text)
      (answer : Value N) (fs : Fields N)
      → HasIdea host body idea
      → ((r : ChatRequest) → host.fetch r ≡ answered status (returns text))
      → is_ok status ≡ true
      → e.json_parse text ≡ returns answer
      → choice_content answer ≡ returns (some (str (p ++ (braced m ++ s))))
      → Lacks b'{' p
      → Lacks b'}' s
      → e.json_parse (braced m) ≡ returns (obj fs)
      → draft host body ≡ sent (filled fs) host.now
  unfolding draft_call to_text as_text
  draft_of_answer host body idea status text p m s answer fs g answers ok parsed chosen hp hs
        object =
      draft_of_idea host body idea g
      ∙ rw (
        draft_call,
        chat_of_status host _ status text (answers _),
        ok,
        parsed,
        chosen,
        parse_of_draft p m s fs hp hs object,
      )

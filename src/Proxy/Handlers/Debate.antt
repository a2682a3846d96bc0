-- ===== src/Proxy/Handlers/Debate.antt =====
-- When the debate handler succeeds.
use ic_govmind.Base.{ℕ, ◌≡◌, ◌∙◌, true, false, Option, some, List, ◌++◌, length, returns, attempt}
use ic_govmind.Js.Text.{Text, codes, is_empty}
use ic_govmind.Js.Text.Laws.{Lacks}
use ic_govmind.Js.Value.{Value, str, Engine, truthy, to_text}
use ic_govmind.Proxy.Extract.Surrounded.{braced, clean_content-braced}
use ic_govmind.Proxy.Analysis.{rethrow}
use ic_govmind.Proxy.Debate.{Persona, debate_of, parse_debate_simulation_response}
use ic_govmind.Proxy.Debate.Total.{IsDebate, debate_of_total}
use ic_govmind.Proxy.Host.{
  ChatRequest, answered, Host, sent, body_prop, as_text, choice_content, crashed, is_ok,
}
use ic_govmind.Proxy.Handlers.{debate_call, debate_simulation}
use ic_govmind.Proxy.Handlers.Success.{chat_of_status}

module _ {N : Type 0} ⦃e : Engine N⦄ where
  -- A request with a title and a content that are texts and not empty, at a host with a key.
  pub record IsAsked (host : Host) (body : Option (Value N)) (title content : Text) : Type 0 where
    pub title_given : body_prop (codes "title") body ≡ returns (some (str title))
    pub content_given : body_prop (codes "content") body ≡ returns (some (str content))
    pub title_set : is_empty title ≡ false
    pub content_set : is_empty content ≡ false
    pub key_set : is_empty host.api_key ≡ false

  debate_of_asked :
      (host : Host) (body : Option (Value N)) (title content : Text)
      → IsAsked host body title content
      → debate_simulation host body
        ≡ attempt
            (debate_call host (some (str title)) (some (str content)))
            (crashed e true "Debate simulation failed" "DEBATE_SIMULATION_FAILED")
  unfolding debate_simulation truthy
  debate_of_asked host body title content g =
      rw (g.title_given, g.content_given, g.title_set, g.content_set, g.key_set)

  parse_of_debate :
      (p m s : Text) (v : Value N) (ps : List (Persona N))
      → Lacks b'{' p
      → Lacks b'}' s
      → e.json_parse (braced m) ≡ returns v
      → debate_of v ≡ returns ps
      → parse_debate_simulation_response (p ++ (braced m ++ s)) ≡ returns ps
  unfolding parse_debate_simulation_response rethrow
  parse_of_debate p m s v ps hp hs object good = rw (clean_content-braced p m s hp hs, object, good)

  -- The debate handler succeeds with exactly four reviewers: where the service answers with a
  -- choice whose content is an object text with prose or fences around it, which parses to an
  -- object with a list of personas of which none is null.
  pub debate_simulation_of_answer :
      (host : Host) (body : Option (Value N)) (title content : Text) (status : ℕ)
      (text p m s : Text) (answer v : Value N)
      → IsAsked host body title content
      → ((r : ChatRequest) → host.fetch r ≡ answered status (returns text))
      → is_ok status ≡ true
      → e.json_parse text ≡ returns answer
      → choice_content answer ≡ returns (some (str (p ++ (braced m ++ s))))
      → Lacks b'{' p
      → Lacks b'}' s
      → e.json_parse (braced m) ≡ returns v
      → IsDebate v
      → (ps : List (Persona N)) × (debate_simulation host body ≡ sent ps host.now) × (length ps ≡ 4)
  unfolding debate_call to_text as_text
  debate_simulation_of_answer host body title content status text p m s answer v g answers ok parsed
        chosen hp hs object debate =
      let (ps, good, four) = debate_of_total v debate in
      (
        ps,
        debate_of_asked host body title content g
            ∙ rw (
              debate_call,
              chat_of_status host _ status text (answers _),
              ok,
              parsed,
              chosen,
              parse_of_debate p m s v ps hp hs object good,
            ),
        four,
      )

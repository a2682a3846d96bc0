-- ===== src/Proxy/Debate.antt =====
-- src/ic_govmind_api_proxy/server.js: `parseDebateSimulationResponse`, which makes exactly four
-- reviewers of what the model answered.
pub mod Laws
pub mod Total
use ic_govmind.Base.{
  ℕ, zero, suc, ◌+◌, Bool, true, false, Option, none, some, List, [], ◌∷◌, ◌++◌, ltb, if◌then◌else◌,
  length, take, Outcome, returns, throws, type_error, ◌>>=◌,
}
use ic_govmind.Js.Text.{Text, codes}
use ic_govmind.Js.Decimal.{decimal}
use ic_govmind.Js.Value.{Value, str, arr, Items, nil, cons, Engine, prop, or_else, truthy}
use ic_govmind.Proxy.Extract.{clean_content}
use ic_govmind.Proxy.Analysis.{rethrow}

pub record Persona (N : Type 0) : Type 0 where
  pub name : Value N
  pub icon : Value N
  pub core_argument : Value N
  pub objections : Value N
  pub actionable_suggestion : Value N

module _ {N : Type 0} where
  abbrev pub texts : Text → Value N
  texts t = arr (cons (str t) nil)

  -- `Array.isArray(v) ? v : [text]`.
  unfoldable pub array_or : Option (Value N) → Text → Value N
  array_or (some (arr vs)) t = arr vs
  array_or v t = texts t

  -- The reviewer that the loop adds to `count` others.
  unfoldable pub reviewer : ℕ → Persona N
  reviewer count = record {
    name = str (codes "Reviewer " ++ decimal (count + 1));
    icon = str (codes "Users");
    core_argument = str (codes "Additional review needed");
    objections = texts (codes "Insufficient analysis");
    actionable_suggestion = str (codes "Provide more detailed proposal information");
  }

  -- `while (personas.length < 4) personas.push(…)`. Four rounds are enough from any start.
  unfoldable pub fill : ℕ → List (Persona N) → List (Persona N)
  fill zero ps = ps
  fill (suc rounds) ps =
      let more = fill rounds (ps ++ reviewer (length ps) ∷ []) in
      if ltb (length ps) 4 then more else ps

module _ {N : Type 0} ⦃e : Engine N⦄ where
  unfoldable pub persona_of : Value N → Outcome (Persona N)
  persona_of persona = do
    name ← prop (codes "name") persona
    icon ← prop (codes "icon") persona
    argument ← prop (codes "coreArgument") persona
    objections ← prop (codes "objections") persona
    suggestion ← prop (codes "actionableSuggestion") persona
    returns (record {
      name = or_else name (str (codes "Anonymous Reviewer"));
      icon = or_else icon (str (codes "Users"));
      core_argument = or_else argument (str (codes "No argument provided"));
      objections = array_or objections (codes "No objections provided");
      actionable_suggestion = or_else suggestion (str (codes "No suggestion provided"));
    })

  unfoldable pub map_personas : Items N → Outcome (List (Persona N))
  map_personas nil = returns []
  map_personas (cons v vs) = do p ← persona_of v; ps ← map_personas vs; returns (p ∷ ps)

  -- `(v || []).map(…)`: a truthy value that is no array has no `map`.
  unfoldable pub personas_of : Option (Value N) → Outcome (List (Persona N))
  unfolding map_personas
  personas_of (some (arr vs)) = map_personas vs
  personas_of v = if truthy v then throws (type_error "map is not a function") else returns []

  unfoldable pub debate_of : Value N → Outcome (List (Persona N))
  debate_of result = do
    given ← prop (codes "personas") result
    personas ← personas_of given
    returns (take 4 (fill 4 personas))

  unfoldable pub parse_debate_simulation_response : Text → Outcome (List (Persona N))
  parse_debate_simulation_response content =
      rethrow e (codes "Failed to parse debate simulation response as JSON: ")
        (e.json_parse (clean_content content) >>= debate_of)

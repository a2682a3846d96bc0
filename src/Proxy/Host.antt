-- ===== src/Proxy/Host.antt =====
-- src/ic_govmind_api_proxy/server.js: what the four handlers share: the host that they run on,
-- their replies, and the call of the model's service.
use ic_govmind.Base.{
  ℕ, Bool, true, false, not, ◌||◌, ◌&&◌, Option, none, some, [], ◌∷◌, ◌++◌, leb, if◌then◌else◌,
  Outcome, returns, throws, Thrown, error, type_error, ◌>>=◌, String,
}
use ic_govmind.Js.Text.{Text, codes}
use ic_govmind.Js.Decimal.{decimal}
use ic_govmind.Js.Value.{
  Value, num, str, arr, obj, nil, cons, Engine, prop, get_field, truthy, message, optional_prop,
}

-- The body of the request to the model's service: what differs between the four handlers. The
-- temperature is in tenths.
pub record ChatRequest : Type 0 where
  pub bearer : Text
  pub system : Text
  pub user : Text
  pub temperature_tenths : ℕ
  pub max_tokens : ℕ

-- What `fetch` comes to: it rejects, or answers with a status and a body that may fail to arrive.
pub data Fetched : Type 0 where
  rejected : Thrown → Fetched
  answered : ℕ → Outcome Text → Fetched

-- `api_key` is empty where `DEEPSEEK_API_KEY` is not set. `now` is the time stamp of the reply.
pub record Host : Type 0 where
  pub api_key : Text
  pub now : Text
  pub fetch : ChatRequest → Fetched

pub record Failure : Type 0 where
  pub success_false : Bool
  pub failure : Text
  pub details : Option Text
  pub failure_code : Text

-- A reply of status 200 with its body, or of an error status. The metadata that some replies add
-- are constants and the time stamp.
pub data Reply (A : Type 0) : Type 0 where
  sent : A → Text → Reply A
  failed : ℕ → Failure → Reply A

abbrev pub bad_request : {A : Type 0} → Bool → String → Reply A
bad_request marked text = failed 400 (record {
  success_false = marked;
  failure = codes text;
  details = none;
  failure_code = codes "MISSING_PARAMETERS";
})

abbrev pub no_api_key : {A : Type 0} → Bool → Reply A
no_api_key marked = failed 500 (record {
  success_false = marked;
  failure = codes "DeepSeek API key not configured";
  details = none;
  failure_code = codes "API_KEY_MISSING";
})

abbrev pub crashed :
    {N : Type 0} {A : Type 0} → Engine N → Bool → String → String → Thrown → Reply A
crashed e marked text code t = failed 500 (record {
  success_false = marked;
  failure = codes text;
  details = some (message e t);
  failure_code = codes code;
})

-- `response.ok`.
abbrev pub is_ok : ℕ → Bool
is_ok status = leb 200 status && leb status 299

module _ {N : Type 0} where
  -- A member of `req.body`, which is undefined where no body was parsed.
  unfoldable pub body_prop : Text → Option (Value N) → Outcome (Option (Value N))
  body_prop key none = throws (type_error "Cannot destructure property of undefined")
  body_prop key (some v) = prop key v

  -- `v.substring(…)` and `v.trim()`: only a text has these methods.
  unfoldable pub as_text : Option (Value N) → Outcome Text
  as_text (some (str s)) = returns s
  as_text v = throws (type_error "not a function")

  -- `v.key` where `v` may be undefined.
  unfoldable pub member : Text → Option (Value N) → Outcome (Option (Value N))
  member key none = throws (type_error "Cannot read properties of undefined")
  member key (some v) = prop key v

  -- `v?.[0]`, and `v[0]` of a value that is not undefined or null.
  unfoldable pub first_of_value : Option (Value N) → Option (Value N)
  unfolding get_field
  first_of_value (some (arr (cons v vs))) = some v
  first_of_value (some (str (c ∷ s))) = some (str (c ∷ []))
  first_of_value (some (obj fs)) = get_field (codes "0") fs
  first_of_value v = none

module _ {N : Type 0} ⦃e : Engine N⦄ where
  -- `v.length === 0` of a truthy value.
  unfoldable pub has_no_length : Option (Value N) → Bool
  unfolding get_field
  has_no_length (some (arr nil)) = true
  has_no_length (some (obj fs)) = elim (get_field (codes "length") fs) [
    | some (num n) ↦ not (e.is_nan n) && not (e.lt n (e.of_nat 0) || e.lt (e.of_nat 0) n)
    | _ ↦ false
  ]
  has_no_length v = false

  -- From `fetch` to `await response.json()`.
  unfoldable pub chat : Host → ChatRequest → Outcome (Value N)
  chat host request = elim (host.fetch request) [
    | rejected t ↦ throws t
    | answered status text ↦ text >>= λ body.
        if is_ok status
        then e.json_parse body
        else throws (error (codes "DeepSeek API error: " ++ decimal status))
  ]

  -- `data.choices[0].message.content`, after the test that there is a choice.
  unfoldable pub choice_content : Value N → Outcome (Option (Value N))
  choice_content answer = prop (codes "choices") answer >>= λ choices.
      if not (truthy choices) || has_no_length choices
      then throws (error (codes "No response from DeepSeek API"))
      else member (codes "message") (first_of_value choices) >>= member (codes "content")

  -- `data.choices?.[0]?.message?.content`.
  unfoldable pub optional_content : Value N → Outcome (Option (Value N))
  optional_content answer = do
    choices ← prop (codes "choices") answer
    returns
        (optional_prop (codes "content") (optional_prop (codes "message") (first_of_value choices)))

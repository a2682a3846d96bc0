-- ===== src/Js/Value.antt =====
-- The values that JSON texts stand for, and what the language does with them. `undefined` is the
-- `none` of `Option (Value N)`.
-- The numbers `N` (IEEE doubles), `JSON.parse` and the wording of the engine's own error messages
-- are an `Engine`, which everything that computes with them takes as an instance.
pub mod Clamp
pub mod Samples
use ic_govmind.Base.{
  ℕ, ◌≡◌, refl, Bool, true, false, not, ◌&&◌, ◌||◌, Option, none, some, List, [], ◌∷◌, ◌++◌, ltb,
  if◌then◌else◌, Outcome, returns, throws, Thrown, error, syntax_error, type_error, range_error,
  ◌>>=◌, String,
}
use ic_govmind.Js.Text.{Text, codes, text_eq, is_empty}

mutual
  pub data Value (N : Type 0) : Type 0 where
    null : Value N
    bool : Bool → Value N
    num : N → Value N
    str : Text → Value N
    arr : Items N → Value N
    obj : Fields N → Value N

  pub data Items (N : Type 0) : Type 0 where
    nil : Items N
    cons : Value N → Items N → Items N

  pub data Fields (N : Type 0) : Type 0 where
    end : Fields N
    field : Text → Value N → Fields N → Fields N

-- What the host gives. `number_of_text` is `Number(text)`, `text_of_number` is `String(number)`,
-- and `lt` is `<`, which is false where a side is NaN. The laws are those of IEEE doubles.
pub record Engine (N : Type 0) : Type 0 where
  pub of_nat : ℕ → N
  pub nan : N
  pub number_of_text : Text → N
  pub text_of_number : N → Text
  pub is_nan : N → Bool
  pub lt : N → N → Bool
  pub json_parse : Text → Outcome (Value N)
  pub describe : Thrown → Text
  pub is_nan-of_nat : (k : ℕ) → is_nan (of_nat k) ≡ false
  pub lt-of_nat : (a b : ℕ) → lt (of_nat a) (of_nat b) ≡ ltb a b
  pub lt_asymm : (x y : N) → lt x y ≡ true → lt y x ≡ false

-- The items of an array value as a list.
unfoldable pub items_list {ℓ} : {N : Type 0} {A : Type ℓ} → (Value N → A) → Items N → List A
items_list f nil = []
items_list f (cons v vs) = f v ∷ items_list f vs

module _ {N : Type 0} where
  -- A later field of the same name replaces an earlier one.
  unfoldable pub get_field : Text → Fields N → Option (Value N)
  get_field key end = none
  get_field key (field k v fs) = elim (get_field key fs) [
    | some w ↦ some w
    | none ↦ if text_eq k key then some v else none
  ]

  -- `v.key`, for keys that no built-in object has.
  unfoldable pub prop : Text → Value N → Outcome (Option (Value N))
  unfolding get_field
  prop key null = throws (type_error "Cannot read properties of null")
  prop key (obj fs) = returns (get_field key fs)
  prop key v = returns none

  -- `v?.key`.
  unfoldable pub optional_prop : Text → Option (Value N) → Option (Value N)
  unfolding get_field
  optional_prop key (some (obj fs)) = get_field key fs
  optional_prop key v = none

  abbrev pub is_array : Option (Value N) → Bool
  is_array (some (arr vs)) = true
  is_array v = false

module _ {N : Type 0} ⦃e : Engine N⦄ where
  -- `!!v`: of the numbers, 0 and NaN are falsy.
  unfoldable pub truthy : Option (Value N) → Bool
  truthy none = false
  truthy (some null) = false
  truthy (some (bool b)) = b
  truthy (some (num n)) = e.lt (e.of_nat 0) n || e.lt n (e.of_nat 0)
  truthy (some (str s)) = not (is_empty s)
  truthy (some (arr vs)) = true
  truthy (some (obj fs)) = true

  -- `v || other`.
  unfoldable pub or_else : Option (Value N) → Value N → Value N
  unfolding truthy
  or_else none other = other
  or_else (some v) other = if truthy (some v) then v else other

  -- `String(v)`, with `blank` for null: "null", or the empty text inside `join`.
  -- An object whose own `toString` is no function has no text.
  unfoldable mutual
    pub to_text_or : Text → Value N → Outcome Text
    to_text_or blank null = returns blank
    to_text_or blank (bool true) = returns (codes "true")
    to_text_or blank (bool false) = returns (codes "false")
    to_text_or blank (num n) = returns (e.text_of_number n)
    to_text_or blank (str s) = returns s
    to_text_or blank (arr vs) = join_items (codes ",") vs
    to_text_or blank (obj fs) = elim (get_field (codes "toString") fs) [
      | none ↦ returns (codes "[object Object]")
      | some f ↦ throws (type_error "Cannot convert object to primitive value")
    ]

    pub join_items : Text → Items N → Outcome Text
    join_items sep nil = returns []
    join_items sep (cons v nil) = to_text_or [] v
    join_items sep (cons v (cons w vs)) =
        to_text_or [] v >>= λ s. join_items sep (cons w vs) >>= λ t. returns (s ++ (sep ++ t))

  -- `${v}` and `String(v)`.
  unfoldable pub to_text : Option (Value N) → Outcome Text
  unfolding to_text_or get_field
  to_text none = returns (codes "undefined")
  to_text (some v) = to_text_or (codes "null") v

  -- `Number(v)`.
  unfoldable pub to_number : Value N → Outcome N
  unfolding to_text_or get_field
  to_number null = returns (e.of_nat 0)
  to_number (bool true) = returns (e.of_nat 1)
  to_number (bool false) = returns (e.of_nat 0)
  to_number (num n) = returns n
  to_number (str s) = returns (e.number_of_text s)
  to_number (arr vs) = do s ← join_items (codes ",") vs; returns (e.number_of_text s)
  to_number (obj fs) = elim (get_field (codes "toString") fs) [
    | none ↦ returns e.nan
    | some f ↦ throws (type_error "Cannot convert object to primitive value")
  ]

-- `error.message`.
unfoldable pub message : {N : Type 0} → Engine N → Thrown → Text
message e (error m) = m
message e (syntax_error m) = e.describe (syntax_error m)
message e (type_error m) = e.describe (type_error m)
message e (range_error m) = e.describe (range_error m)

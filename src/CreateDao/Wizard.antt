-- ===== src/CreateDao/Wizard.antt =====
-- src/ic_govmind_frontend/src/pages/CreateDaoPage.jsx: the steps of the form and their validation.

use ic_govmind.Base.{
  ℕ, ◌+◌, ◌-◌, Bool, true, false, not, Option, none, some, List, [], ◌∷◌, ◌++◌, if◌then◌else◌, ◌==◌,
}
use ic_govmind.Js.Text.{Text, codes, trim, is_empty}
use ic_govmind.Js.Integer.{parse_int, is_positive}
use ic_govmind.CreateDao.Form.{FormData}

-- The state of the page. An error is the field it belongs to and its text; `total_supply_error` is
-- one field that the later test overwrites.
pub record Page : Type 0 where
  pub form : FormData
  pub current_step : ℕ
  pub errors : List (Text × Text)
  pub is_creating : Bool
  pub show_success : Bool
  pub destination : Option Text

-- `[(field, text)]` where the test fails.
abbrev pub error_if : Bool → Text → Text → List (Text × Text)
error_if failed field text = if failed then (field, text) ∷ [] else []

-- `parseInt(totalSupply) <= 0`, which is false of NaN.
unfoldable pub is_nonpositive : Text → Bool
unfolding parse_int
is_nonpositive t = elim (parse_int t) [ none ↦ false | some n ↦ not (is_positive n) ]

unfoldable pub total_supply_error : Text → List (Text × Text)
unfolding is_nonpositive
total_supply_error t =
    if is_nonpositive t
    then (codes "totalSupply", codes "Total supply must be positive") ∷ []
    else error_if (is_empty t) (codes "totalSupply") (codes "Total supply is required")

unfoldable pub basic_errors : FormData → List (Text × Text)
unfolding total_supply_error trim
basic_errors form =
    error_if (is_empty (trim form.name)) (codes "name") (codes "DAO name is required")
    ++ (error_if (is_empty (trim form.base_token.name)) (codes "tokenName")
          (codes "Token name is required")
        ++ (error_if (is_empty (trim form.base_token.symbol)) (codes "tokenSymbol")
              (codes "Token symbol is required")
            ++ total_supply_error form.base_token.total_supply))

-- The errors that `validateStep` finds.
unfoldable pub step_errors : ℕ → FormData → List (Text × Text)
unfolding basic_errors
step_errors step form =
    if step == 1
    then basic_errors form
    else if step == 2
    then elim form.members [
      | [] ↦ (codes "members", codes "At least one member is required") ∷ []
      | _ ↦ []
    ]
    else if step == 3
    then elim form.chains [
      | [] ↦ (codes "chains", codes "At least one chain is required") ∷ []
      | _ ↦ []
    ]
    else []

abbrev pub has_none : List (Text × Text) → Bool
has_none [] = true
has_none (x ∷ xs) = false

-- The page with the errors set, and whether there are none.
unfoldable pub validate_step : ℕ → Page → Page × Bool
unfolding step_errors
validate_step step page =
    let found = step_errors step page.form in (record page { errors = found }, has_none found)

unfoldable pub handle_next : Page → Page
unfolding validate_step
handle_next page =
    let (checked, ok) = validate_step page.current_step page in
    if ok then record checked { current_step = page.current_step + 1 } else checked

-- The button is disabled on the first step.
unfoldable pub handle_back : Page → Page
handle_back page = record page { current_step = page.current_step - 1 }

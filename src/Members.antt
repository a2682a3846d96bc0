-- ===== src/Members.antt =====
-- src/ic_govmind_frontend/src/components/tabs/MembersTab.jsx: the tokens of each member that are
-- locked, and those that have come free. Amounts and times are candid naturals.
pub mod Laws
mod Tests
use ic_govmind.Base.{
  ℕ, ◌+◌, ◌-◌, ◌*◌, Bool, true, false, Option, none, some, List, [], ◌∷◌, leb, if◌then◌else◌, keep,
}
use ic_govmind.Js.Text.{Text, codes, text_eq, is_empty}

pub record Unlock : Type 0 where
  pub addr : Text
  pub timestamp : ℕ
  pub amount : ℕ

-- A stable `sort` by a number for each item. `number` is `Number` of a `bigint`, which rounds.
unfoldable pub insert_by : (ℕ → ℕ) → Unlock → List Unlock → List Unlock
insert_by number x [] = x ∷ []
insert_by number x (y ∷ ys) =
    let rest = insert_by number x ys in
    if leb (number x.timestamp) (number y.timestamp) then x ∷ y ∷ ys else y ∷ rest

unfoldable pub sort_by : (ℕ → ℕ) → List Unlock → List Unlock
unfolding insert_by
sort_by number [] = []
sort_by number (x ∷ xs) = insert_by number x (sort_by number xs)

-- `getMemberUnlockSchedule`: the schedule of the distribution model, where there is one, and the
-- text of the member's principal, where that is known.
unfoldable pub get_member_unlock_schedule :
    (ℕ → ℕ) → Option (Option (List Unlock)) → Option Text → List Unlock
unfolding sort_by
get_member_unlock_schedule number none principal = []
get_member_unlock_schedule number (some none) principal = []
get_member_unlock_schedule number (some (some schedule)) none = []
get_member_unlock_schedule number (some (some schedule)) (some principal) =
    if is_empty principal
    then []
    else sort_by number (keep (λ item. text_eq item.addr principal) schedule)

unfoldable pub get_total_locked_tokens : List Unlock → ℕ
get_total_locked_tokens [] = 0
get_total_locked_tokens (x ∷ xs) = x.amount + get_total_locked_tokens xs

-- `now` is `Date.now()` in milliseconds.
unfoldable pub get_available_tokens : ℕ → List Unlock → ℕ
get_available_tokens now [] = 0
get_available_tokens now (x ∷ xs) =
    let rest = get_available_tokens now xs in
    if leb x.timestamp (now * 1000000) then x.amount + rest else rest

-- `totalLocked - availableTokens`, which is a difference of `bigint`s and, as is proved, never
-- negative.
unfoldable pub pending_tokens : ℕ → List Unlock → ℕ
unfolding get_total_locked_tokens get_available_tokens
pending_tokens now xs = get_total_locked_tokens xs - get_available_tokens now xs

abbrev role_classes : List (Text × Text)
role_classes =
    (codes "Founder", codes "bg-purple-100 text-purple-800 border-purple-200")
    ∷ (codes "Council", codes "bg-blue-100 text-blue-800 border-blue-200")
    ∷ (codes "Contributor", codes "bg-green-100 text-green-800 border-green-200")
    ∷ (codes "Voter", codes "bg-orange-100 text-orange-800 border-orange-200")
    ∷ (codes "Observer", codes "bg-slate-100 text-slate-800 border-slate-200")
    ∷ []

unfoldable pub class_in : Text → List (Text × Text) → Text
class_in role [] = codes "bg-slate-100 text-slate-800 border-slate-200"
class_in role ((name, style) ∷ rest) = elim (text_eq name role) [
  | true ↦ style
  | false ↦ class_in role rest
]

unfoldable pub get_role_badge_class : Text → Text
unfolding class_in
get_role_badge_class role = class_in role role_classes

-- A role is missing, a text, or an object of which the first key counts.
pub data RoleField : Type 0 where
  no_role : RoleField
  role_text : Text → RoleField
  role_object : List Text → RoleField

unfoldable pub get_role_label : RoleField → Text
get_role_label no_role = codes "Unknown"
get_role_label (role_text []) = codes "Unknown"
get_role_label (role_text (c ∷ t)) = c ∷ t
get_role_label (role_object []) = codes "Unknown"
get_role_label (role_object (k ∷ ks)) = k

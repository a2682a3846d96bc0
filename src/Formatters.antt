-- ===== src/Formatters.antt =====
-- src/ic_govmind_frontend/src/utils/formatters.js: short forms of principals and identifiers.
pub mod Laws
mod Tests
use ic_govmind.Base.{
  ℕ, ◌+◌, Bool, true, false, Option, none, some, List, [], ◌∷◌, ◌++◌, leb, ltb, if◌then◌else◌,
  length, take,
}
use ic_govmind.Js.Text.{Text, codes, trim, slice_last, is_empty}
use ic_govmind.Js.Decimal.{decimal}

-- `${s.slice(0, head)}…${s.slice(-tail)}` with the mark between, for a positive `tail`.
abbrev pub shortened : Text → ℕ → ℕ → Text → Text
shortened mark head tail s = take head s ++ (mark ++ slice_last tail s)

-- `none` is undefined, null or what is no text.
unfoldable pub format_principal_short : Option Text → ℕ → ℕ → Text
format_principal_short none head tail = []
format_principal_short (some text) head tail =
    if is_empty text
    then []
    else if leb (length (trim text)) (head + tail)
    then trim text
    else shortened (codes "…") head tail (trim text)

-- The two fields that may hold a member's principal: `a || b || ''`.
abbrev pub first_text : Option Text → Option Text → Option Text
first_text none b = b
first_text (some []) b = b
first_text (some (c ∷ a)) b = some (c ∷ a)

unfoldable pub format_member_display_id : Option Text → Option Text → ℕ → Text
unfolding format_principal_short
format_member_display_id camel snake index =
    let short = format_principal_short (first_text camel snake) 8 4 in
    if is_empty short then codes "member-" ++ decimal (index + 1) else short

unfoldable pub shorten_id : Text → ℕ → ℕ → Text
shorten_id s head tail =
    if is_empty s
    then []
    else if ltb (head + tail) (length s)
    then shortened (codes "...") head tail s
    else s

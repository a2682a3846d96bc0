-- ===== src/Js/Text.antt =====
-- JavaScript strings as lists of UTF-16 code units, and the string methods that the sources call.
pub mod Laws
use Prim.Native.Char.{code}
use ic_govmind.Base.{
  ℕ, suc, ◌-◌, min, max, String, ◌≡◌, refl, Bool, true, false, ◌&&◌, ◌||◌, Option, none, some, List,
  [], ◌∷◌, ◌++◌, reverse, ltb, leb, ◌==◌, if◌then◌else◌, length, take, drop, replicate,
}

abbrev pub Text : Type 0
Text = List ℕ

-- The code points of a literal, which are its UTF-16 units when it has no astral character.
abbrev pub codes : String → Text
codes String.[] = []
codes (String.◌∷◌ c s) = code c ∷ codes s

-- `a === b` on strings.
unfoldable pub text_eq : Text → Text → Bool
text_eq [] [] = true
text_eq (a ∷ s) (b ∷ t) = (a == b) && text_eq s t
text_eq [] (b ∷ t) = false
text_eq (a ∷ s) [] = false

-- `!s`.
abbrev pub is_empty : Text → Bool
is_empty [] = true
is_empty (c ∷ s) = false

-- `s || other`.
abbrev pub or_text : Text → Text → Text
or_text s other = if is_empty s then other else s

-- What `trim` removes and `\s` matches.
unfoldable pub is_space : ℕ → Bool
is_space c =
    (leb 9 c && leb c 13)
    || (c == 32)
    || (c == 160)
    || (c == 0x1680)
    || (leb 0x2000 c && leb c 0x200a)
    || (c == 0x2028)
    || (c == 0x2029)
    || (c == 0x202f)
    || (c == 0x205f)
    || (c == 0x3000)
    || (c == 0xfeff)

unfoldable pub trim_start : Text → Text
unfolding is_space
trim_start [] = []
trim_start (c ∷ s) = if is_space c then trim_start s else c ∷ s

unfoldable pub trim_end : Text → Text
unfolding trim_start
trim_end s = reverse (trim_start (reverse s))

unfoldable pub trim : Text → Text
unfolding trim_start trim_end
trim s = trim_end (trim_start s)

-- What is left of a text behind a prefix; `none` where it does not start with it.
unfoldable pub strip_prefix : Text → Text → Option Text
strip_prefix [] s = some s
strip_prefix (p ∷ ps) [] = none
strip_prefix (p ∷ ps) (c ∷ s) = if p == c then strip_prefix ps s else none

unfoldable pub strip_suffix : Text → Text → Option Text
unfolding strip_prefix
strip_suffix p s = elim (strip_prefix (reverse p) (reverse s)) [
  | none ↦ none
  | some r ↦ some (reverse r)
]

-- `indexOf` and `lastIndexOf` of one character; `none` is -1.
unfoldable pub index_of : ℕ → Text → Option ℕ
index_of c [] = none
index_of c (x ∷ s) =
    if x == c then some 0 else elim (index_of c s) [ none ↦ none | some i ↦ some (suc i) ]

unfoldable pub last_index_of : ℕ → Text → Option ℕ
last_index_of c [] = none
last_index_of c (x ∷ s) = elim (last_index_of c s) [
  | some i ↦ some (suc i)
  | none ↦ if x == c then some 0 else none
]

-- `substring` swaps its ends where they are out of order.
unfoldable pub substring : ℕ → ℕ → Text → Text
substring a b s = take (max a b - min a b) (drop (min a b) s)

-- `s.slice(-n)` for a positive `n`.
unfoldable pub slice_last : ℕ → Text → Text
slice_last n s = drop (length s - n) s

-- `padStart` and `padEnd` with one character.
unfoldable pub pad_start : ℕ → ℕ → Text → Text
pad_start n c s = replicate (n - length s) c ++ s

unfoldable pub pad_end : ℕ → ℕ → Text → Text
pad_end n c s = s ++ replicate (n - length s) c

-- `split` by one character, as the part before the first cut and the parts behind it.
unfoldable pub split_head : ℕ → Text → Text × List Text
split_head sep [] = ([], [])
split_head sep (c ∷ s) =
    let (part, parts) = split_head sep s in
    if c == sep then ([], part ∷ parts) else (c ∷ part, parts)

unfoldable pub split : ℕ → Text → List Text
unfolding split_head
split sep s = let (part, parts) = split_head sep s in part ∷ parts

-- `join` of texts.
unfoldable pub join : Text → List Text → Text
join sep [] = []
join sep (t ∷ []) = t
join sep (t ∷ u ∷ ts) = t ++ (sep ++ join sep (u ∷ ts))

unfoldable pub is_digit : ℕ → Bool
is_digit c = leb b'0' c && leb c b'9'

-- `replace(/[^0-9]/g, "")`.
unfoldable pub only_digits : Text → Text
unfolding is_digit
only_digits [] = []
only_digits (c ∷ s) = if is_digit c then c ∷ only_digits s else only_digits s

-- `/^\d*$/`.
unfoldable pub all_digits : Text → Bool
unfolding is_digit
all_digits [] = true
all_digits (c ∷ s) = is_digit c && all_digits s

string_methods :
    (trim (codes "  a b\n") ≡ codes "a b")
    × (split b'.' (codes "1.2.") ≡ codes "1" ∷ codes "2" ∷ [] ∷ [])
    × (last_index_of b'b' (codes "abcb") ≡ some 3)
    × (substring 1 3 (codes "abcd") ≡ codes "bc")
    × (pad_start 4 b'0' (codes "12") ≡ codes "0012")
unfolding trim split last_index_of substring pad_start
string_methods = (refl, refl, refl, refl, refl)

-- `a <= b`, by units; also the order of byte strings.
unfoldable pub le_text : Text → Text → Bool
le_text [] bs = true
le_text (a ∷ as') [] = false
le_text (a ∷ as') (b ∷ bs) =
    let rest = le_text as' bs in if ltb a b then true else if a == b then rest else false

-- ===== src/Bullets.antt =====
-- `formatBulletPoints` of src/ic_govmind_frontend/src/pages/ProposalsPage.jsx, of
-- pages/ProposalListPage.jsx and of components/ProposalAnalysisPanel.jsx: how the numbered points of
-- an analysis are taken apart.
--
-- The patterns speak of digits, of the character before them and of those behind them, and a point's
-- text has no digit. So a text is read as its runs of digits, each with the text up to the next run.
-- A lazy `[^0-9]*?` before `(?=…)` then ends at the next run or at the end, or there is no match from
-- there; and a match that fails at the first digit of a run fails at the others too.
pub mod Runs
pub mod Laws
pub mod Bracketed
mod Tests
use ic_govmind.Base.{
  ℕ, zero, suc, ◌+◌, Bool, true, false, ◌&&◌, List, [], ◌∷◌, ◌++◌, map, length, drop, take, ltb,
  ◌==◌, if◌then◌else◌, ◌-◌,
}
use ic_govmind.Js.Text.{Text, is_digit, is_empty, trim, trim_start}

-- What comes before the first digit, and the runs.
abbrev pub Runs : Type 0
Runs = Text × List (Text × Text)

abbrev digit_before : ℕ → Text → List (Text × Text) → Runs
digit_before c [] ((digits, tail) ∷ runs) = ([], (c ∷ digits, tail) ∷ runs)
digit_before c [] [] = ([], (c ∷ [], []) ∷ [])
digit_before c (h ∷ head) runs = ([], (c ∷ [], h ∷ head) ∷ runs)

abbrev character_before : ℕ → Runs → Runs
character_before c (head, runs) = if is_digit c then digit_before c head runs else (c ∷ head, runs)

unfoldable pub number_runs : Text → Runs
number_runs [] = ([], [])
number_runs (c ∷ s) = character_before c (number_runs s)

abbrev starts_with : ℕ → Text → Bool
starts_with c [] = false
starts_with c (x ∷ s) = x == c

abbrev pub ends_with : ℕ → Text → Bool
ends_with c [] = false
ends_with c (x ∷ []) = x == c
ends_with c (x ∷ y ∷ s) = ends_with c (y ∷ s)

abbrev next_starts_with : ℕ → List (Text × Text) → Bool
next_starts_with c [] = true
next_starts_with c ((digits, tail) ∷ runs) = starts_with c tail

-- The points of `/(\d+)\.\s*([^0-9]*?)(?=\d+\.|$)/g`, of ProposalsPage.jsx.
unfoldable pub dotted_points : List (Text × Text) → List Text
dotted_points [] = []
dotted_points ((digits, tail) ∷ runs) =
    let rest = dotted_points runs in
    if starts_with b'.' tail && next_starts_with b'.' runs
    then trim_start (drop 1 tail) ∷ rest
    else rest

-- The text of a point before the parenthesis that opens the next one.
abbrev pub before_next : List (Text × Text) → Text → Text
before_next [] body = body
before_next (run ∷ runs) body = take (length body - 1) body

abbrev pub opens_next : List (Text × Text) → Text → Bool
opens_next [] body = true
opens_next ((digits, tail) ∷ runs) body = ends_with b'(' body && starts_with b')' tail

-- The points of `/\(\d+\)\s*([^0-9]*?)(?=\(\d+\)|$)/g`, of the other two; `before` is what stands
-- before the run.
unfoldable pub bracketed_points : Text → List (Text × Text) → List Text
bracketed_points before [] = []
bracketed_points before ((digits, tail) ∷ runs) =
    let rest = bracketed_points tail runs in
    if ends_with b'(' before && (starts_with b')' tail && opens_next runs (drop 1 tail))
    then trim_start (before_next runs (drop 1 tail)) ∷ rest
    else rest

-- `text.split(/(?:\d+\.\s*)/g)`, where `piece` is the part that is being read.
unfoldable pub pieces : Text → List (Text × Text) → List Text
pieces piece [] = piece ∷ []
pieces piece ((digits, tail) ∷ runs) =
    let cut = pieces (trim_start (drop 1 tail)) runs in
    let on = pieces (piece ++ (digits ++ tail)) runs in
    if starts_with b'.' tail then piece ∷ cut else on

-- The pieces of more than five characters, trimmed.
unfoldable pub long_pieces : List Text → List Text
long_pieces [] = []
long_pieces (s ∷ ss) =
    let rest = long_pieces ss in if ltb 5 (length (trim s)) then trim s ∷ rest else rest

pub record Bullet : Type 0 where
  pub number : ℕ
  pub content : Text

pub data Formatted : Type 0 where
  unchanged : Text → Formatted
  listed : List Bullet → Formatted

-- The points that are not blank, each with its place among all of them.
unfoldable pub bullets_from : ℕ → List Text → List Bullet
bullets_from index [] = []
bullets_from index (point ∷ points) =
    let rest = bullets_from (index + 1) points in
    if is_empty (trim point)
    then rest
    else (record { number = index + 1; content = trim point }) ∷ rest

unfoldable pub numbered_from : ℕ → List Text → List Bullet
numbered_from index [] = []
numbered_from index (s ∷ ss) =
    (record { number = index + 1; content = s }) ∷ numbered_from (index + 1) ss

-- Both forms of the function, behind the search for points.
unfoldable pub format_points : Text → List Text → Formatted
unfolding number_runs pieces long_pieces bullets_from numbered_from
format_points text points =
    let runs = number_runs text in
    let sentences = long_pieces (pieces runs.0 runs.1) in
    if is_empty text
    then unchanged text
    else if ltb 1 (length points)
    then listed (bullets_from 0 points)
    else if ltb 1 (length sentences)
    then listed (numbered_from 0 sentences)
    else unchanged text

unfoldable pub format_dotted : Text → Formatted
unfolding format_points dotted_points number_runs
format_dotted text = format_points text (dotted_points (number_runs text).1)

unfoldable pub format_bracketed : Text → Formatted
unfolding format_points bracketed_points number_runs
format_bracketed text =
    let runs = number_runs text in format_points text (bracketed_points runs.0 runs.1)

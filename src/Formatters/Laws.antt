-- ===== src/Formatters/Laws.antt =====
-- How long a short form is.
use ic_govmind.Base.{
  ℕ, ◌+◌, ◌-◌, ◌≤◌, ◌<◌, ◌≡◌, none, some, Option, ◌++◌, length, take, length-take, length-drop,
  length-append, arith,
}
use ic_govmind.Js.Text.{Text, codes, trim, slice_last}
use ic_govmind.Formatters.{shortened, format_principal_short, shorten_id}

length-shortened :
    (mark : Text) (head tail : ℕ) (s : Text)
    → head + tail ≤ length s
    → length (shortened mark head tail s) ≡ head + (length mark + tail)
unfolding slice_last
length-shortened mark head tail s h = omega (
  arith,
  length-append (take head s) (mark ++ slice_last tail s),
  length-append mark (slice_last tail s),
  length-take head s,
  length-drop (length s - tail) s,
)

-- Where the end that is kept is not empty, the short form of a principal is never longer than the two ends and the mark, and the short form
-- of an identifier never longer than the identifier or its two ends and three points.
pub length-format_principal_short :
    (o : Option Text) (s : Text) (head tail : ℕ)
    → 0 < tail
    → (length (format_principal_short o head tail) ≤ head + (1 + tail))
      × (length (shorten_id s head tail) ≤ head + (3 + tail))
unfolding format_principal_short shorten_id
length-format_principal_short o s head tail positive = (principal o, id)
  where
    principal : (o : Option Text) → length (format_principal_short o head tail) ≤ head + (1 + tail)
    principal none = omega arith
    principal (some t) = ground (arith, length-shortened (codes "…") head tail (trim t))

    id : length (shorten_id s head tail) ≤ head + (3 + tail)
    id = ground (arith, length-shortened (codes "...") head tail s)

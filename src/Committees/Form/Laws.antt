-- ===== src/Committees/Form/Laws.antt =====
-- What a change of a committee sends when nothing is changed.
use ic_govmind.Base.{
  Bool, true, Option, none, ℕ, ◌*◌, ◌/◌, ◌≤◌, max, ◌≡◌, ◌≢◌, ◌∙◌, refl, ap, false, not, some, List,
  [], ◌∷◌, ◌++◌, map, keep, returns, All, arith,
}
use ic_govmind.Js.Text.{Text, codes, trim, split, join, is_empty, is_space, or_text}
use ic_govmind.Js.Text.Laws.{Lacks, NoSpace, trim_of_NoSpace, split_at, split_of_Lacks}
use ic_govmind.Js.Decimal.{decimal}
use ic_govmind.Js.Decimal.Laws.{decimal-ne-nil}
use ic_govmind.Js.Integer.{pos, parse_int_10}
use ic_govmind.Js.Integer.Laws.{parse_int_10-decimal}
use ic_govmind.Committees.Kinds.{technical}
use ic_govmind.Committees.Form.{
  Principals, Doubles, Committee, Tab, line_break, parts, term_of, term_secs, principals_of,
  parse_members, update_arg, handle_start_update_committee, responsibilities_text, active_or_true,
}

-- A text that names a member on a line of its own.
pub record IsLine (t : Text) : Type 0 where
  pub given : is_empty t ≡ false
  pub no_space : NoSpace t
  pub no_comma : Lacks b',' t

line_break_of_Lacks : (t : Text) → Lacks b',' t → map line_break t ≡ t
line_break_of_Lacks [] h = refl
line_break_of_Lacks (c ∷ t) h = ground (arith, line_break_of_Lacks t (h.1))

no_break_char : (c : ℕ) → is_space c ≡ false → c ≢ b'\n'
unfolding is_space
no_break_char c h = ground arith

no_break : (t : Text) → NoSpace t → Lacks b'\n' t
no_break [] h = tt
no_break (c ∷ t) h = (no_break_char c (h.0), no_break t (h.1))

map-append : (s t : Text) → map line_break (s ++ t) ≡ map line_break s ++ map line_break t
map-append [] t = refl
map-append (c ∷ s) t = ap (λ r. line_break c ∷ r) (map-append s t)

split-join :
    (t : Text) (ts : List Text)
    → IsLine t
    → All IsLine ts
    → split b'\n' (map line_break (join (codes "\n") (t ∷ ts))) ≡ t ∷ ts
unfolding join
split-join t [] h hs =
    rw (line_break_of_Lacks t h.no_comma) (split_of_Lacks b'\n' t (no_break t h.no_space))
split-join t (u ∷ ts) h (hu, hs) =
    rw (map-append t, line_break_of_Lacks t h.no_comma)
      (split_at b'\n' t _ (no_break t h.no_space) ∙ ap (λ r. t ∷ r) (split-join u ts hu hs))

kept : (ts : List Text) → All IsLine ts → keep (λ s. not (is_empty s)) (map trim ts) ≡ ts
kept [] h = refl
kept (t ∷ ts) (h, hs) = rw (trim_of_NoSpace t h.no_space, h.given, kept ts hs)

no_parts : parts (join (codes "\n") []) ≡ []
unfolding join trim split
no_parts = refl

parts-join : (ts : List Text) → All IsLine ts → parts (join (codes "\n") ts) ≡ ts
parts-join [] h = no_parts
parts-join (t ∷ ts) (h, hs) =
    ap (λ r. keep (λ s. not (is_empty s)) (map trim r)) (split-join t ts h hs)
    ∙ kept (t ∷ ts) (h, hs)

or_text_of_given : (t other : Text) → t ≢ [] → or_text t other ≡ t
or_text_of_given [] other h = absurd (h refl)
or_text_of_given (c ∷ t) other h = refl

term_of_days :
    (doubles : Doubles) (n : ℕ)
    → 1 ≤ n
    → n * 86400 ≤ 9007199254740992
    → term_of doubles (some (pos n)) ≡ returns (n * 86400)
unfolding term_of
term_of_days doubles n h small =
    let least : max 1 n ≡ n = omega arith in
    let product : n * 24 * 3600 ≡ n * 86400 = omega arith in
    rw (
      least,
      doubles.round_exact n (omega arith),
      doubles.round_exact (n * 24) (omega arith),
      doubles.round_exact (n * 24 * 3600) (omega arith),
      product,
    )

-- A number of days that is written out is read as that many days.
pub term_secs-decimal :
    (doubles : Doubles) (n : ℕ)
    → 1 ≤ n
    → n * 86400 ≤ 9007199254740992
    → term_secs doubles (decimal n) ≡ returns (n * 86400)
unfolding term_secs
term_secs-decimal doubles n h small =
    ap (λ t. term_of doubles (parse_int_10 t))
      (or_text_of_given (decimal n) (codes "0") (decimal-ne-nil n))
    ∙ (ap (term_of doubles) (parse_int_10-decimal n) ∙ term_of_days doubles n h small)

always_active : (active : Option (List Bool)) → active_or_true active ≡ true
always_active none = refl
always_active (some bs) = refl

module _ {P : Type 0} (principals : Principals P) where
  -- What the tab shows of each member is a line that is read as that member.
  abbrev pub IsReadable : P → Type 0
  IsReadable p =
      IsLine (principals.to_text p) × (principals.from_text (principals.to_text p) ≡ returns p)

  principals_of_readable :
      (ps : List P) → All IsReadable ps → principals_of principals (map principals.to_text ps) ≡ ps
  unfolding principals_of
  principals_of_readable [] h = refl
  principals_of_readable (p ∷ ps) (h, hs) = rw (h.1, principals_of_readable ps hs)

  lines : (ps : List P) → All IsReadable ps → All IsLine (map principals.to_text ps)
  lines [] h = tt
  lines (p ∷ ps) (h, hs) = (h.0, lines ps hs)

  -- The members that the form for a change shows, one in a line, are the members that it sends, where
  -- each is shown as a text that is not empty, has no white space and no comma, and is read as that
  -- member.
  pub parse_members-join :
      (ps : List P)
      → All IsReadable ps
      → parse_members principals (join (codes "\n") (map principals.to_text ps)) ≡ ps
  unfolding parse_members
  parse_members-join ps h =
      ap (principals_of principals) (parts-join (map principals.to_text ps) (lines ps h))
      ∙ principals_of_readable ps h

  -- Opening a committee for a change and sending the form as it stands asks for the same members,
  -- where each is shown as a text that is not empty, has no white space and no comma, and is read as
  -- that member; for the term rounded down to whole days, but one day at least, where it is at most
  -- 2^53 seconds; and for the same text. The kind is the technical one whatever kind the committee
  -- has, and it is active whether it was or not.
  pub update_arg-handle_start_update_committee :
      (doubles : Doubles) (tab : Tab) (c : Committee P)
      → All IsReadable c.members
      → c.term_duration_secs ≤ 9007199254740992
      → update_arg principals doubles (handle_start_update_committee principals c tab)
        ≡ returns (record {
          committee_type = technical;
          members = c.members;
          term_duration_secs = max 1 (c.term_duration_secs / 86400) * 86400;
          active = true;
          responsibilities = responsibilities_text c.responsibilities;
        })
  unfolding update_arg handle_start_update_committee
  update_arg-handle_start_update_committee doubles tab c readable small = rw (
    term_secs-decimal doubles (max 1 (c.term_duration_secs / 86400)) (omega arith) (omega arith),
    parse_members-join c.members readable,
    always_active c.active,
  )

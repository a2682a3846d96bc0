-- ===== src/Js/Text/Laws.antt =====
-- Laws of the string methods: trimming, splitting at a separator and dropping what is no digit.
use ic_govmind.Base.{
  ℕ, ◌≡◌, ◌∙◌, ◌≢◌, refl, true, false, [], ◌∷◌, ◌++◌, reverse, arith, All, All-reverse, Bool, ◌||◌,
  not, some_of, reverse-cons,
}
use mathlib.Core.List.{reverse-reverse}
use ic_govmind.Js.Text.{
  Text, text_eq, is_space, is_empty, trim_start, trim, split_head, split, is_digit, only_digits,
  all_digits,
}

abbrev pub Lacks : ℕ → Text → Type 0
Lacks c = All (λ x. x ≢ c)

abbrev pub NoSpace : Text → Type 0
NoSpace = All (λ x. is_space x ≡ false)

pub text_eq_refl : (s : Text) → text_eq s s ≡ true
unfolding text_eq
text_eq_refl [] = refl
text_eq_refl (c ∷ s) = ground (arith, text_eq_refl s)

pub eq_of_text_eq : (s t : Text) → text_eq s t ≡ true → s ≡ t
unfolding text_eq
eq_of_text_eq [] [] h = refl
eq_of_text_eq [] (d ∷ t) h = cc
eq_of_text_eq (c ∷ s) [] h = cc
eq_of_text_eq (c ∷ s) (d ∷ t) h = ground (arith, eq_of_text_eq s t)

trim_start_of_NoSpace : (s : Text) → NoSpace s → trim_start s ≡ s
unfolding trim_start
trim_start_of_NoSpace [] h = refl
trim_start_of_NoSpace (c ∷ s) h = rw (h.0)

-- A text with no white space is trimmed to itself.
pub trim_of_NoSpace : (s : Text) → NoSpace s → trim s ≡ s
unfolding trim
trim_of_NoSpace s h =
    rw (trim_start_of_NoSpace s h, trim_start_of_NoSpace (reverse s) (All-reverse _ s h))
      (reverse-reverse s)

split_head_of_Lacks : (sep : ℕ) (s : Text) → Lacks sep s → split_head sep s ≡ (s, [])
unfolding split_head
split_head_of_Lacks sep [] h = refl
split_head_of_Lacks sep (c ∷ s) (hc, hs) = ground (arith, split_head_of_Lacks sep s hs)

pub split_of_Lacks : (sep : ℕ) (s : Text) → Lacks sep s → split sep s ≡ s ∷ []
unfolding split
split_of_Lacks sep s h = rw (split_head_of_Lacks sep s h)

split_head_at :
    (sep : ℕ) (s t : Text) → Lacks sep s → split_head sep (s ++ sep ∷ t) ≡ (s, split sep t)
unfolding split split_head
split_head_at sep [] t h = ground arith
split_head_at sep (c ∷ s) t (hc, hs) = ground (arith, split_head_at sep s t hs)

pub split_at : (sep : ℕ) (s t : Text) → Lacks sep s → split sep (s ++ sep ∷ t) ≡ s ∷ split sep t
unfolding split
split_at sep s t h = rw (split_head_at sep s t h)

pub only_digits_of_all_digits : (s : Text) → all_digits s ≡ true → only_digits s ≡ s
unfolding only_digits all_digits
only_digits_of_all_digits [] h = refl
only_digits_of_all_digits (c ∷ s) h = ground (arith, only_digits_of_all_digits s)

pub all_digits-only_digits : (s : Text) → all_digits (only_digits s) ≡ true
unfolding only_digits all_digits
all_digits-only_digits [] = refl
all_digits-only_digits (c ∷ s) = ground (arith, all_digits-only_digits s)

digit_no_space : (c : ℕ) → is_digit c ≡ true → is_space c ≡ false
unfolding is_digit is_space
digit_no_space c h = ground arith

pub digits-NoSpace : (s : Text) → all_digits s ≡ true → NoSpace s
unfolding all_digits
digits-NoSpace [] h = tt
digits-NoSpace (c ∷ s) h = (digit_no_space c (ground arith), digits-NoSpace s (ground arith))

pub digits-Lacks : (sep : ℕ) (s : Text) → is_digit sep ≡ false → all_digits s ≡ true → Lacks sep s
unfolding all_digits
digits-Lacks sep [] d h = tt
digits-Lacks sep (c ∷ s) d h = (ground arith, digits-Lacks sep s d (ground arith))

-- A character of the text is no white space.
abbrev pub shows : Text → Bool
shows = some_of (λ c. not (is_space c))

pub shows-append : (s t : Text) → shows (s ++ t) ≡ (shows s || shows t)
shows-append [] t = refl
shows-append (c ∷ s) t = ground (arith, shows-append s t)

shows-reverse : (s : Text) → shows (reverse s) ≡ shows s
shows-reverse [] = refl
shows-reverse (c ∷ s) =
    rw (reverse-cons, shows-append (reverse s) (c ∷ []), shows-reverse s) (ground arith)

shows-trim_start : (s : Text) → shows (trim_start s) ≡ shows s
unfolding trim_start
shows-trim_start [] = refl
shows-trim_start (c ∷ s) = ground (arith, shows-trim_start s)

not_empty : (s : Text) → shows s ≡ true → is_empty s ≡ false
not_empty [] h = cc
not_empty (c ∷ s) h = refl

-- Trimming leaves something of a text that is not all white space.
pub is_empty-trim : (s : Text) → shows s ≡ true → is_empty (trim s) ≡ false
unfolding trim
is_empty-trim s h = not_empty (trim s) (
    shows-reverse (trim_start (reverse (trim_start s)))
    ∙ shows-trim_start (reverse (trim_start s))
    ∙ shows-reverse (trim_start s)
    ∙ shows-trim_start s
    ∙ h)

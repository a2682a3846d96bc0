-- ===== src/Proxy/Extract/Surrounded.antt =====
-- The object is found whatever prose or fences surround it.
use mathlib.Core.Path.{subst}
use mathlib.Core.List.{reverse-append, reverse-cons, reverse-reverse}
use ic_govmind.Base.{
  ℕ, ◌+◌, ◌-◌, max, min, ◌≡◌, refl, ap, sym, ◌∙◌, true, false, none, some, ltb, [], ◌∷◌, ◌++◌,
  reverse, append_assoc, append-nil, arith, length, length-append, drop_append, take_append,
  All-reverse, Option-cases, Bool-cases, inl, inr,
}
use ic_govmind.Js.Text.{
  Text, codes, is_space, trim, trim_start, trim_end, strip_prefix, strip_suffix, index_of,
  last_index_of, substring,
}
use ic_govmind.Js.Text.Laws.{Lacks}
use ic_govmind.Proxy.Extract.{strip_fence_end, strip_fence, cut_braces, clean_content}

-- `u` is `c ∷ r` behind a text without `c`.
Front : ℕ → Text → Text → Type 0
Front c r u = (p : Text) × Lacks c p × (u ≡ p ++ c ∷ r)

trim_start-Front :
    (c : ℕ) (r p : Text) → is_space c ≡ false → Lacks c p → Front c r (trim_start (p ++ c ∷ r))
unfolding Front trim_start
trim_start-Front c r [] visible h = ([], tt, rw visible)
trim_start-Front c r (x ∷ p) visible h = elim (Bool-cases (is_space x)) [
  | inl space ↦ rw space (trim_start-Front c r p visible h.1)
  | inr other ↦ (x ∷ p, h, rw other)
]

strip_prefix-Front :
    (c : ℕ) (r f p u : Text)
    → Lacks c f
    → Lacks c p
    → strip_prefix f (p ++ c ∷ r) ≡ some u
    → Front c r u
unfolding Front strip_prefix
strip_prefix-Front c r [] p u hf hp e = (p, hp, cc)
strip_prefix-Front c r (x ∷ f) [] u hf hp e = absurd (ground arith)
strip_prefix-Front c r (x ∷ f) (y ∷ p) u hf hp e =
    strip_prefix-Front c r f p u hf.1 hp.1 (ground arith)

-- `u` is a text without an opening brace, the object `{ m }`, and a text without a closing one.
module _ (m : Text) where
  Wraps : Text → Type 0
  Wraps u =
      (p : Text) × (s : Text) × Lacks b'{' p × Lacks b'}' s × (u ≡ p ++ b'{' ∷ (m ++ b'}' ∷ s))

  Front-Wraps : (s u : Text) → Lacks b'}' s → Front b'{' (m ++ b'}' ∷ s) u → Wraps u
  unfolding Front Wraps
  Front-Wraps s u hs (p, hp, e) = (p, s, hp, hs, e)

  reverse-wrapped :
      (p s : Text)
      → reverse (p ++ b'{' ∷ (m ++ b'}' ∷ s)) ≡ reverse s ++ b'}' ∷ reverse (p ++ b'{' ∷ m)
  reverse-wrapped p s = simp (reverse-append, reverse-cons, append_assoc)

  Back-Wraps :
      (p u : Text) → Lacks b'{' p → Front b'}' (reverse (p ++ b'{' ∷ m)) u → Wraps (reverse u)
  unfolding Front Wraps
  Back-Wraps p u hp (s, hs, e) = (
    p,
    reverse s,
    hp,
    All-reverse _ s hs,
    rw e (simp (reverse-append, reverse-cons, reverse-reverse, append_assoc)),
  )

  trim_start-Wraps : (u : Text) → Wraps u → Wraps (trim_start u)
  unfolding Wraps
  trim_start-Wraps u (p, s, hp, hs, e) =
      Front-Wraps s (trim_start u) hs
        (rw e (trim_start-Front b'{' (m ++ b'}' ∷ s) p (unfold is_space in refl) hp))

  trim_end-Wraps : (u : Text) → Wraps u → Wraps (trim_end u)
  unfolding Wraps trim_end
  trim_end-Wraps u (p, s, hp, hs, e) = Back-Wraps p (trim_start (reverse u)) hp (
      rw (e, reverse-wrapped p s)
        (trim_start-Front b'}' (reverse (p ++ b'{' ∷ m)) (reverse s) (unfold is_space in refl)
          (All-reverse _ s hs)))

  trim-Wraps : (u : Text) → Wraps u → Wraps (trim u)
  unfolding trim
  trim-Wraps u w = trim_end-Wraps (trim_start u) (trim_start-Wraps u w)

  strip_prefix-Wraps : (f u r : Text) → Lacks b'{' f → Wraps u → strip_prefix f u ≡ some r → Wraps r
  unfolding Wraps
  strip_prefix-Wraps f u r hf (p, s, hp, hs, e) found =
      Front-Wraps s r hs (strip_prefix-Front b'{' (m ++ b'}' ∷ s) f p r hf hp (rw e at found))

  strip_suffix-Wraps : (f u r : Text) → Lacks b'}' f → Wraps u → strip_suffix f u ≡ some r → Wraps r
  unfolding Wraps strip_suffix
  strip_suffix-Wraps f u r hf (p, s, hp, hs, e) found =
      elim (Option-cases (strip_prefix (reverse f) (reverse u))) [
        | inl missed ↦ absurd (cc (rw (missed, strip_suffix) at found))
        | inr (q, hit) ↦
            let same : some (reverse q) ≡ some r = rw (hit, strip_suffix) at found in
            let here : reverse q ≡ r = cc in
            subst Wraps here (
              Back-Wraps p q hp (
                strip_prefix-Front b'}' (reverse (p ++ b'{' ∷ m)) (reverse f) (reverse s) q
                  (All-reverse _ f hf) (All-reverse _ s hs) (rw (e, reverse-wrapped p s) at hit)))
      ]

  strip_fence_end-Wraps : (u : Text) → Wraps u → Wraps (strip_fence_end u)
  unfolding strip_fence_end
  strip_fence_end-Wraps u w = elim (Option-cases (strip_suffix (codes "```") u)) [
    | inl missed ↦ rw (missed, strip_fence_end) w
    | inr (r, hit) ↦
        rw (hit, strip_fence_end)
          (trim_end-Wraps r (strip_suffix-Wraps (codes "```") u r (omega arith) w hit))
  ]

  strip_fence-Wraps : (u : Text) → Wraps u → Wraps (strip_fence u)
  unfolding strip_fence
  strip_fence-Wraps u w = elim (Option-cases (strip_prefix (codes "```json") u)) [
    | inr (r, hit) ↦
        rw (hit, strip_fence)
          (strip_fence_end-Wraps (trim_start r)
            (trim_start-Wraps r (strip_prefix-Wraps (codes "```json") u r (omega arith) w hit)))
    | inl missed ↦ elim (Option-cases (strip_prefix (codes "```") u)) [
      | inr (r, hit) ↦
          rw (missed, hit, strip_fence)
            (strip_fence_end-Wraps (trim_start r)
              (trim_start-Wraps r (strip_prefix-Wraps (codes "```") u r (omega arith) w hit)))
      | inl missed' ↦ rw (missed, missed', strip_fence) w
    ]
  ]

index_of-Lacks : (c : ℕ) (p r : Text) → Lacks c p → index_of c (p ++ c ∷ r) ≡ some (length p)
unfolding index_of
index_of-Lacks c [] r h = ground arith
index_of-Lacks c (x ∷ p) r h = ground (arith, index_of-Lacks c p r h.1)

last_index_of-none : (c : ℕ) (s : Text) → Lacks c s → last_index_of c s ≡ none
unfolding last_index_of
last_index_of-none c [] h = refl
last_index_of-none c (x ∷ s) h = ground (arith, last_index_of-none c s h.1)

last_index_of-Lacks :
    (c : ℕ) (p s : Text) → Lacks c s → last_index_of c (p ++ c ∷ s) ≡ some (length p)
unfolding last_index_of
last_index_of-Lacks c [] s h = ground (arith, last_index_of-none c s h)
last_index_of-Lacks c (x ∷ p) s h = ground (arith, last_index_of-Lacks c p s h)

substring_between : (p t s : Text) → substring (length p) (length p + length t) (p ++ (t ++ s)) ≡ t
unfolding substring
substring_between p t s =
    let low : min (length p) (length p + length t) ≡ length p = omega arith in
    let size : max (length p) (length p + length t) - length p ≡ length t = omega arith in
    rw (low, drop_append p (t ++ s), size) (take_append t s)

abbrev pub braced : Text → Text
braced m = b'{' ∷ (m ++ b'}' ∷ [])

cut_braces-Wraps : (m u : Text) → Wraps m u → cut_braces u ≡ braced m
unfolding Wraps cut_braces
cut_braces-Wraps m u (p, s, hp, hs, e) =
    let opened = p ++ b'{' ∷ m in
    let first : index_of b'{' u ≡ some (length p) =
      rw e (index_of-Lacks b'{' p (m ++ b'}' ∷ s) hp) in
    let whole : u ≡ opened ++ b'}' ∷ s = e ∙ sym (append_assoc p (b'{' ∷ m) (b'}' ∷ s)) in
    let last : last_index_of b'}' u ≡ some (length opened) =
      rw whole (last_index_of-Lacks b'}' opened s hs) in
    let size : length opened + 1 ≡ length p + length (braced m) =
      omega (arith, length-append p (b'{' ∷ m), length-append m (b'}' ∷ [])) in
    let ordered : ltb (length p) (length opened) ≡ true =
      ground (arith, length-append p (b'{' ∷ m)) in
    let parts : u ≡ p ++ (braced m ++ s) = e ∙ simp append_assoc in
    rw (cut_braces, first, last, ordered, size, parts) (substring_between p (braced m) s)

-- Whatever prose, white space or fences surround an object text, exactly that text is cut out, if
-- no opening brace stands before it and no closing one behind it.
pub clean_content-braced :
    (p m s : Text) → Lacks b'{' p → Lacks b'}' s → clean_content (p ++ (braced m ++ s)) ≡ braced m
unfolding clean_content
clean_content-braced p m s hp hs =
    let start : Wraps m (p ++ (braced m ++ s)) =
      unfold Wraps in (p, s, hp, hs, simp append_assoc) in
    cut_braces-Wraps m _ (strip_fence-Wraps m _ (trim-Wraps m _ start))

pub clean_content_of_braced : (m : Text) → clean_content (braced m) ≡ braced m
clean_content_of_braced m =
    ap clean_content (sym (append-nil (braced m))) ∙ clean_content-braced [] m [] tt tt

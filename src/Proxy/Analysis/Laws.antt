-- ===== src/Proxy/Analysis/Laws.antt =====
-- What `parseAIResponse` guarantees of the analysis.
use ic_govmind.Base.{
  ℕ, ◌≡◌, refl, ap, ◌∙◌, ◌⊎◌, inl, inr, true, false, Option, some, ◌++◌, Outcome, returns, throws,
  Thrown, error, ◌>>=◌, Ensures, Ensures-bind, Ensures-returns, Bool-cases, ◌∷◌,
}
use ic_govmind.Js.Text.{Text, codes}
use ic_govmind.Js.Text.Laws.{Lacks}
use ic_govmind.Js.Value.{
  Value, null, num, str, Engine, message, or_else, optional_prop, to_number, prop,
}
use ic_govmind.Js.Value.Clamp.{clamp, InRange, clamp-InRange, clamp_of_nan}
use ic_govmind.Proxy.Extract.{clean_content}
use ic_govmind.Proxy.Extract.Surrounded.{braced, clean_content-braced}
use ic_govmind.Proxy.Analysis.{
  Breakdown, Analysis, rethrow, convert_to_string, score_or_default, breakdown_score, breakdown_of,
  analysis_of, parse_ai_response,
}

pub rethrow-eq-returns {ℓ} :
    {N : Type 0} {A : Type ℓ} (e : Engine N) (prefix : Text) (m : Outcome A) (a : A)
    → rethrow e prefix m ≡ returns a
    → m ≡ returns a
unfolding rethrow
rethrow-eq-returns e prefix (returns b) a h = h
rethrow-eq-returns e prefix (throws t) a h = cc

pub rethrow-eq-throws {ℓ} :
    {N : Type 0} {A : Type ℓ} (e : Engine N) (prefix : Text) (m : Outcome A) (t : Thrown)
    → rethrow e prefix m ≡ throws t
    → (s : Text) × (t ≡ error (prefix ++ s))
unfolding rethrow
rethrow-eq-throws e prefix (returns b) t h = cc
rethrow-eq-throws e prefix (throws u) t h = (message e u, cc)

pub five_InRange : {N : Type 0} (e : Engine N) → InRange ⦃e = e⦄ (e.of_nat 5)
five_InRange e = (e.lt-of_nat 5 1 ∙ refl, e.lt-of_nat 10 5 ∙ refl)

module _ {N : Type 0} ⦃e : Engine N⦄ where
  -- NaN, or a number from 1 to 10.
  abbrev pub IsScore : N → Type 0
  IsScore n = (e.is_nan n ≡ true) ⊎ ((e.is_nan n ≡ false) × InRange n)

  clamp-IsScore : (n : N) → IsScore (clamp n)
  clamp-IsScore n = elim (Bool-cases (e.is_nan n)) [
    | inl bad ↦ inl (rw (clamp_of_nan n bad) bad)
    | inr real ↦ let h = clamp-InRange n real in inr (h.1, h.0)
  ]

  score_or_default-IsScore : (v : Option (Value N)) → IsScore (score_or_default v)
  unfolding score_or_default
  score_or_default-IsScore (some (num n)) = clamp-IsScore n
  score_or_default-IsScore (some null) = inr (e.is_nan-of_nat 5, five_InRange e)
  score_or_default-IsScore _ = inr (e.is_nan-of_nat 5, five_InRange e)

  breakdown_score-IsScore :
      (key : Text) (b : Option (Value N)) → Ensures IsScore (breakdown_score key b)
  unfolding breakdown_score
  breakdown_score-IsScore key b =
      Ensures-bind IsScore (to_number (or_else (optional_prop key b) (num (e.of_nat 5)))) _
        (λ n _. clamp-IsScore n)

  -- The five scores of an analysis.
  abbrev pub HasScores : Breakdown N → Type 0
  HasScores b =
      IsScore b.technical_complexity
      × IsScore b.financial_complexity
      × IsScore b.governance_complexity
      × IsScore b.timeline_complexity

  all_scores :
      (t f g l : Outcome N) (x y : Value N)
      → Ensures IsScore t
      → Ensures IsScore f
      → Ensures IsScore g
      → Ensures IsScore l
      → Ensures HasScores (
          t >>= λ a. f >>= λ b. g >>= λ c. l >>= λ d. returns (record {
            technical_complexity = a;
            financial_complexity = b;
            governance_complexity = c;
            timeline_complexity = d;
            explanation = x;
            comparison = y;
          }))
  all_scores (returns t) (returns f) (returns g) (returns l) x y ht hf hg hl = (ht, hf, hg, hl)
  all_scores _ _ _ _ x y ht hf hg hl = tt

  breakdown_of-HasScores : (b : Option (Value N)) → Ensures HasScores (breakdown_of b)
  unfolding breakdown_of
  breakdown_of-HasScores b =
      all_scores (breakdown_score (codes "technical_complexity") b)
        (breakdown_score (codes "financial_complexity") b)
        (breakdown_score (codes "governance_complexity") b)
        (breakdown_score (codes "timeline_complexity") b) _ _ (breakdown_score-IsScore _ b)
        (breakdown_score-IsScore _ b) (breakdown_score-IsScore _ b) (breakdown_score-IsScore _ b)

  abbrev pub AllScores : Analysis N → Type 0
  AllScores a = IsScore a.complexity_score × HasScores a.complexity_breakdown

  analysis_of-AllScores : (v : Value N) → Ensures AllScores (analysis_of v)
  unfolding analysis_of
  analysis_of-AllScores v = Ensures-bind AllScores (prop (codes "summary") v) _ λ summary _.
      Ensures-bind AllScores (prop (codes "risk_assessment") v) _ λ risks _.
        Ensures-bind AllScores (convert_to_string risks) _ λ risk_text _.
          Ensures-bind AllScores (prop (codes "recommendations") v) _ λ advice _.
            Ensures-bind AllScores (convert_to_string advice) _ λ advice_text _.
              Ensures-bind AllScores (prop (codes "complexity_score") v) _ λ score _.
                Ensures-bind AllScores (prop (codes "complexity_breakdown") v) _ λ breakdown _.
                  Ensures-bind AllScores (breakdown_of breakdown) _ λ scores hs.
                    Ensures-bind AllScores (prop (codes "estimated_impact") v) _ λ impact _. (
                      score_or_default-IsScore score,
                      Ensures-returns HasScores (breakdown_of breakdown) scores
                          (breakdown_of-HasScores breakdown) hs,
                    )

  -- Every score of an analysis that is returned is a number from 1 to 10, or NaN.
  pub parse_ai_response-AllScores :
      (content : Text) (a : Analysis N) → parse_ai_response content ≡ returns a → AllScores a
  unfolding parse_ai_response
  parse_ai_response-AllScores content a h =
      let parsed =
        rethrow-eq-returns e _ (e.json_parse (clean_content content) >>= analysis_of) a h in
      Ensures-returns AllScores (e.json_parse (clean_content content) >>= analysis_of) a
        (Ensures-bind AllScores (e.json_parse (clean_content content)) analysis_of
          (λ v _. analysis_of-AllScores v))
        parsed

  -- The answer is read as its object alone: prose, white space and fences around it change nothing.
  pub parse_ai_response-braced :
      (p m s : Text)
      → Lacks b'{' p
      → Lacks b'}' s
      → parse_ai_response (p ++ (braced m ++ s))
        ≡ rethrow e
            (codes "Failed to parse AI response as JSON: ")
            (e.json_parse (braced m) >>= analysis_of)
  unfolding parse_ai_response
  parse_ai_response-braced p m s hp hs = rw (clean_content-braced p m s hp hs)

  -- A breakdown score that the model writes as a text which is no number becomes NaN.
  pub breakdown_score-nan :
      (key : Text) (b : Option (Value N)) (c : ℕ) (s : Text)
      → optional_prop key b ≡ some (str (c ∷ s))
      → e.is_nan (e.number_of_text (c ∷ s)) ≡ true
      → breakdown_score key b ≡ returns (e.number_of_text (c ∷ s))
  unfolding breakdown_score or_else to_number
  breakdown_score-nan key b c s found bad =
      rw found (ap returns (clamp_of_nan (e.number_of_text (c ∷ s)) bad))

-- ===== src/Proxy/Debate/Laws.antt =====
-- `parseDebateSimulationResponse` returns four reviewers, the given ones first.
use ic_govmind.Base.{
  ℕ, zero, suc, ◌+◌, ◌-◌, ◌≤◌, ◌≡◌, refl, ap, sym, ◌∙◌, List, [], ◌∷◌, ◌++◌, append_assoc,
  append-nil, returns, ◌>>=◌, Ensures, Ensures-bind, Ensures-returns, arith, length, length-append,
  take, length-take, ltb, Bool-cases, inl, inr,
}
use ic_govmind.Js.Text.{Text, codes}
use ic_govmind.Js.Value.{Value, Engine, prop}
use ic_govmind.Proxy.Extract.{clean_content}
use ic_govmind.Proxy.Analysis.Laws.{rethrow-eq-returns}
use ic_govmind.Proxy.Debate.{
  Persona, reviewer, fill, personas_of, debate_of, parse_debate_simulation_response,
}

module _ {N : Type 0} where
  -- The reviewers added behind `count` others, `n` of them.
  pub reviewers : ℕ → ℕ → List (Persona N)
  reviewers count zero = []
  reviewers count (suc n) = reviewer count ∷ reviewers (suc count) n

  -- The loop adds the reviewers that are missing, numbered on from those given, and no other.
  pub fill-reviewers :
      (rounds : ℕ) (ps : List (Persona N))
      → 4 ≤ length ps + rounds
      → fill rounds ps ≡ ps ++ reviewers (length ps) (4 - length ps)
  unfolding fill reviewers
  fill-reviewers zero ps h =
      let full : 4 - length ps ≡ 0 = omega arith in rw full (sym (append-nil ps))
  fill-reviewers (suc rounds) ps h = elim (Bool-cases (ltb (length ps) 4)) [
    | inr full ↦
        let done : 4 - length ps ≡ 0 = ground arith in rw (full, done) (sym (append-nil ps))
    | inl short ↦
        let added = ps ++ reviewer (length ps) ∷ [] in
        let size : length added ≡ suc (length ps) =
          omega (arith, length-append ps (reviewer (length ps) ∷ [])) in
        let left : 4 - length ps ≡ suc (4 - suc (length ps)) = ground arith in
        let rest = fill-reviewers rounds added (omega (arith, size)) in
        rw (short, left) (rest ∙ rw size (append_assoc ps (reviewer (length ps) ∷ []) _))
  ]

length-reviewers : (N : Type 0) (count n : ℕ) → length {A = Persona N} (reviewers count n) ≡ n
unfolding reviewers
length-reviewers N count zero = refl
length-reviewers N count (suc n) = ap suc (length-reviewers N (suc count) n)

module _ {N : Type 0} where
  pub length-take-fill : (ps : List (Persona N)) → length (take 4 (fill 4 ps)) ≡ 4
  length-take-fill ps =
      let added : List (Persona N) = reviewers (length ps) (4 - length ps) in
      let size : length (fill 4 ps) ≡ length ps + (4 - length ps) =
        ap length (fill-reviewers 4 ps (omega arith))
        ∙ omega (arith, length-append ps added, length-reviewers N (length ps) (4 - length ps)) in
      length-take 4 (fill 4 ps) ∙ omega (arith, size)

module _ {N : Type 0} ⦃e : Engine N⦄ where
  abbrev IsFour : List (Persona N) → Type 0
  IsFour ps = length ps ≡ 4

  debate_of-IsFour : (v : Value N) → Ensures IsFour (debate_of v)
  unfolding debate_of
  debate_of-IsFour v =
      Ensures-bind IsFour (prop (codes "personas") v) _
        λ given _. Ensures-bind IsFour (personas_of given) _ λ ps _. length-take-fill ps

  -- Whatever the model answered, exactly four reviewers are returned, if any are.
  pub length-parse_debate_simulation_response :
      (content : Text) (ps : List (Persona N))
      → parse_debate_simulation_response content ≡ returns ps
      → length ps ≡ 4
  unfolding parse_debate_simulation_response
  length-parse_debate_simulation_response content ps h =
      let parsed =
        rethrow-eq-returns e _ (e.json_parse (clean_content content) >>= debate_of) ps h in
      Ensures-returns IsFour (e.json_parse (clean_content content) >>= debate_of) ps
        (Ensures-bind IsFour (e.json_parse (clean_content content)) debate_of
          (λ v _. debate_of-IsFour v))
        parsed

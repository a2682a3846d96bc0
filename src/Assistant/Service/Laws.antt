-- ===== src/Assistant/Service/Laws.antt =====
-- src/ic_govmind_frontend/src/services/aiService.js and hooks/useProposals.js: what comes of the
-- assistant's calls of the canister.
use ic_govmind.Base.{
  ◌≡◌, refl, false, [], ◌∷◌, map, Outcome, returns, throws, Thrown, error, List, ◌>>=◌,
}
use ic_govmind.Js.Text.{Text, is_empty, or_text}
use ic_govmind.Assistant.Service.{
  Persona, shown_persona, Variant, ok, err, absent, unpack_in, unpack, Analyzer, opt_id,
  get_ai_analysis, submit_proposal_and_analyze, generate_draft_with_committee, generate_draft,
  run_debate_simulation, data_or_throw, use_submit_proposal, use_proposal_analysis,
  use_generate_draft_with_committee, use_generate_draft, use_debate_simulation, shown,
}

-- It throws an `Error` whose text is not empty.
abbrev pub Fails : {B : Type 0} → Outcome B → Type 0
Fails result = (t : Text) × (result ≡ throws (error t)) × (is_empty t ≡ false)

module _ {A B : Type 0} where
  -- What comes of a call of the canister: the value that it answered, as `f` shows it, or an error,
  -- with the canister's own words where it refused with words.
  abbrev pub IsAnswered : (A → B) → Outcome (Variant A) → Outcome B → Type 0
  IsAnswered f (returns (ok a)) result = result ≡ returns (f a)
  IsAnswered f (returns (err [])) result = Fails result
  IsAnswered f (returns (err (c ∷ t))) result = result ≡ throws (error (c ∷ t))
  IsAnswered f (returns absent) result = Fails result
  IsAnswered f (throws e) result = Fails result

or_text_given : (t other : Text) → is_empty other ≡ false → is_empty (or_text t other) ≡ false
or_text_given [] other h = h
or_text_given (c ∷ t) other h = refl

module _ {A : Type 0} (words : Thrown → Text) (refusal crash : Text) where
  unpack_in-IsAnswered :
      (m : Outcome (Variant A))
      → is_empty refusal ≡ false
      → is_empty crash ≡ false
      → IsAnswered (λ a. a) m (data_or_throw (unpack_in words refusal crash m))
  unfolding unpack_in data_or_throw
  unpack_in-IsAnswered (throws t) r c = (_, refl, or_text_given (words t) crash c)
  unpack_in-IsAnswered (returns (ok a)) r c = refl
  unpack_in-IsAnswered (returns (err [])) r c = (_, refl, r)
  unpack_in-IsAnswered (returns (err (x ∷ t))) r c = refl
  unpack_in-IsAnswered (returns absent) r c = (_, refl, or_text_given (words _) crash c)

  unpack-IsAnswered :
      (m : Outcome (Variant A))
      → is_empty refusal ≡ false
      → is_empty crash ≡ false
      → IsAnswered (λ a. a) m (data_or_throw (unpack words refusal crash m))
  unfolding unpack data_or_throw
  unpack-IsAnswered (throws t) r c = (_, refl, or_text_given (words t) crash c)
  unpack-IsAnswered (returns (ok a)) r c = refl
  unpack-IsAnswered (returns (err [])) r c = (_, refl, r)
  unpack-IsAnswered (returns (err (x ∷ t))) r c = refl
  unpack-IsAnswered (returns absent) r c = (_, refl, r)

module _ (words : Thrown → Text) (refusal crash : Text) where
  shown-IsAnswered :
      (m : Outcome (Variant (List Persona)))
      → is_empty refusal ≡ false
      → is_empty crash ≡ false
      → IsAnswered (map shown_persona) m (data_or_throw (shown (unpack_in words refusal crash m)))
  unfolding unpack_in data_or_throw shown
  shown-IsAnswered (throws t) r c = (_, refl, or_text_given (words t) crash c)
  shown-IsAnswered (returns (ok ps)) r c = refl
  shown-IsAnswered (returns (err [])) r c = (_, refl, r)
  shown-IsAnswered (returns (err (x ∷ t))) r c = refl
  shown-IsAnswered (returns absent) r c = (_, refl, or_text_given (words _) crash c)

module _ {P R : Type 0} (c : Analyzer P R) where
  -- Each of the five mutations calls the canister's method of its name with what it is given, the
  -- identifier as an option and the DAO as a principal. It returns the value that the canister
  -- answers, the personas renamed, throws an error with the canister's words where it is refused
  -- with words, and otherwise throws an error whose text is not empty: where the canister refuses
  -- without words, answers nothing or throws, or where the DAO is no principal.
  pub mutations-IsAnswered :
      (id title description idea dao : Text)
      → IsAnswered
          (λ a. a)
          (c.submit_proposal_and_analyze (opt_id id) title description)
          (use_submit_proposal c id title description)
        × IsAnswered (λ a. a) (c.analyze_proposal id) (use_proposal_analysis c id)
        × IsAnswered
            (λ a. a)
            (c.from_text dao >>= c.draft_proposal_with_committees idea)
            (use_generate_draft_with_committee c idea dao)
        × IsAnswered (λ a. a) (c.draft_proposal idea) (use_generate_draft c idea)
        × IsAnswered
            (map shown_persona)
            (c.run_debate_simulation title description)
            (use_debate_simulation c title description)
  unfolding use_submit_proposal use_proposal_analysis use_generate_draft_with_committee
      use_generate_draft use_debate_simulation get_ai_analysis submit_proposal_and_analyze
      generate_draft_with_committee generate_draft run_debate_simulation
  mutations-IsAnswered id title description idea dao = (
    unpack_in-IsAnswered c.words _ _ _ refl refl,
    unpack_in-IsAnswered c.words _ _ _ refl refl,
    unpack-IsAnswered c.words _ _ _ refl refl,
    unpack-IsAnswered c.words _ _ _ refl refl,
    shown-IsAnswered c.words _ _ _ refl refl,
  )

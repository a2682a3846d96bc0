-- ===== src/Assistant/Service.antt =====
-- src/ic_govmind_frontend/src/services/aiService.js and the mutations of hooks/useProposals.js and
-- hooks/backendHooks.js that call a canister and unpack its answer. A canister's method is a
-- function that returns a candid variant or throws.
pub mod Laws
use ic_govmind.Base.{
  ℕ, Bool, true, false, Option, none, some, List, [], ◌∷◌, map, if◌then◌else◌, Outcome, returns,
  throws, Thrown, error, ◌>>=◌,
}
use ic_govmind.Js.Text.{Text, codes, is_empty, or_text}
use ic_govmind.Js.Integer.{ℤ, parse_int_10}

-- `Ok` or `Err`; `absent` is null or undefined.
pub data Variant (A : Type 0) : Type 0 where
  ok : A → Variant A
  err : Text → Variant A
  absent : Variant A

-- `{ success: true, data }` or `{ success: false, error }`.
pub data Answer (A : Type 0) : Type 0 where
  succeeded : A → Answer A
  failed : Text → Answer A

module _ {A : Type 0} (words : Thrown → Text) where
  -- `catch (error)`, whose message is `words`.
  abbrev caught : Text → Thrown → Answer A
  caught crash t = failed (or_text (words t) crash)

  -- `'Ok' in result`, which throws where there is no result.
  unfoldable pub unpack_in : Text → Text → Outcome (Variant A) → Answer A
  unpack_in refusal crash (throws t) = caught crash t
  unpack_in refusal crash (returns (ok a)) = succeeded a
  unpack_in refusal crash (returns (err t)) = failed (or_text t refusal)
  unpack_in refusal crash (returns absent) =
      caught crash (Thrown.type_error "Cannot use 'in' operator")

  -- `result && result.Ok`.
  unfoldable pub unpack : Text → Text → Outcome (Variant A) → Answer A
  unpack refusal crash (throws t) = caught crash t
  unpack refusal crash (returns (ok a)) = succeeded a
  unpack refusal crash (returns (err t)) = failed (or_text t refusal)
  unpack refusal crash (returns absent) = failed refusal

pub record Persona : Type 0 where
  pub name : Text
  pub icon : Text
  pub core_argument : Text
  pub objections : List Text
  pub actionable_suggestion : Text

-- The page's persona, whose last names are `coreArgument` and `actionableSuggestion`.
pub record ShownPersona : Type 0 where
  pub name : Text
  pub icon : Text
  pub core_argument : Text
  pub objections : List Text
  pub actionable_suggestion : Text

pub record Draft : Type 0 where
  pub title : Text
  pub summary : Text
  pub rationale : Text
  pub specifications : Text

pub record Suggestion : Type 0 where
  pub committee_id : Option ℕ

pub record EnhancedDraft : Type 0 where
  pub draft : Draft
  pub committee_suggestion : Option Suggestion

unfoldable pub shown_persona : Persona → ShownPersona
shown_persona p = record {
  name = p.name;
  icon = p.icon;
  core_argument = p.core_argument;
  objections = p.objections;
  actionable_suggestion = p.actionable_suggestion;
}

-- The canister that analyses proposals. `P` is what `Principal.fromText` gives, `R` the report.
pub record Analyzer (P R : Type 0) : Type 0 where
  pub words : Thrown → Text
  pub from_text : Text → Outcome P
  pub analyze_proposal : Text → Outcome (Variant R)
  pub submit_proposal_and_analyze : Option Text → Text → Text → Outcome (Variant Text)
  pub draft_proposal_with_committees : Text → P → Outcome (Variant EnhancedDraft)
  pub draft_proposal : Text → Outcome (Variant Draft)
  pub run_debate_simulation : Text → Text → Outcome (Variant (List Persona))

-- `proposalId ? [proposalId] : []`.
abbrev pub opt_id : Text → Option Text
opt_id t = if is_empty t then none else some t

-- The personas of an answer, renamed.
unfoldable pub shown : Answer (List Persona) → Answer (List ShownPersona)
shown (succeeded ps) = succeeded (map shown_persona ps)
shown (failed t) = failed t

module _ {P R : Type 0} (c : Analyzer P R) where
  unfoldable pub get_ai_analysis : Text → Answer R
  get_ai_analysis id =
      unpack_in c.words (codes "Analysis failed") (codes "Failed to get AI analysis")
        (c.analyze_proposal id)

  unfoldable pub submit_proposal_and_analyze : Text → Text → Text → Answer Text
  submit_proposal_and_analyze title description id =
      unpack_in c.words (codes "Submission failed") (codes "Failed to submit proposal")
        (c.submit_proposal_and_analyze (opt_id id) title description)

  unfoldable pub generate_draft_with_committee : Text → Text → Answer EnhancedDraft
  generate_draft_with_committee idea dao =
      unpack c.words (codes "Failed to generate draft with committee suggestion")
        (codes "Failed to generate draft with committee suggestion")
        (c.from_text dao >>= c.draft_proposal_with_committees idea)

  unfoldable pub generate_draft : Text → Answer Draft
  generate_draft idea =
      unpack c.words (codes "Failed to generate draft") (codes "Failed to generate draft")
        (c.draft_proposal idea)

  unfoldable pub run_debate_simulation : Text → Text → Answer (List ShownPersona)
  run_debate_simulation title content = shown (
      unpack_in c.words (codes "Failed to run debate simulation")
        (codes "Failed to run debate simulation") (c.run_debate_simulation title content))

-- What each mutation makes of an answer.
unfoldable pub data_or_throw : {A : Type 0} → Answer A → Outcome A
data_or_throw (succeeded a) = returns a
data_or_throw (failed t) = throws (error t)

module _ {P R : Type 0} (c : Analyzer P R) where
  unfoldable pub use_submit_proposal : Text → Text → Text → Outcome Text
  use_submit_proposal id title description =
      data_or_throw (submit_proposal_and_analyze c title description id)

  unfoldable pub use_proposal_analysis : Text → Outcome R
  use_proposal_analysis id = data_or_throw (get_ai_analysis c id)

  unfoldable pub use_generate_draft_with_committee : Text → Text → Outcome EnhancedDraft
  use_generate_draft_with_committee idea dao =
      data_or_throw (generate_draft_with_committee c idea dao)

  unfoldable pub use_generate_draft : Text → Outcome Draft
  use_generate_draft idea = data_or_throw (generate_draft c idea)

  unfoldable pub use_debate_simulation : Text → Text → Outcome (List ShownPersona)
  use_debate_simulation title content = data_or_throw (run_debate_simulation c title content)

-- `committeeId ? [parseInt(committeeId, 10)] : []`, where NaN is `none`.
unfoldable pub committee_ids : Text → List (Option ℤ)
committee_ids t = if is_empty t then [] else parse_int_10 t ∷ []

-- `create_proposal` of a DAO's canister.
abbrev pub CreateProposal : Type 0
CreateProposal = Text → Text → List (Option ℤ) → Outcome (Variant ℕ)

abbrev pub created_or_throw : Variant ℕ → Outcome ℕ
created_or_throw (ok id) = returns id
created_or_throw (err t) = throws (error (or_text t (codes "Failed to create proposal")))
created_or_throw absent = throws (error (codes "Failed to create proposal"))

unfoldable pub use_create_proposal : Option CreateProposal → Text → Text → Text → Outcome ℕ
use_create_proposal none title description id =
    throws (error (codes "Backend actor is not available"))
use_create_proposal (some create) title description id =
    create title description (committee_ids id) >>= created_or_throw

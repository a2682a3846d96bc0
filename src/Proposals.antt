-- ===== src/Proposals.antt =====
-- src/ic_govmind_frontend/src/components/tabs/ProposalsTab.jsx: the proposals of a DAO and their
-- votes.
pub mod Laws
mod Tests
use ic_govmind.Base.{
  ℕ, ◌+◌, Bool, true, false, not, ◌||◌, Option, none, some, List, [], ◌∷◌, ltb, if◌then◌else◌,
  length, keep, Outcome, returns, throws,
}
use ic_govmind.Js.Text.{Text, codes, text_eq, trim, is_empty}
use ic_govmind.Assistant.Service.{CreateProposal, use_create_proposal}

-- The choice is a text, or the first key of an object.
pub record Vote : Type 0 where
  pub choice : Text
  pub weight : ℕ

abbrev pub chooses : Text → Vote → Bool
chooses choice v = text_eq v.choice choice

abbrev pub count : Text → List Vote → ℕ
count choice votes = length (keep (chooses choice) votes)

unfoldable pub weight_of : List Vote → ℕ
weight_of [] = 0
weight_of (v ∷ vs) = v.weight + weight_of vs

pub record VoteStats : Type 0 where
  pub total_votes : ℕ
  pub yes_votes : ℕ
  pub no_votes : ℕ
  pub abstain_votes : ℕ
  pub total_weight : ℕ
  pub yes_weight : ℕ
  pub approval_percentage : ℕ

-- `calculateVoteStats`. Weights are small enough to be exact doubles; `percent y t` is
-- `Math.round((y / t) * 100)` in doubles.
unfoldable pub calculate_vote_stats : (ℕ → ℕ → ℕ) → List Vote → VoteStats
unfolding weight_of
calculate_vote_stats percent votes =
    let total = weight_of votes in
    let yes = weight_of (keep (chooses (codes "Yes")) votes) in
    record {
      total_votes = length votes;
      yes_votes = count (codes "Yes") votes;
      no_votes = count (codes "No") votes;
      abstain_votes = count (codes "Abstain") votes;
      total_weight = total;
      yes_weight = yes;
      approval_percentage = if ltb 0 total then percent yes total else 0;
    }

pub data Status : Type 0 where
  succeeded : Status
  failed : Status

pub record Tab : Type 0 where
  pub show_create_proposal : Bool
  pub proposal_title : Text
  pub proposal_content : Text
  pub is_creating_proposal : Bool
  pub proposal_creation_status : Option Status
  pub selected_proposal_id : Option ℕ
  pub selected_committee_id : Text

-- The tab after `mutateAsync` and `refetchProposals`, either of which may throw.
unfoldable pub after_create : Outcome ℕ → Outcome (Unit {0}) → Tab → Tab
after_create (throws t) refetched tab = record tab {
  is_creating_proposal = false;
  proposal_creation_status = some failed;
}
after_create (returns id) (returns u) tab = record tab {
  proposal_title = [];
  proposal_content = [];
  show_create_proposal = false;
  is_creating_proposal = false;
  proposal_creation_status = some succeeded;
  selected_proposal_id = some id;
}
after_create (returns id) (throws t) tab = record tab {
  proposal_title = [];
  proposal_content = [];
  show_create_proposal = false;
  is_creating_proposal = false;
  proposal_creation_status = some failed;
}

-- `handleCreateProposal`, up to the timer that takes the status back.
unfoldable pub handle_create_proposal :
    Bool → Option CreateProposal → Outcome (Unit {0}) → Tab → Tab
unfolding after_create
handle_create_proposal has_dao create refetched tab =
    if is_empty (trim tab.proposal_title) || (is_empty (trim tab.proposal_content) || not has_dao)
    then tab
    else after_create
        (use_create_proposal create (trim tab.proposal_title) (trim tab.proposal_content)
          tab.selected_committee_id)
        refetched tab

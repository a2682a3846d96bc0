-- ===== src/Sns.antt =====
-- src/ic_govmind_frontend/src/hooks/useSnsGovernance.js: what the frontend reads of SNS DAOs.
-- `N` are the doubles: `number` is `Number` of a `bigint`, and `millis` is that divided by 1000000.
pub mod Laws
pub mod Registry
pub mod Listing
pub mod Dashboard
pub mod Votes
mod Tests
use ic_govmind.Base.{
  ℕ, ◌-◌, ◌*◌, Bool, true, false, Option, none, some, List, [], ◌∷◌, ◌++◌, map, if◌then◌else◌,
  Outcome, returns, throws, error, type_error, ◌>>=◌,
}
use ic_govmind.Js.Text.{Text, codes, text_eq, is_empty}
use ic_govmind.Js.Decimal.{decimal}
use ic_govmind.Assistant.Service.{Variant, ok, err, absent}

pub record RawCanister : Type 0 where
  pub id : Text
  pub name : Text
  pub canister_id : Text
  pub description : Text
  pub logo : List Text
  pub total_proposals : ℕ
  pub active_proposals : ℕ
  pub last_activity : ℕ

pub record ShownCanister (N : Type 0) : Type 0 where
  pub id : Text
  pub name : Text
  pub canister_id : Text
  pub description : Text
  pub logo : Option Text
  pub total_proposals : ℕ
  pub active_proposals : ℕ
  pub last_activity : N

pub record RawProposal : Type 0 where
  pub id : ℕ
  pub title : Text
  pub summary : Text
  pub status : Text
  pub executed : Bool
  pub executed_at : List ℕ
  pub proposer : Text
  pub votes_for : ℕ
  pub votes_against : ℕ
  pub total_votes : ℕ

pub record ShownProposal (N : Type 0) : Type 0 where
  pub id : ℕ
  pub composite_id : Text
  pub title : Text
  pub summary : Text
  pub status : Text
  pub executed : Bool
  pub executed_at : Option N
  pub proposer : Text
  pub votes_for : ℕ
  pub votes_against : ℕ
  pub total_votes : ℕ

-- `canister.logo?.length ? canister.logo[0] : undefined`.
abbrev pub logo_of : List Text → Option Text
logo_of [] = none
logo_of (l ∷ ls) = some l

module _ {N : Type 0} (millis : ℕ → N) where
  unfoldable pub shown_canister : RawCanister → ShownCanister N
  shown_canister c = record {
    id = c.id;
    name = c.name;
    canister_id = c.canister_id;
    description = c.description;
    logo = logo_of c.logo;
    total_proposals = c.total_proposals;
    active_proposals = c.active_proposals;
    last_activity = millis c.last_activity;
  }

  -- `useSnsCanister`.
  unfoldable pub query_sns_canister :
      (Text → Outcome (Variant RawCanister)) → Text → Outcome (Option (ShownCanister N))
  unfolding shown_canister
  query_sns_canister get_sns_canister id =
      if is_empty id
      then returns none
      else get_sns_canister id >>= λ result. elim result [
        | ok c ↦ returns (some (shown_canister c))
        | err t ↦ throws (error (codes "Failed to fetch canister: " ++ t))
        | absent ↦ throws (type_error "Cannot use 'in' operator")
      ]

-- The offset of a page of `useSnsCanisters`, where pages are numbered from 1.
unfoldable pub offset_of : ℕ → ℕ → ℕ
offset_of page page_size = (page - 1) * page_size

-- `canisterId + '-' + Number(proposal.id)`.
unfoldable pub composite_id_of : Text → ℕ → Text
composite_id_of canister id = canister ++ (codes "-" ++ decimal id)

-- `executed_at ? Number(executed_at) / 1000000 : null`: the candid option is an array, which is truthy
-- also where it is empty, and is then the number 0.
abbrev pub executed_millis : {N : Type 0} → (ℕ → N) → List ℕ → Option N
executed_millis millis [] = some (millis 0)
executed_millis millis (t ∷ ts) = some (millis t)

module _ {N : Type 0} (number : ℕ → ℕ) (millis : ℕ → N) where
  unfoldable pub shown_proposal : Text → RawProposal → ShownProposal N
  unfolding composite_id_of
  shown_proposal canister p = record {
    id = number p.id;
    composite_id = composite_id_of canister (number p.id);
    title = p.title;
    summary = p.summary;
    status = p.status;
    executed = p.executed;
    executed_at = executed_millis millis p.executed_at;
    proposer = p.proposer;
    votes_for = number p.votes_for;
    votes_against = number p.votes_against;
    total_votes = number p.total_votes;
  }

  -- `useSnsProposals`.
  unfoldable pub query_sns_proposals :
      (Text → Outcome (Variant (List RawProposal))) → Text → Outcome (List (ShownProposal N))
  unfolding shown_proposal
  query_sns_proposals get_sns_proposals canister =
      if is_empty canister
      then returns []
      else get_sns_proposals canister >>= λ result. elim result [
        | ok ps ↦ returns (map (shown_proposal canister) ps)
        | err t ↦ throws (error (codes "Failed to fetch proposals: " ++ t))
        | absent ↦ throws (type_error "Cannot use 'in' operator")
      ]

-- `getSnsProposalStatusClass`.
unfoldable pub get_sns_proposal_status_class : Text → Text
unfolding text_eq
get_sns_proposal_status_class status =
    if text_eq status (codes "Open")
    then codes "bg-blue-100 text-blue-800 border-blue-300"
    else if text_eq status (codes "Executed")
    then codes "bg-green-100 text-green-800 border-green-300"
    else if text_eq status (codes "Rejected")
    then codes "bg-red-100 text-red-800 border-red-300"
    else if text_eq status (codes "Pending")
    then codes "bg-yellow-100 text-yellow-800 border-yellow-300"
    else codes "bg-gray-100 text-gray-800 border-gray-300"

-- ===== src/Sns/Dashboard/Tests.antt =====
-- The dashboard in front of a canister that stores eleven DAOs.
use mathlib.Core.List.{Perm}
use ic_govmind.Base.{◌+◌, ◌/◌, ◌≤◌, max, ◌↔◌, List, [], ◌∷◌, length, map, arith}
use ic_govmind.Js.Text.{Text, codes}
use ic_govmind.Sns.{RawCanister, shown_canister}
use ic_govmind.Sns.Registry.{sort_canisters}
use ic_govmind.Sns.Registry.Laws.{IsSorted}
use ic_govmind.Sns.Dashboard.Browsing.{Browses, Reached}
use ic_govmind.Sns.Dashboard.Reached.{Reached-iff}
use ic_govmind.Sns.Dashboard.Walked.{browse_all}

abbrev named : Text → RawCanister
named name = record {
  id = name;
  name = name;
  canister_id = name;
  description = [];
  logo = [];
  total_proposals = 0;
  active_proposals = 0;
  last_activity = 0;
}

abbrev stored : List RawCanister
stored = map named (
    codes "k"
    ∷ codes "b"
    ∷ codes "c"
    ∷ codes "a"
    ∷ codes "e"
    ∷ codes "f"
    ∷ codes "g"
    ∷ codes "h"
    ∷ codes "i"
    ∷ codes "j"
    ∷ codes "d"
    ∷ [])

Reached-iff_example :
    Reached (λ t. t) (λ n. n) stored 2 ↔ ((1 ≤ 2) × (2 ≤ max 1 ((length stored + 8) / 9)))
Reached-iff_example = Reached-iff (λ t. t) (λ n. n) stored (omega arith) 2

browse_all_example :
    Browses
      (λ t. t)
      (λ n. n)
      stored
      1
      (map (shown_canister (λ n. n)) (sort_canisters (λ t. t) stored))
    × IsSorted (λ t. t) (sort_canisters (λ t. t) stored)
    × Perm (sort_canisters (λ t. t) stored) stored
browse_all_example = browse_all (λ t. t) (λ n. n) stored (omega arith)

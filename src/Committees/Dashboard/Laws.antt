-- ===== src/Committees/Dashboard/Laws.antt =====
-- Which committee is found.
use ic_govmind.Base.{ℕ, ◌≡◌, Bool-cases, inl, inr, some, List, [], ◌∷◌, ◌==◌, ==_iff}
use ic_govmind.Committees.Dashboard.{Held, find_committee_of}

-- A committee that is found has the number that was asked for.
pub id-find_committee_of :
    (id : ℕ) (cs : List Held) (c : Held) → find_committee_of (some id) cs ≡ some c → c.id ≡ id
unfolding find_committee_of
id-find_committee_of id [] c h = cc
id-find_committee_of id (x ∷ cs) c h = elim (Bool-cases (x.id == id)) [
  | inl same ↦ let this : x ≡ c = cc (rw same at h) in rw (← this) ((==_iff x.id id).0 same)
  | inr other ↦ id-find_committee_of id cs c (rw other at h)
]

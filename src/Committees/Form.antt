-- ===== src/Committees/Form.antt =====
-- src/ic_govmind_frontend/src/components/tabs/CommitteesTab.jsx: the form for a new committee, the
-- form for a change of one, and what they ask of the DAO's canister.
pub mod Laws
use ic_govmind.Base.{
  ℕ, zero, suc, ◌*◌, ◌/◌, ◌≤◌, max, ◌≡◌, Bool, true, false, not, Option, none, some, List, [], ◌∷◌,
  map, keep, ◌==◌, if◌then◌else◌, Outcome, returns, throws, Thrown, range_error, ◌>>=◌,
}
use ic_govmind.Js.Text.{Text, codes, trim, split, join, is_empty, or_text}
use ic_govmind.Js.Decimal.{decimal}
use ic_govmind.Js.Integer.{ℤ, pos, negsuc, parse_int_10}
use ic_govmind.Assistant.Service.{Variant, ok, err, absent}
use ic_govmind.Committees.Kinds.{
  Kind, technical, committee_type_to_variant, get_default_responsibilities,
}

-- The library of principals; `to_text` is what the tab shows of one.
pub record Principals (P : Type 0) : Type 0 where
  pub from_text : Text → Outcome P
  pub to_text : P → Text

-- The rounding of a natural number to a double, which throws where `BigInt` of an infinity does.
pub record Doubles : Type 0 where
  pub round : ℕ → Outcome ℕ
  pub round_exact : (n : ℕ) → n ≤ 9007199254740992 → round n ≡ returns n

pub record CommitteeArg (P : Type 0) : Type 0 where
  pub committee_type : Kind
  pub members : List P
  pub term_duration_secs : ℕ
  pub active : Bool
  pub responsibilities : Text

-- A committee's responsibilities are a list, a text, or missing.
pub data Responsibilities : Type 0 where
  listed : List Text → Responsibilities
  written : Text → Responsibilities
  missing : Responsibilities

-- A committee as the canister's agent gives it: `active` is a candid option, so an array of at most
-- one Boolean, or undefined in a record without it.
pub record Committee (P : Type 0) : Type 0 where
  pub id : ℕ
  pub committee_type : Kind
  pub term_duration_secs : ℕ
  pub members : List P
  pub active : Option (List Bool)
  pub responsibilities : Responsibilities

pub record Tab : Type 0 where
  pub new_type : Text
  pub new_term_days : Text
  pub new_members : Text
  pub new_active : Bool
  pub new_responsibilities : Text
  pub updating_committee_id : Option ℕ
  pub update_term_days : Text
  pub update_members : Text
  pub update_active : Bool
  pub update_responsibilities : Text
  pub is_submitting : Bool

unfoldable pub initial_tab : Tab
initial_tab = record {
  new_type = codes "Technical";
  new_term_days = codes "90";
  new_members = [];
  new_active = true;
  new_responsibilities = get_default_responsibilities (codes "Technical");
  updating_committee_id = none;
  update_term_days = codes "90";
  update_members = [];
  update_active = true;
  update_responsibilities = [];
  is_submitting = false;
}

-- A comma separates as a line break does.
abbrev pub line_break : ℕ → ℕ
line_break c = if c == b',' then b'\n' else c

-- `s.trim()` for each part, and the parts that are not empty.
abbrev pub parts : Text → List Text
parts text = keep (λ s. not (is_empty s)) (map trim (split b'\n' (map line_break text)))

abbrev pub at_least_one : ℤ → ℕ
at_least_one (pos n) = max 1 n
at_least_one (negsuc n) = 1

-- `BigInt(Math.max(1, n) * 24 * 3600)`.
unfoldable pub term_of : Doubles → Option ℤ → Outcome ℕ
term_of doubles none = throws (range_error "NaN cannot be converted to a BigInt")
term_of doubles (some n) =
    doubles.round (at_least_one n) >>= λ d. doubles.round (d * 24) >>= λ h. doubles.round (h * 3600)

-- The same of `parseInt(days || '0', 10)`.
unfoldable pub term_secs : Doubles → Text → Outcome ℕ
term_secs doubles days = term_of doubles (parse_int_10 (or_text days (codes "0")))

-- What the form for a change shows of a committee.
abbrev pub responsibilities_text : Responsibilities → Text
responsibilities_text (listed ts) = join (codes "\n") ts
responsibilities_text (written t) = t
responsibilities_text missing = []

-- `committee.active === undefined ? true : Boolean(committee.active)`: an array is truthy, also
-- where it is empty or holds `false`.
abbrev pub active_or_true : Option (List Bool) → Bool
active_or_true none = true
active_or_true (some bs) = true

module _ {P : Type 0} (principals : Principals P) where
  -- The texts that are principals; the others are left out.
  unfoldable pub principals_of : List Text → List P
  principals_of [] = []
  principals_of (t ∷ ts) =
      let rest = principals_of ts in
      elim (principals.from_text t) [ returns p ↦ p ∷ rest | throws e ↦ rest ]

  unfoldable pub parse_members : Text → List P
  unfolding principals_of trim split
  parse_members text = principals_of (parts text)

  unfoldable pub add_arg : Doubles → Tab → Outcome (CommitteeArg P)
  add_arg doubles tab = term_secs doubles tab.new_term_days >>= λ term. returns (record {
    committee_type = committee_type_to_variant tab.new_type;
    members = parse_members tab.new_members;
    term_duration_secs = term;
    active = tab.new_active;
    responsibilities = tab.new_responsibilities;
  })

  unfoldable pub update_arg : Doubles → Tab → Outcome (CommitteeArg P)
  update_arg doubles tab = term_secs doubles tab.update_term_days >>= λ term. returns (record {
    committee_type = technical;
    members = parse_members tab.update_members;
    term_duration_secs = term;
    active = tab.update_active;
    responsibilities = tab.update_responsibilities;
  })

  unfoldable pub handle_start_update_committee : Committee P → Tab → Tab
  handle_start_update_committee c tab = record tab {
    updating_committee_id = some c.id;
    update_term_days = decimal (max 1 (c.term_duration_secs / 86400));
    update_members = join (codes "\n") (map principals.to_text c.members);
    update_active = active_or_true c.active;
    update_responsibilities = responsibilities_text c.responsibilities;
  }

unfoldable pub handle_cancel_update_committee : Tab → Tab
handle_cancel_update_committee tab = record tab {
  updating_committee_id = none;
  update_term_days = codes "90";
  update_members = [];
  update_active = true;
  update_responsibilities = [];
}

-- The form for a new committee is cleared where the canister has answered with `Ok`.
unfoldable pub after_add : {A : Type 0} → Outcome (Variant A) → Tab → Tab
after_add (returns (ok id)) tab = record tab {
  new_members = [];
  new_term_days = codes "90";
  new_active = true;
  new_responsibilities = get_default_responsibilities tab.new_type;
  is_submitting = false;
}
after_add (returns (err t)) tab = record tab { is_submitting = false }
after_add (returns absent) tab = record tab { is_submitting = false }
after_add (throws t) tab = record tab { is_submitting = false }

unfoldable pub after_update : {A : Type 0} → Outcome (Variant A) → Tab → Tab
unfolding handle_cancel_update_committee
after_update (returns (ok id)) tab =
    handle_cancel_update_committee (record tab { is_submitting = false })
after_update (returns (err t)) tab = record tab { is_submitting = false }
after_update (returns absent) tab = record tab { is_submitting = false }
after_update (throws t) tab = record tab { is_submitting = false }

-- The canister of the DAO, which is none where there is no actor.
pub record Canister (P A : Type 0) : Type 0 where
  pub add_committee : CommitteeArg P → Outcome (Variant A)
  pub update_committee_update : ℕ → CommitteeArg P → Outcome (Variant A)

module _ {P A : Type 0} (principals : Principals P) (doubles : Doubles) where
  unfoldable pub handle_add_committee : Option (Canister P A) → Tab → Tab
  unfolding after_add
  handle_add_committee none tab = tab
  handle_add_committee (some c) tab =
      after_add (add_arg principals doubles tab >>= c.add_committee) tab

  unfoldable pub handle_update_committee : Option (Canister P A) → Tab → Tab
  unfolding after_update
  handle_update_committee none tab = tab
  handle_update_committee (some c) tab = elim tab.updating_committee_id [
    | none ↦ tab
    | some id ↦
        after_update (update_arg principals doubles tab >>= c.update_committee_update id) tab
  ]

-- ===== src/Committees/Kinds.antt =====
-- src/ic_govmind_frontend/src/components/tabs/CommitteesTab.jsx: the kinds of committees and the
-- responsibilities that the form proposes for each.
use ic_govmind.Base.{true, false, Option, none, some, List, [], ◌∷◌}
use ic_govmind.Js.Text.{Text, codes, text_eq, join}

pub data Kind : Type 0 where
  technical : Kind
  democracy : Kind
  treasury : Kind
  grants : Kind
  community : Kind
  marketing : Kind
  legal : Kind
  strategy : Kind
  dispute : Kind
  research : Kind
  security : Kind
  operations : Kind

-- The value that the variant of a committee's type is made of, with the kind itself.
abbrev kinds : List (Text × Kind)
kinds =
    (codes "Technical", technical)
    ∷ (codes "Democracy", democracy)
    ∷ (codes "Treasury", treasury)
    ∷ (codes "Grants", grants)
    ∷ (codes "Community", community)
    ∷ (codes "Marketing", marketing)
    ∷ (codes "Legal", legal)
    ∷ (codes "Strategy", strategy)
    ∷ (codes "Dispute", dispute)
    ∷ (codes "Research", research)
    ∷ (codes "Security", security)
    ∷ (codes "Operations", operations)
    ∷ []

unfoldable pub lookup : Text → List (Text × Kind) → Option Kind
lookup t [] = none
lookup t ((name, k) ∷ rest) = elim (text_eq name t) [ true ↦ some k | false ↦ lookup t rest ]

-- `committeeTypeToVariant`, whose default is the technical kind.
unfoldable pub committee_type_to_variant : Text → Kind
unfolding lookup
committee_type_to_variant t = elim (lookup t kinds) [ none ↦ technical | some k ↦ k ]

-- `DEFAULT_RESPONSIBILITIES`.
unfoldable pub default_responsibilities : Kind → List Text
default_responsibilities technical =
    codes "Reviews technical proposals and smart contracts."
    ∷ codes "Oversees protocol upgrades, integrations, and audits."
    ∷ codes "Handles urgent fixes (e.g., security vulnerabilities)."
    ∷ []
default_responsibilities democracy =
    codes "Manages voting systems, rules, and procedures."
    ∷ codes "Screens proposals (to avoid spam or low-effort submissions)."
    ∷ codes "Works on fairness and voter participation strategies."
    ∷ []
default_responsibilities treasury =
    codes "Manages DAO funds and budgeting."
    ∷ codes "Reviews grant proposals and spending requests."
    ∷ codes "Ensures financial transparency and reporting."
    ∷ []
default_responsibilities grants =
    codes "Allocates funds to builders, researchers, and community projects."
    ∷ codes "Runs grant programs, bounties, or hackathons."
    ∷ codes "Monitors grantee progress and accountability."
    ∷ []
default_responsibilities community =
    codes "Onboards new members, manages roles and permissions."
    ∷ codes "Builds engagement and runs educational initiatives."
    ∷ codes "Handles disputes or moderation in community spaces."
    ∷ []
default_responsibilities marketing =
    codes "Manages branding, social media, and PR."
    ∷ codes "Ensures the DAO’s story and values are clear."
    ∷ codes "Coordinates outreach campaigns, partnerships, and events."
    ∷ []
default_responsibilities legal =
    codes "Keeps track of regulations and DAO’s legal risks."
    ∷ codes "Interfaces with legal entities (foundations, service providers)."
    ∷ codes "Drafts policies around KYC, jurisdiction, and liability."
    ∷ []
default_responsibilities strategy =
    codes "Sets long-term priorities and KPIs."
    ∷ codes "Aligns proposals with DAO’s vision."
    ∷ codes "Acts as a steering body for overall direction."
    ∷ []
default_responsibilities dispute =
    codes "Handles conflicts between members."
    ∷ codes "Decides on enforcement of rules and penalties."
    ∷ codes "Acts like a “DAO court” for proposal challenges when needed."
    ∷ []
default_responsibilities research =
    codes "Explores new ideas, experiments, and partnerships."
    ∷ codes "Runs pilot projects and evaluates cutting-edge tech."
    ∷ codes "Provides research to inform governance proposals."
    ∷ []
default_responsibilities security =
    codes "Monitors smart contract risks, audits, and bug bounties."
    ∷ codes "Oversees treasury risk management (diversification, custody)."
    ∷ codes "Creates contingency plans for exploits or governance attacks."
    ∷ []
default_responsibilities operations =
    codes "Coordinates day-to-day logistics."
    ∷ codes "Handles DAO tooling, treasury ops, documentation."
    ∷ codes "Keeps workflows and decision-making efficient."
    ∷ []

-- `getDefaultResponsibilities` of the select box's value; another text has none.
unfoldable pub get_default_responsibilities : Text → Text
unfolding lookup default_responsibilities join
get_default_responsibilities t = elim (lookup t kinds) [
  | none ↦ []
  | some k ↦ join (codes "\n") (default_responsibilities k)
]

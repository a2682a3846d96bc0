-- ===== src/DaoPage/View.antt =====
-- src/ic_govmind_frontend/src/pages/DaoInfoPage.jsx and components/DaoTabs.jsx: what stands on the
-- page of a DAO, and which tab is marked.
use ic_govmind.Base.{
  ◌≡◌, refl, Bool, true, false, Option, none, some, List, [], ◌∷◌, ◌++◌, if◌then◌else◌, some_of,
  keep, All, Bool-cases, inl, inr,
}
use ic_govmind.Js.Text.{Text, codes, text_eq}
use ic_govmind.Js.Text.Laws.{eq_of_text_eq}
use ic_govmind.DaoPage.{valid_tabs, tab_ids, is_valid_tab, IsShown}
use ic_govmind.DaoPage.Laws.{IsShown-valid_tab}

pub data Content : Type 0 where
  overview_tab : Content
  members_tab : Content
  proposals_tab : Content
  distribution_tab : Content
  treasury_tab : Content
  governance_tab : Content
  committees_tab : Content
  canister_tab : Content

-- `activeTab === id && content`.
abbrev pub shown_if : Text → Text → Content → List Content
shown_if active id content = if text_eq active id then content ∷ [] else []

unfoldable pub tab_contents : Text → List Content
tab_contents active =
    shown_if active (codes "overview") overview_tab
    ++ (shown_if active (codes "members") members_tab
        ++ (shown_if active (codes "proposals") proposals_tab
            ++ (shown_if active (codes "distribution") distribution_tab
                ++ (shown_if active (codes "treasury") treasury_tab
                    ++ (shown_if active (codes "governance") governance_tab
                        ++ (shown_if active (codes "committees") committees_tab
                            ++ shown_if active (codes "canister") canister_tab))))))

-- The tabs of `DaoTabs` that are marked.
unfoldable pub marked_tabs : Text → List Text
marked_tabs active = keep (text_eq active) tab_ids

pub data DaoView : Type 0 where
  loading_dao : DaoView
  dao_error : DaoView
  dao_missing : DaoView
  dao_tabs : List Text → List Content → DaoView

unfoldable pub dao_view : {D : Type 0} → Bool → Bool → Option D → Text → DaoView
dao_view true failed dao active = loading_dao
dao_view false true dao active = dao_error
dao_view false false none active = dao_missing
dao_view false false (some d) active = dao_tabs (marked_tabs active) (tab_contents active)

-- What holds of every text of a list holds of a text that is in it.
All-some_of :
    (P : Text → Type 0) (t : Text) (xs : List Text) → some_of (text_eq t) xs ≡ true → All P xs → P t
All-some_of P t [] h all = cc
All-some_of P t (x ∷ xs) h all = elim (Bool-cases (text_eq t x)) [
  | inl same ↦ (let e = eq_of_text_eq t x same in rw e all.0)
  | inr other ↦ All-some_of P t xs (rw other at h) all.1
]

-- The tab itself is marked, alone, and one content stands under the tabs.
abbrev ShowsOne : Text → Type 0
ShowsOne active =
    (content : Content) × (marked_tabs active ≡ active ∷ []) × (tab_contents active ≡ content ∷ [])

valid_tabs-ShowsOne : All ShowsOne valid_tabs
unfolding marked_tabs tab_contents text_eq
valid_tabs-ShowsOne = (
  (overview_tab, refl, refl),
  (
    (members_tab, refl, refl),
    (
      (proposals_tab, refl, refl),
      (
        (distribution_tab, refl, refl),
        (
          (treasury_tab, refl, refl),
          (
            (governance_tab, refl, refl),
            ((committees_tab, refl, refl), ((canister_tab, refl, refl), tt)),
          ),
        ),
      ),
    ),
  ),
)

-- Whatever the address of the page says and whatever tab is clicked: once the DAO is loaded, the
-- active tab is marked and no other, and exactly one content stands under the tabs.
pub dao_view-IsShown :
    {D : Type 0} (d : D) (active : Text)
    → IsShown active
    → (content : Content) × (dao_view false false (some d) active
        ≡ dao_tabs (active ∷ []) (content ∷ []))
unfolding is_valid_tab dao_view
dao_view-IsShown d active shown =
    let (content, marked, contents) =
      All-some_of ShowsOne active valid_tabs (IsShown-valid_tab active shown) valid_tabs-ShowsOne in
    (content, rw (marked, contents) refl)

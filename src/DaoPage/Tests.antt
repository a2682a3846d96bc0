-- ===== src/DaoPage/Tests.antt =====
-- An address with a tab that there is not, and a click.
use ic_govmind.Base.{ℕ, [], ◌∷◌, false, ◌≡◌, refl, true, none, some}
use ic_govmind.Js.Text.{codes, text_eq}
use ic_govmind.DaoPage.{is_valid_tab, initial_tab, sync_tab, start, clicked}
use ic_govmind.DaoPage.Laws.{IsShown-valid_tab}
use ic_govmind.DaoPage.View.{Content, dao_view, dao_tabs, dao_view-IsShown}

tabs :
    (initial_tab (some (codes "nothing")) ≡ codes "overview")
    × (sync_tab (some (codes "treasury")) (codes "members") ≡ codes "treasury")
unfolding initial_tab sync_tab is_valid_tab
tabs = (refl, refl)

IsShown-valid_tab_sample : is_valid_tab (codes "treasury") ≡ true
unfolding text_eq
IsShown-valid_tab_sample =
    IsShown-valid_tab (codes "treasury")
      (clicked (codes "treasury") (initial_tab none) refl (start none))

dao_view-IsShown_example :
    (content : Content) × (dao_view {D = ℕ} false false (some 7) (codes "treasury")
      ≡ dao_tabs (codes "treasury" ∷ []) (content ∷ []))
unfolding text_eq
dao_view-IsShown_example =
    dao_view-IsShown 7 (codes "treasury")
      (clicked (codes "treasury") (initial_tab none) refl (start none))

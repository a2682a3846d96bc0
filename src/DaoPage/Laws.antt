-- ===== src/DaoPage/Laws.antt =====
-- The tab that is shown is one of the tabs.
use ic_govmind.Base.{◌≡◌, refl, Bool, true, false, Option, none, some, if◌then◌else◌, arith}
use ic_govmind.Js.Text.{Text, codes}
use ic_govmind.DaoPage.{is_valid_tab, initial_tab, sync_tab, IsShown, start, synced, clicked}

initial_tab_valid : (query : Option Text) → is_valid_tab (initial_tab query) ≡ true
unfolding initial_tab is_valid_tab
initial_tab_valid none = refl
initial_tab_valid (some t) = go (is_valid_tab t) refl
  where
    go : (b : Bool) → is_valid_tab t ≡ b → is_valid_tab (if b then t else codes "overview") ≡ true
    go true h = h
    go false h = refl

sync_tab_valid :
    (query : Option Text) (active : Text)
    → is_valid_tab active ≡ true
    → is_valid_tab (sync_tab query active) ≡ true
unfolding sync_tab
sync_tab_valid none active h = h
sync_tab_valid (some t) active h = ground arith

-- Whatever the address of the page says and whatever tab is clicked, the tab that is shown is a
-- valid one.
pub IsShown-valid_tab : (t : Text) → IsShown t → is_valid_tab t ≡ true
unfolding is_valid_tab
IsShown-valid_tab _ (start query) = initial_tab_valid query
IsShown-valid_tab _ (synced query active r) =
    sync_tab_valid query active (IsShown-valid_tab active r)
IsShown-valid_tab _ (clicked id active h r) = h

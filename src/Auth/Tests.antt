-- ===== src/Auth/Tests.antt =====
-- A login, and what the session then holds.
use ic_govmind.Base.{ℕ, ◌≡◌, refl, true, some, returns, throws, type_error}
use ic_govmind.Js.Text.{codes}
use ic_govmind.Auth.Session.{
  Session, Library, initial, set_factory, set_agent, login_principal, login_identity, login_success,
  init_client, login_succeeded, start, next,
}
use ic_govmind.Auth.Session.Laws.{IsOrdered, IsReachable-IsOrdered}

abbrev library : Library ℕ ℕ ℕ
library = record {
  get_identity = returns 1;
  to_text = λ i. returns (codes "w7x7r");
  new_agent = λ i. returns 2;
  create_factory_actor = λ a. throws (type_error "no canister");
}

abbrev ready : Session ℕ ℕ ℕ
ready = record (initial ℕ ℕ ℕ) { has_client = true }

logged_in : (login_success library ready).agent ≡ some 2
unfolding initial set_factory set_agent login_principal login_identity login_success
logged_in = refl

IsReachable-IsOrdered_example : IsOrdered (login_success library ready)
IsReachable-IsOrdered_example = IsReachable-IsOrdered (login_success library ready) (
    next ready (login_success library ready)
      (next (initial ℕ ℕ ℕ) ready start (init_client (initial ℕ ℕ ℕ)))
      (login_succeeded library ready refl))

-- ===== src/Auth/Session.antt =====
-- src/ic_govmind_frontend/src/hooks/useAuthClient.jsx: the state of `AuthProvider` and what
-- `initAuth`, `login` and `logout` do to it. An `await` ends a step, so that the steps of several
-- calls can come in between one another.
pub mod Laws
use ic_govmind.Base.{◌≡◌, Bool, true, false, Option, none, some, Outcome, returns, throws}
use ic_govmind.Js.Text.{Text}

module _ (I A F : Type 0) where
  pub record Session : Type 0 where
    pub has_client : Bool
    pub is_authenticated : Bool
    pub principal : Option Text
    pub identity : Option I
    pub agent : Option A
    pub factory_actor : Option F
    pub is_loading : Bool

  -- What the libraries do when a step calls them: `getIdentity` with `getPrincipal`, `toText`,
  -- `new HttpAgent` and `createFactoryActor`.
  pub record Library : Type 0 where
    pub get_identity : Outcome I
    pub to_text : I → Outcome Text
    pub new_agent : I → Outcome A
    pub create_factory_actor : A → Outcome F

  unfoldable pub initial : Session
  initial = record {
    has_client = false;
    is_authenticated = false;
    principal = none;
    identity = none;
    agent = none;
    factory_actor = none;
    is_loading = true;
  }

module _ {I A F : Type 0} (lib : Library I A F) where
  -- The ends of both calls, where the outcome of each library call decides how far they come.
  unfoldable pub set_factory : Outcome F → Session I A F → Session I A F
  set_factory (throws e) s = s
  set_factory (returns f) s = record s { factory_actor = some f }

  unfoldable pub set_agent : Outcome A → Session I A F → Session I A F
  set_agent (throws e) s = s
  set_agent (returns a) s = set_factory (lib.create_factory_actor a) (record s { agent = some a })

  -- `initAuth` behind `isAuthenticated()`.
  unfoldable pub init_principal : I → Outcome Text → Session I A F → Session I A F
  init_principal i (throws e) s = s
  init_principal i (returns t) s = set_agent (lib.new_agent i) (record s { principal = some t })

  unfoldable pub init_identity : Outcome I → Session I A F → Session I A F
  init_identity (throws e) s = s
  init_identity (returns i) s = init_principal i (lib.to_text i) (record s { identity = some i })

  unfoldable pub init_answer : Bool → Session I A F → Session I A F
  init_answer false s = record s { is_authenticated = false }
  init_answer true s = init_identity lib.get_identity (record s { is_authenticated = true })

  -- `onSuccess` of `login`.
  unfoldable pub login_principal : I → Outcome Text → Session I A F → Session I A F
  login_principal i (throws e) s = s
  login_principal i (returns t) s =
      set_agent (lib.new_agent i) (record s { principal = some t; is_authenticated = true })

  unfoldable pub login_identity : Outcome I → Session I A F → Session I A F
  login_identity (throws e) s = s
  login_identity (returns i) s = login_principal i (lib.to_text i) (record s { identity = some i })

  unfoldable pub login_success : Session I A F → Session I A F
  login_success s = login_identity lib.get_identity s

module _ {I A F : Type 0} where
  unfoldable pub signed_out : Session I A F → Session I A F
  signed_out s = record s {
    is_authenticated = false;
    principal = none;
    identity = none;
    agent = none;
    factory_actor = none;
  }

  -- One step of a call: `initAuth` makes its client and hears its answer, `login` and `logout`
  -- return at once without a client, and a `finally` block ends each.
  pub data Step : Session I A F → Session I A F → Type 0 where
    init_client : (s : Session I A F) → Step s (record s { has_client = true })
    init_answered :
        (lib : Library I A F) (b : Bool) (s : Session I A F)
        → s.has_client ≡ true
        → Step s (init_answer lib b s)
    started : (s : Session I A F) → s.has_client ≡ true → Step s (record s { is_loading = true })
    login_succeeded :
        (lib : Library I A F) (s : Session I A F)
        → s.has_client ≡ true
        → Step s (login_success lib s)
    logout_done : (s : Session I A F) → s.has_client ≡ true → Step s (signed_out s)
    ended : (s : Session I A F) → Step s (record s { is_loading = false })

  pub data IsReachable : Session I A F → Type 0 where
    start : IsReachable (initial I A F)
    next : (s t : Session I A F) → IsReachable s → Step s t → IsReachable t

-- ===== src/Auth/Session/Laws.antt =====
-- What stands in a session together, whatever the order of the calls' steps and whatever throws.
use ic_govmind.Base.{◌≡◌, refl, Bool, true, false, is_some, Outcome, returns, throws}
use ic_govmind.Js.Text.{Text}
use ic_govmind.Auth.Session.{
  Session, Library, initial, set_factory, set_agent, init_principal, init_identity, login_principal,
  login_identity, init_answer, login_success, signed_out, Step, IsReachable, init_client,
  init_answered, started, login_succeeded, logout_done, ended, start, next,
}

module _ {I A F : Type 0} where
  pub record IsOrdered (s : Session I A F) : Type 0 where
    pub actor_has_agent : is_some s.factory_actor ≡ true → is_some s.agent ≡ true
    pub agent_has_principal : is_some s.agent ≡ true → is_some s.principal ≡ true
    pub principal_has_identity : is_some s.principal ≡ true → is_some s.identity ≡ true
    pub authenticated_has_client : s.is_authenticated ≡ true → s.has_client ≡ true

  initial-IsOrdered : IsOrdered (initial I A F)
  unfolding initial
  initial-IsOrdered = record {
    actor_has_agent = λ h. h;
    agent_has_principal = λ h. h;
    principal_has_identity = λ h. h;
    authenticated_has_client = λ h. h;
  }

  module _ (lib : Library I A F) where
    set_factory-IsOrdered :
        (m : Outcome F) (s : Session I A F)
        → is_some s.agent ≡ true
        → IsOrdered s
        → IsOrdered (set_factory lib m s)
    unfolding set_factory
    set_factory-IsOrdered (throws e) s h o = o
    set_factory-IsOrdered (returns f) s h o = record {
      actor_has_agent = λ _. h;
      agent_has_principal = o.agent_has_principal;
      principal_has_identity = o.principal_has_identity;
      authenticated_has_client = o.authenticated_has_client;
    }

    set_agent-IsOrdered :
        (m : Outcome A) (s : Session I A F)
        → is_some s.principal ≡ true
        → IsOrdered s
        → IsOrdered (set_agent lib m s)
    unfolding set_agent
    set_agent-IsOrdered (throws e) s h o = o
    set_agent-IsOrdered (returns a) s h o =
        set_factory-IsOrdered (lib.create_factory_actor a) _ refl (record {
          actor_has_agent = λ _. refl;
          agent_has_principal = λ _. h;
          principal_has_identity = o.principal_has_identity;
          authenticated_has_client = o.authenticated_has_client;
        })

    init_principal-IsOrdered :
        (i : I) (m : Outcome Text) (s : Session I A F)
        → is_some s.identity ≡ true
        → IsOrdered s
        → IsOrdered (init_principal lib i m s)
    unfolding init_principal
    init_principal-IsOrdered i (throws e) s h o = o
    init_principal-IsOrdered i (returns t) s h o =
        set_agent-IsOrdered (lib.new_agent i) _ refl (record {
          actor_has_agent = o.actor_has_agent;
          agent_has_principal = λ _. refl;
          principal_has_identity = λ _. h;
          authenticated_has_client = o.authenticated_has_client;
        })

    init_identity-IsOrdered :
        (m : Outcome I) (s : Session I A F) → IsOrdered s → IsOrdered (init_identity lib m s)
    unfolding init_identity
    init_identity-IsOrdered (throws e) s o = o
    init_identity-IsOrdered (returns i) s o =
        init_principal-IsOrdered i (lib.to_text i) _ refl (record {
          actor_has_agent = o.actor_has_agent;
          agent_has_principal = o.agent_has_principal;
          principal_has_identity = λ _. refl;
          authenticated_has_client = o.authenticated_has_client;
        })

    init_answer-IsOrdered :
        (b : Bool) (s : Session I A F)
        → s.has_client ≡ true
        → IsOrdered s
        → IsOrdered (init_answer lib b s)
    unfolding init_answer
    init_answer-IsOrdered false s h o = record {
      actor_has_agent = o.actor_has_agent;
      agent_has_principal = o.agent_has_principal;
      principal_has_identity = o.principal_has_identity;
      authenticated_has_client = λ _. h;
    }
    init_answer-IsOrdered true s h o = init_identity-IsOrdered lib.get_identity _ (record {
      actor_has_agent = o.actor_has_agent;
      agent_has_principal = o.agent_has_principal;
      principal_has_identity = o.principal_has_identity;
      authenticated_has_client = λ _. h;
    })

    login_principal-IsOrdered :
        (i : I) (m : Outcome Text) (s : Session I A F)
        → s.has_client ≡ true
        → is_some s.identity ≡ true
        → IsOrdered s
        → IsOrdered (login_principal lib i m s)
    unfolding login_principal
    login_principal-IsOrdered i (throws e) s c h o = o
    login_principal-IsOrdered i (returns t) s c h o =
        set_agent-IsOrdered (lib.new_agent i) _ refl (record {
          actor_has_agent = o.actor_has_agent;
          agent_has_principal = λ _. refl;
          principal_has_identity = λ _. h;
          authenticated_has_client = λ _. c;
        })

    login_success-IsOrdered :
        (m : Outcome I) (s : Session I A F)
        → s.has_client ≡ true
        → IsOrdered s
        → IsOrdered (login_identity lib m s)
    unfolding login_identity
    login_success-IsOrdered (throws e) s c o = o
    login_success-IsOrdered (returns i) s c o =
        login_principal-IsOrdered i (lib.to_text i) _ c refl (record {
          actor_has_agent = o.actor_has_agent;
          agent_has_principal = o.agent_has_principal;
          principal_has_identity = λ _. refl;
          authenticated_has_client = o.authenticated_has_client;
        })

  Step-IsOrdered : (s t : Session I A F) → IsOrdered s → Step s t → IsOrdered t
  unfolding login_success signed_out
  Step-IsOrdered _ _ o (init_client s) = record {
    actor_has_agent = o.actor_has_agent;
    agent_has_principal = o.agent_has_principal;
    principal_has_identity = o.principal_has_identity;
    authenticated_has_client = λ _. refl;
  }
  Step-IsOrdered _ _ o (init_answered lib b s h) = init_answer-IsOrdered lib b s h o
  Step-IsOrdered _ _ o (started s h) = record {
    actor_has_agent = o.actor_has_agent;
    agent_has_principal = o.agent_has_principal;
    principal_has_identity = o.principal_has_identity;
    authenticated_has_client = o.authenticated_has_client;
  }
  Step-IsOrdered _ _ o (login_succeeded lib s h) =
      login_success-IsOrdered lib lib.get_identity s h o
  Step-IsOrdered _ _ o (logout_done s h) = record {
    actor_has_agent = λ k. k;
    agent_has_principal = λ k. k;
    principal_has_identity = λ k. k;
    authenticated_has_client = λ _. h;
  }
  Step-IsOrdered _ _ o (ended s) = record {
    actor_has_agent = o.actor_has_agent;
    agent_has_principal = o.agent_has_principal;
    principal_has_identity = o.principal_has_identity;
    authenticated_has_client = o.authenticated_has_client;
  }

  -- In every session that any order of the steps of `initAuth`, `login` and `logout` leads to,
  -- whatever throws in between: a factory actor has its agent, an agent its principal, a principal
  -- its identity, and who is authenticated has a client and so can log out.
  pub IsReachable-IsOrdered : (s : Session I A F) → IsReachable s → IsOrdered s
  IsReachable-IsOrdered _ start = initial-IsOrdered
  IsReachable-IsOrdered _ (next s t r step) = Step-IsOrdered s t (IsReachable-IsOrdered s r) step

-- ===== src/Handler/Security/Guards.antt =====
-- The guards of internal/auth/oidc.go and dev.go implement the interface.
use clawbake.Base.{◌∷◌, ◌≡◌, inl, inr, refl, Text, String, Option, none, some, codes}
use clawbake.Api.{ok, err}
use clawbake.Database.{User}
use clawbake.Http.{Request, Reply}
use clawbake.Effects.{
  Call, Response, load_session, get_user_by_id, get_user_by_email, Session, SessionValue, text,
  not_text, Trace,
}
use clawbake.Effects.Paths.{event, Occurs, Every, AllPaths, AllPaths-if}
use clawbake.Auth.{Libraries, as_string, session_id, with_user, is_browser_request}
use clawbake.Auth.Oidc.{
  require_user, require_value, require_auth, optional_user, optional_auth, ask_to_log_in,
}
use clawbake.Auth.Dev.{
  dev_spec_for_role, with_role, require_role, dev_require_auth, optional_role, dev_optional_auth,
  get_dev_user,
}
use clawbake.Auth.Guards.{
  HasSession, HasDevRole, TurnsAway, redirect-TurnsAway, unauthorized-TurnsAway, Handler,
}
use clawbake.Handler.Routes.{oidc_guard, dev_guard}
use clawbake.Handler.Security.{Inquiry, GuardLaws}

module _ (J : Call → Trace → Type 0) (P : Reply → Trace → Type 0) (request : Request)
    (inquiry : (c : Call) (s : Trace) → Inquiry c → J c s) where
  module _ (away : (reply : Reply) (s : Trace) → TurnsAway reply → Every J s → P reply s) where
    ask_to_log_in-AllPaths :
        (page : Text) (t : Trace) → Every J t → AllPaths P P (ask_to_log_in page request) t
    unfolding ask_to_log_in
    ask_to_log_in-AllPaths page t k =
        AllPaths-if P P (is_browser_request request) _ _ t (λ _. away _ t (redirect-TurnsAway _) k)
          (λ _. away _ t (unauthorized-TurnsAway _) k)

  -- The session was loaded before, and carries the value.
  module _ (l : Libraries) (next : Handler)
      (go : (u : User) (s : Trace)
        → HasSession l u s
        → Every J s
        → AllPaths P P (next (with_user u request)) s) where
    found :
        (s : Session) (value : Text) (id : String) (t : Trace) (u : User)
        → Occurs load_session s t
        → s.user_id ≡ some (text value)
        → l.parse_uuid value ≡ some id
        → Every J t
        → AllPaths P P (next (with_user u request)) (event (get_user_by_id id) (ok u) ∷ t)
    found s value id t u a b c k =
        go u _ (s, value, id, inr a, b, c, inl refl) (inquiry (get_user_by_id id) t tt, k)

    require_user-none :
        ((reply : Reply) (s : Trace) → TurnsAway reply → Every J s → P reply s)
        → (t : Trace) → Every J t
        → AllPaths P P (require_user l request next none) t
    unfolding require_user
    require_user-none away t k = away _ t (unauthorized-TurnsAway _) k

    optional_user-none :
        ((s : Trace) → Every J s → AllPaths P P (next request) s)
        → (t : Trace) → Every J t
        → AllPaths P P (optional_user l request next none) t
    unfolding optional_user
    optional_user-none plain t k = plain t k

    -- The id is looked up in the database.
    module _ (s : Session) (value : Text) (t : Trace) (a : Occurs load_session s t)
        (b : s.user_id ≡ some (text value)) (k : Every J t) where
      require_user-AllPaths :
          ((reply : Reply) (s : Trace) → TurnsAway reply → Every J s → P reply s)
          → (id : Option String) → l.parse_uuid value ≡ id
          → AllPaths P P (require_user l request next id) t
      unfolding require_user
      require_user-AllPaths away none c = away _ t (unauthorized-TurnsAway _) k
      require_user-AllPaths away (some id) c = elim [
        | ok u ↦ found s value id t u a b c k
        | err e ↦ away _ _ (unauthorized-TurnsAway _) (inquiry (get_user_by_id id) t tt, k)
      ]

      optional_user-AllPaths :
          ((s : Trace) → Every J s → AllPaths P P (next request) s)
          → (id : Option String) → l.parse_uuid value ≡ id
          → AllPaths P P (optional_user l request next id) t
      unfolding optional_user
      optional_user-AllPaths plain none c = plain t k
      optional_user-AllPaths plain (some id) c = elim [
        | ok u ↦ found s value id t u a b c k
        | err e ↦ plain _ (inquiry (get_user_by_id id) t tt, k)
      ]

    require_value-AllPaths :
        (away : (reply : Reply) (s : Trace) → TurnsAway reply → Every J s → P reply s) (s : Session)
        (t : Trace)
        → Occurs load_session s t
        → Every J t
        → (v : Option SessionValue) → s.user_id ≡ v
        → AllPaths P P (require_value l request next v) t
    unfolding require_value
    require_value-AllPaths away s t a k none e =
        ask_to_log_in-AllPaths away (codes "/auth/login?redirect=") t k
    require_value-AllPaths away s t a k (some not_text) e = require_user-none away t k
    require_value-AllPaths away s t a k (some (text value)) e =
        require_user-AllPaths s value t a e k away (l.parse_uuid value) refl

    optional_value-AllPaths :
        (plain : (s : Trace) → Every J s → AllPaths P P (next request) s) (s : Session) (t : Trace)
        → Occurs load_session s t
        → Every J t
        → (v : Option SessionValue) → s.user_id ≡ v
        → AllPaths P P (optional_user l request next (session_id l v)) t
    optional_value-AllPaths plain s t a k none e = optional_user-none plain t k
    optional_value-AllPaths plain s t a k (some not_text) e = optional_user-none plain t k
    optional_value-AllPaths plain s t a k (some (text value)) e =
        optional_user-AllPaths s value t a e k plain (l.parse_uuid value) refl

  -- The development server: the user of a role.
  module _ (next : Handler)
      (go : (u : User) (s : Trace)
        → HasDevRole u s
        → Every J s
        → AllPaths P P (next (with_user u request)) s) where
    with_role-AllPaths :
        (s : Session) (role : Text) (t : Trace)
        → Occurs load_session s t
        → s.dev_role ≡ some (text role)
        → Every J t
        → AllPaths P P (with_role request next role) t
    unfolding with_role get_dev_user
    with_role-AllPaths s role t a b k = elim [
      | ok u ↦
          go u _ (s, role, inr a, b, inl (inl refl))
            (inquiry (get_user_by_email (dev_spec_for_role role).email) t tt, k)
      | err e ↦
          go _ _ (s, role, inr a, b, inr refl)
            (inquiry (get_user_by_email (dev_spec_for_role role).email) t tt, k)
    ]

    require_role-AllPaths :
        (away : (reply : Reply) (s : Trace) → TurnsAway reply → Every J s → P reply s) (s : Session)
        (t : Trace)
        → Occurs load_session s t
        → Every J t
        → (v : Option SessionValue) → s.dev_role ≡ v
        → AllPaths P P (require_role request next (as_string v)) t
    unfolding require_role
    require_role-AllPaths away s t a k none e =
        ask_to_log_in-AllPaths away (codes "/auth/dev-login?redirect=") t k
    require_role-AllPaths away s t a k (some not_text) e =
        ask_to_log_in-AllPaths away (codes "/auth/dev-login?redirect=") t k
    require_role-AllPaths away s t a k (some (text role)) e = with_role-AllPaths s role t a e k

    optional_role-AllPaths :
        (plain : (s : Trace) → Every J s → AllPaths P P (next request) s) (s : Session) (t : Trace)
        → Occurs load_session s t
        → Every J t
        → (v : Option SessionValue) → s.dev_role ≡ v
        → AllPaths P P (optional_role request next (as_string v)) t
    unfolding optional_role
    optional_role-AllPaths plain s t a k none e = plain t k
    optional_role-AllPaths plain s t a k (some not_text) e = plain t k
    optional_role-AllPaths plain s t a k (some (text role)) e = with_role-AllPaths s role t a e k

pub oidc_guard_lem : (l : Libraries) → GuardLaws (oidc_guard l) (HasSession l)
unfolding require_auth optional_auth
oidc_guard_lem l = record {
  trusted_later = λ u c r t (s, value, id, a, b, d, e). (s, value, id, inr a, b, d, inr e);
  required_law = λ J P request next t inquiry away go k s.
      require_value-AllPaths J P request inquiry l next go away s _ (inl refl)
        (inquiry load_session t tt, k) s.user_id refl;
  optional_law = λ J P request next t inquiry plain go k s.
      optional_value-AllPaths J P request inquiry l next go plain s _ (inl refl)
        (inquiry load_session t tt, k) s.user_id refl;
}

dev_role_later :
    (u : User) (c : Call) (r : Response c) (t : Trace)
    → HasDevRole u t
    → HasDevRole u (event c r ∷ t)
dev_role_later u c r t (s, role, a, b, inl d) = (s, role, inr a, b, inl (inr d))
dev_role_later u c r t (s, role, a, b, inr d) = (s, role, inr a, b, inr d)

pub dev_guard_lem : GuardLaws dev_guard HasDevRole
unfolding dev_require_auth dev_optional_auth
dev_guard_lem = record {
  trusted_later = dev_role_later;
  required_law = λ J P request next t inquiry away go k s.
      require_role-AllPaths J P request inquiry next go away s _ (inl refl)
        (inquiry load_session t tt, k) s.dev_role refl;
  optional_law = λ J P request next t inquiry plain go k s.
      optional_role-AllPaths J P request inquiry next go plain s _ (inl refl)
        (inquiry load_session t tt, k) s.dev_role refl;
}

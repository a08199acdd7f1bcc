-- ===== src/Auth/Guards.antt =====
-- Whom the guards of internal/auth let through to a handler.
use clawbake.Base.{
  ◌∷◌, Bool, true, false, ◌≡◌, ◌≢◌, ◌∙◌, if_elim, ne_of_test, ◌⊎◌, inl, inr, refl, Text, String,
  Option, none, some, codes, string_eq, ◌==◌, if◌then◌else◌, Bool-cases, ==_sound, ◌++◌,
}
use clawbake.Api.{Error, Result, ok, err}
use clawbake.Database.{User}
use clawbake.Effects.{
  get_user_by_id, get_user_by_email, load_session, Session, SessionValue, text, not_text, Trace,
  Oracle, Prog, ◌>>=◌, run,
}
use clawbake.Effects.Paths.{event, Occurs}
use clawbake.Http.{Request, Reply, http_error, redirect}
use clawbake.Auth.{Libraries, with_user, require_admin, query_escape, is_browser_request}
use clawbake.Auth.Dev.{dev_spec_for_role, synthetic_user}
use clawbake.Auth.Oidc.{or_error, require_auth, require_value, require_user, ask_to_log_in}

abbrev pub Handler : Type 0
Handler = Request → Prog Reply Reply

-- A reply that sends the client away.
abbrev pub TurnsAway : Reply → Type 0
TurnsAway reply =
    ((target : Text) × (reply ≡ redirect 302 target))
    ⊎ ((message : String) × ((reply ≡ http_error 401 message) ⊎ (reply ≡ http_error 403 message)))

pub redirect-TurnsAway : (target : Text) → TurnsAway (redirect 302 target)
redirect-TurnsAway target = inl (target, refl)

pub unauthorized-TurnsAway : (message : String) → TurnsAway (http_error 401 message)
unauthorized-TurnsAway message = inr (message, inl refl)

-- The database returned the user for the id that the session carries.
abbrev pub HasSession : Libraries → User → Trace → Type 0
HasSession l u t' =
    (s : Session) × (value : Text) × (id : String) × Occurs load_session s t'
    × (s.user_id ≡ some (text value))
    × (l.parse_uuid value ≡ some id)
    × Occurs (get_user_by_id id) (ok u) t'

-- A browser is sent to the login page, which is to lead back to the URI; another client gets status
-- 401.
abbrev pub AsksToLogIn : Text → Request → Reply → Type 0
AsksToLogIn page request reply =
    ((is_browser_request request ≡ true)
      × (reply ≡ redirect 302 (page ++ query_escape request.request_uri)))
    ⊎ ((is_browser_request request ≡ false) × (reply ≡ http_error 401 "authentication required"))

-- The session carries nothing, nothing that can be an id, or an id for which the database returns no
-- user; what the client is told of it.
abbrev pub NoSession : Libraries → Request → Reply → Trace → Type 0
NoSession l request reply t' =
    (s : Session) × Occurs load_session s t'
    × (((s.user_id ≡ none) × AsksToLogIn (codes "/auth/login?redirect=") request reply)
        ⊎ (((s.user_id ≡ some not_text) × (reply ≡ http_error 401 "invalid session"))
            ⊎ ((value : Text) × (s.user_id ≡ some (text value))
                × (((l.parse_uuid value ≡ none) × (reply ≡ http_error 401 "invalid session"))
                    ⊎ ((id : String) × (e : Error) × (l.parse_uuid value ≡ some id)
                        × Occurs (get_user_by_id id) (err e) t'
                        × (reply ≡ http_error 401 "user not found"))))))

module _ (o : Oracle) (t : Trace) (request : Request) where
  -- A guard either runs the handler for a user of whom `Trusted` holds, or replies by itself, which
  -- `Refused` justifies, with the same result whatever the handler is.
  abbrev pub Guards :
      (User → Trace → Type 0) → (Reply → Trace → Type 0) → (Handler → Prog Reply Reply) → Type 0
  Guards Trusted Refused guard =
      ((u : User) × (u' : Trace) × Trusted u u'
        × ((next : Handler) → run o (guard next) t ≡ run o (next (with_user u request)) u'))
      ⊎ ((reply : Reply) × (u' : Trace) × Refused reply u'
          × ((next : Handler) → run o (guard next) t ≡ (reply, u')))

  ask_to_log_in-Guards :
      (P : User → Trace → Type 0) (Q : Reply → Trace → Type 0) (page : Text)
      → ((reply : Reply) → AsksToLogIn page request reply → Q reply t)
      → Guards P Q (λ _. ask_to_log_in page request)
  unfolding ask_to_log_in
  ask_to_log_in-Guards P Q page h =
      if_elim (λ m. Guards P Q (λ _. m)) (is_browser_request request) _ _
        (λ browser. inr (_, t, h _ (inl (browser, refl)), λ next. refl))
        (λ other. inr (_, t, h _ (inr (other, refl)), λ next. refl))

module _ (l : Libraries) (o : Oracle) (request : Request) where
  module _ (t : Trace) (s : Session) (value : Text) (loaded : Occurs load_session s t)
      (carried : s.user_id ≡ some (text value)) where
    answered-Guards :
        (id : String)
        → l.parse_uuid value ≡ some id
        → (got : Result User)
        → Guards o
            (event (get_user_by_id id) got ∷ t)
            request
            (HasSession l)
            (NoSession l request)
            (λ next.
              or_error (http_error 401 "user not found") got >>= λ u. next (with_user u request))
    answered-Guards id e (ok u) =
        inl (u, _, (s, value, id, inr loaded, carried, e, inl refl), λ next. refl)
    answered-Guards id e (err x) = inr (
      _,
      _,
      (s, inr loaded, inr (inr (value, carried, inr (id, x, e, inl refl, refl)))),
      λ next. refl,
    )

    require_user-Guards :
        (id : Option String)
        → l.parse_uuid value ≡ id
        → Guards o t request
            (HasSession l)
            (NoSession l request)
            (λ next. require_user l request next id)
    unfolding require_user
    require_user-Guards none e =
        inr (_, _, (s, loaded, inr (inr (value, carried, inl (e, refl)))), λ next. refl)
    require_user-Guards (some id) e = answered-Guards id e (o t (get_user_by_id id))

  require_value-Guards :
      (t : Trace) (s : Session)
      → Occurs load_session s t
      → (value : Option SessionValue) → s.user_id ≡ value
      → Guards o t request
          (HasSession l)
          (NoSession l request)
          (λ next. require_value l request next value)
  unfolding require_value
  require_value-Guards t s a none e =
      ask_to_log_in-Guards o t request (HasSession l) (NoSession l request)
        (codes "/auth/login?redirect=") (λ reply asks. (s, a, inl (e, asks)))
  require_value-Guards t s a (some (text v)) e = require_user-Guards t s v a e (l.parse_uuid v) refl
  require_value-Guards t s a (some not_text) e =
      inr (_, _, (s, a, inr (inl (e, refl))), λ next. refl)

  -- `RequireAuth` either runs the handler for the user whom the database returned for the id in the
  -- session; or, whatever the handler is, it replies by itself. Then either the session carries no
  -- user, and a browser is redirected to the login page, with the URI of the request to come back to,
  -- while another client gets status 401; or what the session carries is no id, or the database
  -- returned no user for the id, and the status is 401.
  pub require_auth_admits :
      (t : Trace) → Guards o t request (HasSession l) (NoSession l request) (require_auth l request)
  unfolding require_auth
  require_auth_admits t =
      let s = o t load_session in
      require_value-Guards (event load_session s ∷ t) s (inl refl) s.user_id refl

-- The user stands in the database under the address of the role in the session, or is made up
-- for this role.
abbrev pub HasDevRole : User → Trace → Type 0
HasDevRole u t' =
    (s : Session) × (role : Text) × Occurs load_session s t'
    × (s.dev_role ≡ some (text role))
    × (Occurs (get_user_by_email (dev_spec_for_role role).email) (ok u) t'
        ⊎ (u ≡ synthetic_user (dev_spec_for_role role)))

-- The session carries no role.
abbrev pub NoDevRole : Request → Reply → Trace → Type 0
NoDevRole request reply t' =
    (s : Session) × Occurs load_session s t'
    × ((s.dev_role ≡ none) ⊎ (s.dev_role ≡ some not_text))
    × AsksToLogIn (codes "/auth/dev-login?redirect=") request reply

-- The database returned a user for the id in the session, who is no administrator.
abbrev pub NoAdmin : (User → Trace → Type 0) → (Reply → Trace → Type 0) → Reply → Trace → Type 0
NoAdmin Trusted Refused reply t' =
    Refused reply t'
    ⊎ ((u : User) × Trusted u t'
        × (u.role ≢ "admin")
        × (reply ≡ http_error 403 "admin access required"))

module _ (o : Oracle) (t : Trace) (request : Request) where
  outcome :
      (next : Handler) (u : User) (u' : Trace) {b : Bool}
      → (u.role == "admin") ≡ b
      → run o (require_admin (with_user u request) next) u' ≡ (
          if b
          then run o (next (with_user u request)) u'
          else (http_error 403 "admin access required", u'))
  unfolding require_admin
  outcome next u u' {b = true} e = rw e
  outcome next u u' {b = false} e = rw e

  require_admin-Guards :
      (P : User → Trace → Type 0) (Q : Reply → Trace → Type 0) (guard : Handler → Prog Reply Reply)
      → Guards o t request P Q guard
      → Guards o t request
          (λ u u'. P u u' × (u.role ≡ "admin"))
          (NoAdmin P Q)
          (λ next. guard (λ r. require_admin r next))
  unfolding require_admin
  require_admin-Guards P Q guard (inr (reply, u', refused, h)) =
      inr (reply, u', inl refused, λ next. h _)
  require_admin-Guards P Q guard (inl (u, u', p, h)) = elim (Bool-cases (u.role == "admin")) [
    | inl admin ↦
        inl (u, u', (p, ==_sound u.role "admin" admin), λ next. h _ ∙ outcome next u u' admin)
    | inr other ↦ inr (
      http_error 403 "admin access required",
      u',
      inr (u, p, ne_of_test u.role "admin" other, refl),
      λ next. h _ ∙ outcome next u u' other,
    )
  ]

  -- An endpoint behind `RequireAuth` and `RequireAdmin` runs its handler only for a user whom the
  -- database returned for the id in the session with the role "admin"; otherwise, whatever the
  -- handler is, the reply is the one of `RequireAuth` for a session without a user, or has status 403
  -- where the user of the session has another role.
  pub admin_endpoints_need_an_admin :
      (l : Libraries)
      → Guards o t request
          (λ u u'. HasSession l u u' × (u.role ≡ "admin"))
          (NoAdmin (HasSession l) (NoSession l request))
          (λ next. require_auth l request (λ r. require_admin r next))
  admin_endpoints_need_an_admin l =
      require_admin-Guards (HasSession l) (NoSession l request) (require_auth l request)
        (require_auth_admits l o request t)

-- ===== src/Auth/Oidc.antt =====
-- internal/auth/oidc.go: the login at an identity provider, and the guards of its sessions.
use clawbake.Base.{
  String, Bool, ◌||◌, not, none, some, ◌++◌, Option, Text, codes, is_empty, text_eq, string_eq,
  ◌==◌, if◌then◌else◌,
}
use clawbake.Api.{Result, ok, err}
use clawbake.Database.{User, CreateUserParams, UpdateUserParams}
use clawbake.Effects.{
  SessionValue, text, Session, OidcClaims, Verified, refused, unreadable, claims, get_user_by_id,
  get_user_by_email, get_user_by_oidc_subject, create_user, update_user, random_hex, load_session,
  save_session, exchange_code, verify_token, Prog, pure, return, ◌>>=◌, ◌>>◌, call,
}
use clawbake.Http.{Request, Reply, http_error, redirect, redirect_to_provider}
use clawbake.Auth.{
  Libraries, query_escape, safe_redirect_path, is_browser_request, as_string, session_id, with_user,
}

-- `if err != nil { return echo.NewHTTPError(code, message) }`
abbrev pub or_error : {A : Type 0} → Reply → Result A → Prog Reply A
or_error reply (ok a) = pure a
or_error reply (err e) = return reply

-- `LoginHandler`
unfoldable pub login_handler : Request → Prog Reply Reply
login_handler request = do
  answer ← call (random_hex 16)
  state ← or_error (http_error 500 "failed to generate state") answer
  session ← call load_session
  let stated = record session { oauth_state = some (text (codes state)) }
  let target = request.query_param "redirect"
  saved ← call (
      save_session (
        if not (is_empty target)
        then record stated { redirect_url = some (text target) }
        else stated))
  or_error (http_error 500 "failed to save session") saved
  return (redirect_to_provider state)

-- `!(!ok || savedState == "" || savedState != state)`
abbrev pub state_matches : Option Text → Text → Bool
state_matches none state = Bool.false
state_matches (some saved) state = not (is_empty saved || not (saved == state))

abbrev pub present : Option Text → Prog Reply Text
present (some t) = pure t
present none = return (http_error 401 "missing id_token")

abbrev pub readable : Verified → Prog Reply OidcClaims
readable refused = return (http_error 401 "invalid id_token")
readable unreadable = return (http_error 500 "failed to parse claims")
readable (claims c) = pure c

-- The fields of the update that links a subject; the others are not valid.
abbrev pub link_params : User → OidcClaims → UpdateUserParams
link_params u c = record {
  id = u.id;
  email = none;
  name = none;
  picture = none;
  role = none;
  oidc_subject = some c.sub;
  slack_user_id = none;
}

abbrev pub create_params : OidcClaims → CreateUserParams
create_params c = record {
  email = c.email;
  name = c.name;
  picture = if not (c.picture == "") then some c.picture else none;
  role = "user";
  oidc_subject = c.sub;
  slack_user_id = none;
}

unfoldable pub link_or_create : OidcClaims → Result User → Prog Reply User
link_or_create c (ok u) = do
  linked ← call (update_user (link_params u c))
  or_error (http_error 500 "failed to link user") linked
link_or_create c (err e) = do
  created ← call (create_user (create_params c))
  or_error (http_error 500 "failed to create user") created

unfoldable pub by_subject_or_email : OidcClaims → Result User → Prog Reply User
unfolding link_or_create
by_subject_or_email c (ok u) = pure u
by_subject_or_email c (err e) = do
  by_email ← call (get_user_by_email c.email)
  link_or_create c by_email

-- The value of the cookie and the place to go, from the user's session.
abbrev pub take_redirect : Option Text → Session → Session × Text
take_redirect (some r) session = (record session { redirect_url = none }, safe_redirect_path r)
take_redirect none session = (session, codes "/")

-- The cookie is written and the browser sent on.
unfoldable pub save_and_go : Session × Text → Prog Reply Reply
save_and_go taken = do
  saved ← call (save_session taken.0)
  or_error (http_error 500 "failed to save session") saved
  return (redirect 302 taken.1)

unfoldable pub log_in : Session → User → Prog Reply Reply
unfolding save_and_go
log_in session u = save_and_go (
    take_redirect (as_string session.redirect_url)
      (record session { user_id = some (text (codes u.id)) }))

-- From the exchange of the code on.
unfoldable pub exchange_and_log_in : Session → Request → Prog Reply Reply
unfolding by_subject_or_email log_in
exchange_and_log_in session request = do
  answer ← call (exchange_code (request.query_param "code"))
  token ← or_error (http_error 401 "failed to exchange code") answer
  raw ← present token
  verified ← call (verify_token raw)
  c ← readable verified
  by_subject ← call (get_user_by_oidc_subject c.sub)
  u ← by_subject_or_email c by_subject
  log_in session u

-- `CallbackHandler`
unfoldable pub callback_handler : Request → Prog Reply Reply
unfolding exchange_and_log_in
callback_handler request = do
  session ← call load_session
  if not (state_matches (as_string session.oauth_state) (request.query_param "state"))
      then return (http_error 400 "invalid oauth state")
      else exchange_and_log_in (record session { oauth_state = none }) request

-- `LogoutHandler`, of both
unfoldable pub logout_handler : Prog Reply Reply
logout_handler = do
  session ← call load_session
  call (save_session (record session { expired = Bool.true }))
  return (redirect 302 (codes "/"))

-- No session: a browser is sent to the login page.
unfoldable pub ask_to_log_in : Text → Request → Prog Reply Reply
unfolding is_browser_request query_escape
ask_to_log_in login_page request =
    if is_browser_request request
    then return (redirect 302 (login_page ++ query_escape request.request_uri))
    else return (http_error 401 "authentication required")

module _ (l : Libraries) where
  unfoldable pub require_user :
      Request → (Request → Prog Reply Reply) → Option String → Prog Reply Reply
  require_user request next none = return (http_error 401 "invalid session")
  require_user request next (some id) = do
    got ← call (get_user_by_id id)
    u ← or_error (http_error 401 "user not found") got
    next (with_user u request)

  unfoldable pub require_value :
      Request → (Request → Prog Reply Reply) → Option SessionValue → Prog Reply Reply
  unfolding ask_to_log_in require_user
  require_value request next none = ask_to_log_in (codes "/auth/login?redirect=") request
  require_value request next (some value) = require_user request next (session_id l (some value))

  -- `RequireAuth`
  unfoldable pub require_auth : Request → (Request → Prog Reply Reply) → Prog Reply Reply
  unfolding require_value
  require_auth request next = do
    session ← call load_session
    require_value request next session.user_id

  abbrev pub user_or_none : Request → (Request → Prog Reply Reply) → Result User → Prog Reply Reply
  user_or_none request next (ok u) = next (with_user u request)
  user_or_none request next (err e) = next request

  unfoldable pub optional_user :
      Request → (Request → Prog Reply Reply) → Option String → Prog Reply Reply
  optional_user request next none = next request
  optional_user request next (some id) = do
    got ← call (get_user_by_id id)
    user_or_none request next got

  -- `OptionalAuth`
  unfoldable pub optional_auth : Request → (Request → Prog Reply Reply) → Prog Reply Reply
  unfolding optional_user
  optional_auth request next = do
    session ← call load_session
    optional_user request next (session_id l session.user_id)

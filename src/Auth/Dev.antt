-- ===== src/Auth/Dev.antt =====
-- internal/auth/dev.go: the login of the development server, by a role.
use clawbake.Base.{String, ◌&&◌, not, Option, none, some, Text, codes, text_eq, ◌==◌, if◌then◌else◌}
use clawbake.Api.{Result, ok, err, is_no_rows}
use clawbake.Database.{User, CreateUserParams}
use clawbake.Effects.{
  text, get_user_by_email, create_user, load_session, save_session, Prog, return, ◌>>=◌, ◌>>◌, call,
  block,
}
use clawbake.Http.{Request, Reply, http_error, redirect}
use clawbake.Auth.{safe_redirect_path, as_string, with_user}
use clawbake.Auth.Oidc.{or_error, ask_to_log_in}

pub record DevUserSpec : Type 0 where
  pub email : String
  pub name : String
  pub role : String
  pub oidc_subject : String

-- `devSpecForRole`
unfoldable pub dev_spec_for_role : Text → DevUserSpec
dev_spec_for_role role =
    if role == codes "admin"
    then record {
      email = "dev-admin@localhost";
      name = "Dev Admin";
      role = "admin";
      oidc_subject = "dev:admin";
    }
    else record {
      email = "dev-user@localhost";
      name = "Dev User";
      role = "user";
      oidc_subject = "dev:user";
    }

abbrev pub dev_create_params : DevUserSpec → CreateUserParams
dev_create_params s = record {
  email = s.email;
  name = s.name;
  picture = none;
  role = s.role;
  oidc_subject = s.oidc_subject;
  slack_user_id = none;
}

-- `ensureDevUser`
unfoldable pub ensure_dev_user : Text → Prog (Result User) (Result User)
unfolding dev_spec_for_role
ensure_dev_user role = do
  let spec = dev_spec_for_role role
  let create : Prog (Result User) (Result User) = call (create_user (dev_create_params spec))
  got ← call (get_user_by_email spec.email)
  elim got [ ok u ↦ return (ok u) | err e ↦ if not (is_no_rows e) then return (err e) else create ]

unfoldable pub known_role : Text → Text
known_role role =
    if not (role == codes "admin") && not (role == codes "user") then codes "user" else role

-- `LoginHandler`; a failure to store the user is only logged.
unfoldable pub dev_login_handler : Request → Prog Reply Reply
unfolding known_role ensure_dev_user
dev_login_handler request = do
  let role = known_role (request.query_param "role")
  block (ensure_dev_user role)
  session ← call load_session
  saved ← call (save_session (record session { dev_role = some (text role) }))
  or_error (http_error 500 "failed to save session") saved
  return (redirect 302 (safe_redirect_path (request.query_param "redirect")))

-- The user whom `getDevUser` makes up.
abbrev pub synthetic_user : DevUserSpec → User
synthetic_user s = record {
  id = "def00000-0000-0000-0000-000000000001";
  email = s.email;
  name = s.name;
  picture = none;
  role = s.role;
  oidc_subject = "";
  slack_user_id = none;
}

abbrev pub stored_or_made : DevUserSpec → Result User → User
stored_or_made s (ok u) = u
stored_or_made s (err e) = synthetic_user s

-- `getDevUser`
unfoldable pub get_dev_user : Text → Prog User User
unfolding dev_spec_for_role
get_dev_user role = do
  got ← call (get_user_by_email (dev_spec_for_role role).email)
  return (stored_or_made (dev_spec_for_role role) got)

-- The handler runs for the user of the role.
unfoldable pub with_role : Request → (Request → Prog Reply Reply) → Text → Prog Reply Reply
unfolding get_dev_user
with_role request next role = do u ← block (get_dev_user role); next (with_user u request)

unfoldable pub require_role :
    Request → (Request → Prog Reply Reply) → Option Text → Prog Reply Reply
unfolding ask_to_log_in with_role
require_role request next none = ask_to_log_in (codes "/auth/dev-login?redirect=") request
require_role request next (some role) = with_role request next role

-- `RequireAuth`
unfoldable pub dev_require_auth : Request → (Request → Prog Reply Reply) → Prog Reply Reply
unfolding require_role
dev_require_auth request next = do
  session ← call load_session
  require_role request next (as_string session.dev_role)

unfoldable pub optional_role :
    Request → (Request → Prog Reply Reply) → Option Text → Prog Reply Reply
unfolding with_role
optional_role request next none = next request
optional_role request next (some role) = with_role request next role

-- `OptionalAuth`
unfoldable pub dev_optional_auth : Request → (Request → Prog Reply Reply) → Prog Reply Reply
unfolding optional_role
dev_optional_auth request next = do
  session ← call load_session
  optional_role request next (as_string session.dev_role)

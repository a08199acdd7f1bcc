-- ===== src/Handler.antt =====
-- internal/handler/handler.go and what the handlers share. The user of a request is `none` where
-- `UserFromContext` gives nil, and its use then panics.
pub mod Layout
pub mod Instances
pub mod Pages
pub mod Admin
pub mod Proxy
pub mod Routes
pub mod Checks
pub mod Rights
pub mod Security
use clawbake.Base.{
  ℕ, String, Bool, ◌&&◌, not, Option, none, some, Text, codes, string_eq, ◌==◌, if◌then◌else◌,
}
use clawbake.Api.{Error, Result, ok, err, ClawInstance}
use clawbake.Database.{User}
use clawbake.Http.{Request, Reply, http_error, panicked}
use clawbake.Effects.{get_instance, delete_instance, Prog, pure, return, ◌>>=◌, call}

-- Of the configuration, what the handlers read; `h.DevAuth != nil` and `h.Bot != nil`.
pub record Config : Type 0 where
  pub kube_namespace : String
  pub tui_enabled : Bool
  pub shell_enabled : Bool
  pub instance_default_gateway_config : Text
  pub has_dev_auth : Bool
  pub has_bot : Bool

-- A step of a handler that calls nothing: it goes on with a value, or ends the handler.
pub data Check (A : Type 0) : Type 0 where
  pass : A → Check A
  fail : Reply → Check A

abbrev pub check : {A : Type 0} → Check A → Prog Reply A
check (pass a) = pure a
check (fail reply) = return reply

-- `if err != nil { return … }`
abbrev pub or_fail : {A : Type 0} → Reply → Result A → Check A
or_fail reply (ok a) = pass a
or_fail reply (err e) = fail reply

-- `if err == nil { return … }`
abbrev pub absent_or_fail : {A : Type 0} → Reply → Result A → Check Unit
absent_or_fail reply (ok a) = fail reply
absent_or_fail reply (err e) = pass tt

-- auth.UserFromContext, and the first use of the user
abbrev pub signed_in : Option User → Check User
signed_in (some u) = pass u
signed_in none = fail panicked

abbrev pub is_admin : User → Bool
is_admin u = u.role == "admin"

-- Whether an instance that was found is shown to the user.
unfoldable pub visible : User → ClawInstance → Check Unit
visible u i =
    if not (is_admin u) && not (i.spec.user_id == u.id)
    then fail (http_error 404 "instance not found")
    else pass tt

-- The page handlers for the administrator send others to the dashboard.
unfoldable pub admin_or_home : User → Check Unit
admin_or_home u = if not (is_admin u) then fail (Reply.redirect 302 (codes "/")) else pass tt

-- k8s.DeleteInstance
unfoldable pub k8s_delete_instance : String → String → Prog (Result Unit) (Result Unit)
k8s_delete_instance namespace name = do got ← call (get_instance namespace name); remove got
  where
    remove : Result ClawInstance → Prog (Result Unit) (Result Unit)
    remove (ok i) = call (delete_instance i)
    remove (err e) = return (err e)

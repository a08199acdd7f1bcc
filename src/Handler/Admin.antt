-- ===== src/Handler/Admin.antt =====
-- internal/handler/admin.go, notification.go and health.go.
use clawbake.Base.{
  [], ◌∷◌, ◌++◌, not, none, some, Option, Text, codes, is_empty, string_eq, ◌==◌, if◌then◌else◌,
}
use clawbake.Database.{UpdateDefaultsParams}
use clawbake.Http.{
  InstanceReadyRequest, Request, Reply, http_error, http_error_about, no_content, json_object,
  json_users, json_defaults,
}
use clawbake.Effects.{
  list_users, get_defaults, update_defaults, notify_from_server, Prog, return, ◌>>=◌, ◌>>◌, call,
}
use clawbake.Jsonutil.Json.{valid}
use clawbake.Jsonutil.Template.{extract_placeholders}
use clawbake.Jsonutil.Merge.{Validity, accepted, not_substituted, not_json, validate_template}
use clawbake.Handler.{Config, Check, pass, fail, check, or_fail}

-- `ListUsers`
unfoldable pub list_users_handler : Request → Prog Reply Reply
list_users_handler request = do
  answer ← call list_users
  users ← check (or_fail (http_error 500 "failed to list users") answer)
  return (json_users 200 users)

-- `GetDefaults`
unfoldable pub get_defaults_handler : Request → Prog Reply Reply
get_defaults_handler request = do
  answer ← call get_defaults
  defaults ← check (or_fail (http_error 500 "failed to get defaults") answer)
  return (json_defaults 200 defaults)

abbrev about_template : Text → Reply
about_template message = http_error_about 400 "gateway config template is not valid: " message

abbrev pub validity_or_fail : Validity → Check Unit
validity_or_fail accepted = pass tt
validity_or_fail (not_substituted message) =
    fail (about_template (codes "template substitution failed: " ++ message))
validity_or_fail not_json =
    fail (about_template (codes "template does not produce valid JSON after substitution"))

abbrev pub valid_or_fail : Text → Check Unit
valid_or_fail config =
    if not (valid config) then fail (http_error 400 "gateway config is not valid JSON") else pass tt

-- The test of a gateway configuration that is to become the default.
unfoldable pub check_defaults : Text → Check Unit
unfolding validate_template
check_defaults config =
    if not (is_empty (extract_placeholders config))
    then validity_or_fail (validate_template config)
    else valid_or_fail config

abbrev pub body_or_fail : Option UpdateDefaultsParams → Check UpdateDefaultsParams
body_or_fail (some body) = pass body
body_or_fail none = fail (http_error 400 "invalid request body")

-- `UpdateDefaults`; the fields of the request are those of the update.
unfoldable pub update_defaults_handler : Request → Prog Reply Reply
unfolding check_defaults
update_defaults_handler request = do
  params ← check (body_or_fail request.defaults_body)
  check (check_defaults params.gateway_config)
  answer ← call (update_defaults params)
  defaults ← check (or_fail (http_error 500 "failed to update defaults") answer)
  return (json_defaults 200 defaults)

module _ (h : Config) where
  -- `GetDefaultGatewayConfig`
  unfoldable pub get_default_gateway_config_handler : Request → Prog Reply Reply
  get_default_gateway_config_handler request =
      return (json_object 200 (("gatewayConfig", h.instance_default_gateway_config) ∷ []))

  abbrev pub bad_request : Text → Reply
  bad_request message = json_object 400 (("error", message) ∷ [])

  abbrev pub ready_body : Option InstanceReadyRequest → Check InstanceReadyRequest
  ready_body none = fail (bad_request (codes "invalid request body"))
  ready_body (some body) =
      if body.user_id == "" then fail (bad_request (codes "userId is required")) else pass body

  -- `NotifyInstanceReady`; the bot's notification runs in a goroutine.
  unfoldable pub notify_instance_ready_handler : Request → Prog Reply Reply
  notify_instance_ready_handler request =
      let notify : Prog Reply Reply = (do
        body ← check (ready_body request.ready_body)
        call (notify_from_server body.instance_name body.user_id)
        return (no_content 200)) in
      if h.has_bot then notify else return (no_content 200)

-- `HealthCheck`
unfoldable pub health_check_handler : Request → Prog Reply Reply
health_check_handler request = return (json_object 200 (("status", codes "ok") ∷ []))

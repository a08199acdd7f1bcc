-- ===== src/Http.antt =====
-- What the handlers read of a request (net/http, echo.Context), and what they reply.
use clawbake.Base.{ℕ, String, List, Bool, Option, Text}
use clawbake.Api.{ClawInstance}
use clawbake.Database.{User, InstanceDefault, UpdateDefaultsParams}

-- The body of POST /api/instances, as `c.Bind` gives it.
pub record CreateInstanceRequest : Type 0 where
  pub gateway_config_override : Text
  pub placeholder_values : List (Text × Text)

-- The body of POST /internal/notifications/instance-ready.
pub record InstanceReadyRequest : Type 0 where
  pub instance_name : String
  pub user_id : String

-- A header, a query parameter or a form value that is missing is empty. A body that `c.Bind` refuses
-- is `none`.
pub record Request : Type 0 where
  pub method : String
  pub path : Text
  pub raw_query : Text
  pub request_uri : Text
  pub header : String → Text
  pub query_param : String → Text
  -- c.FormValue, as the text that is parsed and as the string that is stored
  pub form_value : Text → Text
  pub form_string : String → String
  pub id_param : String
  pub has_body : Bool
  pub create_body : Option CreateInstanceRequest
  pub defaults_body : Option UpdateDefaultsParams
  pub ready_body : Option InstanceReadyRequest
  -- the user that the authentication put into the context
  pub user : Option User

-- The host and the port of an instance's service.
pub record Target : Type 0 where
  pub host : String
  pub port : ℕ

-- A request that is sent on to an instance.
pub record Outgoing : Type 0 where
  pub target : Target
  pub path : Text
  -- the header X-OpenClaw-Token
  pub token : Option String
  -- the header Origin, where it is rewritten to the target's
  pub origin : Option Target

-- The arguments of the dashboard's template.
pub record Dashboard : Type 0 where
  pub instances : List ClawInstance
  pub is_admin : Bool
  pub has_instance : Bool
  pub user_names : List (String × String)
  pub placeholders : List Text
  pub tui_enabled : Bool
  pub shell_enabled : Bool
  pub current_user_id : String

-- Who looks at an instance, and what is switched on.
pub record Viewer : Type 0 where
  pub is_admin : Bool
  pub tui_enabled : Bool
  pub shell_enabled : Bool
  pub is_owner : Bool

pub data Reply : Type 0 where
  -- echo.NewHTTPError with a message, and with a message that ends in a text of the run
  http_error : ℕ → String → Reply
  http_error_about : ℕ → String → Text → Reply
  redirect : ℕ → Text → Reply
  redirect_to_provider : String → Reply
  no_content : ℕ → Reply
  -- no content, with the header HX-Redirect
  hx_redirect : ℕ → Text → Reply
  json_object : ℕ → List (String × Text) → Reply
  json_instances : ℕ → List ClawInstance → Reply
  json_instance : ℕ → ClawInstance → Reply
  json_users : ℕ → List User → Reply
  json_defaults : ℕ → InstanceDefault → Reply
  page_login : Reply
  page_dev_login : Reply
  page_dashboard : Dashboard → Reply
  page_detail : ClawInstance → Viewer → Reply
  page_status : ClawInstance → Viewer → Bool → Reply
  page_users : List User → Reply
  page_defaults : InstanceDefault → Reply
  -- with the configuration's text, whether it is the pod's, and whether an admin looks at it
  page_edit_config : ClawInstance → Text → Bool → Bool → Reply
  forwarded : Outgoing → Reply
  piped : Reply
  -- a nil pointer or a nil map is used
  panicked : Reply

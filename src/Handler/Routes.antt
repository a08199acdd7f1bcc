-- ===== src/Handler/Routes.antt =====
-- `RegisterRoutes` of internal/handler/routes.go: which handler stands behind which guards. That the
-- router of echo finds the endpoint of a method and a path is not modelled. The routes under /auth
-- stand behind no guard: their handlers are in Auth.
use clawbake.Base.{Bool, none, some, Option, Text, codes, text_eq, ◌==◌, if◌then◌else◌}
use clawbake.Http.{Request, Reply, redirect, hx_redirect}
use clawbake.Effects.{Prog, return}
use clawbake.Auth.{Libraries, require_admin}
use clawbake.Auth.Oidc.{require_auth, optional_auth}
use clawbake.Auth.Dev.{dev_require_auth, dev_optional_auth}
use clawbake.Handler.{Config}
use clawbake.Handler.Instances.{
  list_instances_handler, create_instance_handler, get_instance_handler, delete_instance_handler,
}
use clawbake.Handler.Pages.{
  page_dashboard_handler, page_create_instance_handler, page_instance_detail_handler,
  page_instance_status_handler, page_delete_instance_handler, page_admin_users_handler,
  page_admin_defaults_handler, page_update_defaults_handler, page_edit_instance_config_handler,
  page_update_instance_config_handler,
}
use clawbake.Handler.Admin.{
  list_users_handler, get_defaults_handler, update_defaults_handler,
  get_default_gateway_config_handler, notify_instance_ready_handler, health_check_handler,
}
use clawbake.Handler.Proxy.{proxy_to_instance_handler, websocket_middleware}

-- The groups of routes: /, /ui, /api, /api/admin, /proxy and what has no guard.
pub data PublicEndpoint : Type 0 where
  healthz instance_ready : PublicEndpoint

pub data ApiEndpoint : Type 0 where
  api_list api_create api_get api_delete : ApiEndpoint

pub data AdminEndpoint : Type 0 where
  admin_users admin_defaults admin_update_defaults admin_default_config : AdminEndpoint

pub data UiEndpoint : Type 0 where
  ui_create ui_detail ui_status ui_edit_config ui_update_config ui_delete : UiEndpoint
  ui_admin_users ui_admin_defaults ui_update_defaults : UiEndpoint

pub data Endpoint : Type 0 where
  unguarded : PublicEndpoint → Endpoint
  api : ApiEndpoint → Endpoint
  admin : AdminEndpoint → Endpoint
  ui : UiEndpoint → Endpoint
  proxy : Endpoint
  dashboard : Endpoint

-- The guards of one way of logging in.
pub record Guard : Type 0 where
  pub required : Request → (Request → Prog Reply Reply) → Prog Reply Reply
  pub optional : Request → (Request → Prog Reply Reply) → Prog Reply Reply

abbrev pub oidc_guard : Libraries → Guard
oidc_guard l = record { required = require_auth l; optional = optional_auth l }

abbrev pub dev_guard : Guard
dev_guard = record { required = dev_require_auth; optional = dev_optional_auth }

-- `requireAuthUI`
unfoldable pub require_auth_ui : Request → (Request → Prog Reply Reply) → Prog Reply Reply
require_auth_ui request next = elim request.user [
  | some u ↦ next request
  | none ↦
      if request.header "HX-Request" == codes "true"
      then return (hx_redirect 200 (codes "/"))
      else return (redirect 302 (codes "/"))
]

module _ (h : Config) (float_text : Text → Option Text) (url_parses : Text → Bool) where
  abbrev pub public_handler : PublicEndpoint → Request → Prog Reply Reply
  public_handler healthz = health_check_handler
  public_handler instance_ready = notify_instance_ready_handler h

  abbrev pub api_handler : ApiEndpoint → Request → Prog Reply Reply
  api_handler api_list = list_instances_handler h
  api_handler api_create = create_instance_handler h float_text
  api_handler api_get = get_instance_handler h
  api_handler api_delete = delete_instance_handler h

  abbrev pub admin_handler : AdminEndpoint → Request → Prog Reply Reply
  admin_handler admin_users = list_users_handler
  admin_handler admin_defaults = get_defaults_handler
  admin_handler admin_update_defaults = update_defaults_handler
  admin_handler admin_default_config = get_default_gateway_config_handler h

  abbrev pub ui_handler : UiEndpoint → Request → Prog Reply Reply
  ui_handler ui_create = page_create_instance_handler h float_text
  ui_handler ui_detail = page_instance_detail_handler h
  ui_handler ui_status = page_instance_status_handler h
  ui_handler ui_edit_config = page_edit_instance_config_handler h
  ui_handler ui_update_config = page_update_instance_config_handler h
  ui_handler ui_delete = page_delete_instance_handler h
  ui_handler ui_admin_users = page_admin_users_handler h
  ui_handler ui_admin_defaults = page_admin_defaults_handler h
  ui_handler ui_update_defaults = page_update_defaults_handler h

  -- The handler of an endpoint behind its guards.
  unfoldable pub endpoint : Guard → Endpoint → Request → Prog Reply Reply
  endpoint g (unguarded e) request = public_handler e request
  endpoint g (api e) request = g.required request (api_handler e)
  endpoint g (admin e) request = g.required request (λ r. require_admin r (admin_handler e))
  endpoint g (ui e) request = g.optional request (λ r. require_auth_ui r (ui_handler e))
  endpoint g proxy request = g.required request (proxy_to_instance_handler h url_parses)
  endpoint g dashboard request = g.optional request (page_dashboard_handler h)

  -- Every request passes the middleware first, which takes the upgrades of a WebSocket away.
  unfoldable pub serve : Guard → Endpoint → Request → Prog Reply Reply
  unfolding endpoint
  serve g e request = websocket_middleware h url_parses g.required request (endpoint g e)

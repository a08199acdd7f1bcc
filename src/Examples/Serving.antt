-- ===== src/Examples/Serving.antt =====
-- Runs of the server.
use clawbake.Base.{[], ◌++◌, ◌≡◌, refl, some, Option, Bool, true, false, Text, codes}
use clawbake.Effects.{run}
use clawbake.Effects.Paths.{Every}
use clawbake.Auth
use clawbake.Auth.{safe_redirect_path, require_admin}
use clawbake.Auth.Oidc.{
  callback_handler, require_auth, exchange_and_log_in, by_subject_or_email, link_or_create, log_in,
  save_and_go,
}
use clawbake.Auth.Safety.{LoginStep, callback_proves_the_login}
use clawbake.Auth.Dev.{dev_login_handler}
use clawbake.Auth.Redirects.{StaysHere, logins_stay_here}
use clawbake.Auth.Guards.{
  Guards, NoSession, NoAdmin, HasSession, HasDevRole, require_auth_admits,
  admin_endpoints_need_an_admin,
}
use clawbake.Http.{redirect, no_content}
use clawbake.Handler.{Config, visible, k8s_delete_instance}
use clawbake.Handler.Layout.{strip, outside, pretty_json}
use clawbake.Handler.Layout.Whitespace.{pretty_json_keeps_the_document}
use clawbake.Handler.Proxy.{websocket_middleware}
use clawbake.Handler.Proxy.Paths.{
  classify_proxy_path, strip_route_prefix, proxy_prefix_web, proxy_prefix_tui, proxy_prefix_shell,
  port_web, port_tui, port_shell, is_websocket_upgrade,
}
use clawbake.Handler.Proxy.Paths.Prefixes.{asked, proxied_paths}
use clawbake.Handler.Instances.{delete_instance_handler}
use clawbake.Handler.Routes.{Endpoint, ApiEndpoint, oidc_guard, dev_guard, endpoint, serve}
use clawbake.Handler.Security.{Secure}
use clawbake.Handler.Security.Endpoints.{incoming, oidc_serve-Secure, dev_serve-Secure}
use clawbake.Examples.World.{world_in, request_of}

abbrev libraries : Auth.Libraries
libraries = record { parse_uuid = λ _. some "alice" }

abbrev settings : Config
settings = record {
  kube_namespace = "clawbake";
  tui_enabled = true;
  shell_enabled = true;
  instance_default_gateway_config = codes "{}";
  has_dev_auth = false;
  has_bot = false;
}

abbrev float_text : Text → Option Text
float_text t = some t

abbrev url_parses : Text → Bool
url_parses t = true

abbrev deletion : Endpoint
deletion = Endpoint.api ApiEndpoint.api_delete

logins_stay_here_example :
    StaysHere (run (world_in "Running") (callback_handler (request_of "GET")) []).0
    × StaysHere (run (world_in "Running") (dev_login_handler (request_of "GET")) []).0
logins_stay_here_example = logins_stay_here (world_in "Running") (request_of "GET")

-- The callback logs Alice in.
logs_in :
    (run (world_in "Running") (callback_handler (request_of "GET")) []).0 ≡ redirect 302 (codes "/")
unfolding callback_handler exchange_and_log_in by_subject_or_email link_or_create log_in save_and_go
logs_in = refl

callback_proves_the_login_example :
    Every
      (LoginStep (request_of "GET"))
      (run (world_in "Running") (callback_handler (request_of "GET")) []).1
callback_proves_the_login_example =
    callback_proves_the_login (request_of "GET") (world_in "Running")

require_auth_admits_example :
    Guards
      (world_in "Running")
      []
      (request_of "GET")
      (HasSession libraries)
      (NoSession libraries (request_of "GET"))
      (require_auth libraries (request_of "GET"))
require_auth_admits_example =
    require_auth_admits libraries (world_in "Running") (request_of "GET") []

admin_endpoints_need_an_admin_example :
    Guards
      (world_in "Running")
      []
      (request_of "GET")
      (λ u t. HasSession libraries u t × (u.role ≡ "admin"))
      (NoAdmin (HasSession libraries) (NoSession libraries (request_of "GET")))
      (λ next. require_auth libraries (request_of "GET") (λ r. require_admin r next))
admin_endpoints_need_an_admin_example =
    admin_endpoints_need_an_admin (world_in "Running") [] (request_of "GET") libraries

oidc_serve-Secure_example :
    Secure settings
      (HasSession libraries)
      (run
        (world_in "Running")
        (serve settings float_text url_parses
          (oidc_guard libraries)
          deletion
          (incoming (request_of "DELETE")))
        []).0
      (run
        (world_in "Running")
        (serve settings float_text url_parses
          (oidc_guard libraries)
          deletion
          (incoming (request_of "DELETE")))
        []).1
oidc_serve-Secure_example =
    oidc_serve-Secure settings float_text url_parses libraries deletion (request_of "DELETE")
      (world_in "Running")

dev_serve-Secure_example :
    Secure settings HasDevRole
      (run
        (world_in "Running")
        (serve settings float_text url_parses dev_guard deletion (incoming (request_of "DELETE")))
        []).0
      (run
        (world_in "Running")
        (serve settings float_text url_parses dev_guard deletion (incoming (request_of "DELETE")))
        []).1
dev_serve-Secure_example =
    dev_serve-Secure settings float_text url_parses deletion (request_of "DELETE")
      (world_in "Running")

-- Alice deletes her instance.
deletes :
    (run
      (world_in "Running")
      (serve settings float_text url_parses
        (oidc_guard libraries)
        deletion
        (incoming (request_of "DELETE")))
      []).0
    ≡ no_content 204
unfolding serve websocket_middleware is_websocket_upgrade endpoint require_auth
    delete_instance_handler visible k8s_delete_instance
deletes = refl

pretty_json_keeps_the_document_example :
    strip outside (pretty_json (codes "{\"a\": [1,2], \"b c\": {}} "))
    ≡ strip outside (codes "{\"a\": [1,2], \"b c\": {}} ")
pretty_json_keeps_the_document_example =
    pretty_json_keeps_the_document (codes "{\"a\": [1,2], \"b c\": {}} ")

proxied_paths_example :
    ((classify_proxy_path (proxy_prefix_web ++ codes "/app")
        ≡ record { port = port_web; prefix = proxy_prefix_web })
      × (strip_route_prefix (proxy_prefix_web ++ codes "/app") proxy_prefix_web
          ≡ asked (codes "/app")))
    × ((classify_proxy_path (proxy_prefix_tui ++ codes "/app")
          ≡ record { port = port_tui; prefix = proxy_prefix_tui })
        × (strip_route_prefix (proxy_prefix_tui ++ codes "/app") proxy_prefix_tui
            ≡ asked (codes "/app")))
    × ((classify_proxy_path (proxy_prefix_shell ++ codes "/app")
          ≡ record { port = port_shell; prefix = proxy_prefix_shell })
        × (strip_route_prefix (proxy_prefix_shell ++ codes "/app") proxy_prefix_shell
            ≡ asked (codes "/app")))
proxied_paths_example = proxied_paths (codes "/app")

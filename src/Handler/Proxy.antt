-- ===== src/Handler/Proxy.antt =====
-- internal/handler/proxy.go: the way to an instance, for requests and for WebSockets. A path is
-- taken byte for byte.
pub mod Paths
use clawbake.Base.{
  ℕ, String, List, [], ◌∷◌, ◌++◌, Bool, ◌&&◌, ◌||◌, not, none, some, Option, Text, codes,
  has_prefix, is_empty, length, drop, concat, decimal, nat_eq, string_eq, text_eq, ◌==◌, ltb,
  if◌then◌else◌,
}
use clawbake.Api.{Error, Result, ok, err, ClawInstance, phase_running}
use clawbake.Database.{User}
use clawbake.Http.{
  Request, Target, Outgoing, Reply, http_error, redirect, forwarded, piped, panicked,
}
use clawbake.Effects.{
  get_instance, dial, send_upgrade, hijack, Hijack, hijacked, unsupported, hijack_failed, Prog,
  pure, return, ◌>>=◌, ◌>>◌, call,
}
use clawbake.Auth.{query_escape}
use clawbake.Handler.{Config, Check, pass, fail, check, or_fail, signed_in}
use clawbake.Jsonutil.Json.{Fields, string, object, put}
use clawbake.Jsonutil.Merge.{unmarshal_map, marshal}
use Paths.{Route, port_web, classify_proxy_path, strip_route_prefix, is_websocket_upgrade}

-- The instance of the user, if it runs.
abbrev pub running_or_fail : Result ClawInstance → Check ClawInstance
running_or_fail (err e) = fail (http_error 404 "no instance found")
running_or_fail (ok i) =
    if not (i.status.phase == phase_running)
    then fail (http_error 503 "instance is not running")
    else pass i

abbrev pub target_of : User → ClawInstance → Route → Target
target_of u i route = record {
  host = concat "openclaw." (
      concat (if i.status.namespace == "" then concat "clawbake-" u.id else i.status.namespace)
        ".svc.cluster.local");
  port = route.port;
}

-- Only the web interface gets the token.
abbrev pub token_for : Route → ClawInstance → String
token_for route i = if route.port == port_web then i.spec.gateway_token else ""

abbrev pub token_header : String → Option String
token_header token = if not (token == "") then some token else none

-- The path of the request that upgrades the connection to the instance.
unfoldable pub websocket_path : Request → Text → Text
unfolding strip_route_prefix
websocket_path request prefix =
    (if has_prefix request.path prefix
      then strip_route_prefix request.path prefix
      else request.path)
    ++ (if not (is_empty request.raw_query) then b'?' ∷ request.raw_query else [])

abbrev pub hijacked_or_fail : Hijack → Check Unit
hijacked_or_fail hijacked = pass tt
hijacked_or_fail unsupported = fail (http_error 500 "hijack not supported")
hijacked_or_fail hijack_failed = fail (http_error 500 "failed to hijack connection")

-- What `ModifyResponse` makes of a body of the control UI's configuration.
pub data Rewritten : Type 0 where
  unchanged : Rewritten
  rewritten : Text → Rewritten
  read_error : Rewritten
  panicked_rewrite : Rewritten

-- `url_parses` tells whether http.NewRequest accepts a URL.
module _ (h : Config) (url_parses : Text → Bool) where
  -- `outReq, _ := http.NewRequest(…)`: a nil request is used where the path does not parse.
  abbrev pub upgrade_request : Outgoing → Check Outgoing
  upgrade_request out = if url_parses out.path then pass out else fail panicked

  -- `proxyWebSocket`
  unfoldable pub proxy_websocket : Request → Target → String → Text → Prog Reply Reply
  unfolding websocket_path
  proxy_websocket request target token prefix = do
    dialled ← call (dial target)
    check (or_fail (http_error 502 "failed to connect to instance") dialled)
    out ← check (
        upgrade_request (record {
          target = target;
          path = websocket_path request prefix;
          token = token_header token;
          origin = some target;
        }))
    sent ← call (send_upgrade out)
    check (or_fail (http_error 502 "failed to send upgrade request") sent)
    taken ← call hijack
    check (hijacked_or_fail taken)
    return piped

  abbrev pub user_or_401 : Option User → Check User
  user_or_401 (some u) = pass u
  user_or_401 none = fail (http_error 401 "authentication required")

  -- The handler that `WebSocketMiddleware` puts behind the authentication.
  unfoldable pub websocket_handler : Request → Prog Reply Reply
  unfolding proxy_websocket classify_proxy_path
  websocket_handler request = do
    u ← check (user_or_401 request.user)
    got ← call (get_instance h.kube_namespace u.id)
    i ← check (running_or_fail got)
    let route = classify_proxy_path request.path
    proxy_websocket request (target_of u i route) (token_for route i) route.prefix

  -- `WebSocketMiddleware`
  unfoldable pub websocket_middleware :
      (Request → (Request → Prog Reply Reply) → Prog Reply Reply)
      → Request
      → (Request → Prog Reply Reply)
      → Prog Reply Reply
  unfolding websocket_handler is_websocket_upgrade
  websocket_middleware require_auth request next =
      if not (is_websocket_upgrade request)
      then next request
      else require_auth request websocket_handler

  -- Whether the page of the web interface is to be loaded again with the token.
  unfoldable pub wants_token : Request → Route → String → Bool
  unfolding strip_route_prefix
  wants_token request route token =
      route.port == port_web
      && (strip_route_prefix request.path route.prefix == codes "/"
          && (not (token == "") && is_empty (request.query_param "token")))

  -- What the reverse proxy sends on.
  unfoldable pub direct : Request → Target → Route → String → Outgoing
  unfolding strip_route_prefix
  direct request target route token = record {
    target = target;
    path = strip_route_prefix request.path route.prefix;
    token = token_header token;
    origin = none;
  }

  -- The rest of `ProxyToInstance`, for a running instance.
  unfoldable pub proxy_to_running : Request → User → ClawInstance → Prog Reply Reply
  unfolding proxy_websocket classify_proxy_path is_websocket_upgrade wants_token direct query_escape
  proxy_to_running request u i =
      let route = classify_proxy_path request.path in
      let target = target_of u i route in
      let token = token_for route i in
      if is_websocket_upgrade request
      then proxy_websocket request target token route.prefix
      else if wants_token request route token
      then return (redirect 302 (codes "/proxy/web/?token=" ++ query_escape (codes token)))
      else return (forwarded (direct request target route token))

  -- `ProxyToInstance`
  unfoldable pub proxy_to_instance_handler : Request → Prog Reply Reply
  unfolding proxy_to_running
  proxy_to_instance_handler request =
      let proxied : Prog Reply Reply = (do
        u ← check (signed_in request.user)
        got ← call (get_instance h.kube_namespace u.id)
        i ← check (running_or_fail got)
        proxy_to_running request u i) in
      if request.path == codes "/proxy" || request.path == codes "/proxy/"
      then return (redirect 302 (codes "/proxy/web/"))
      else proxied

module _ (float_text : Text → Option Text) where
  abbrev pub with_base_path : Option (Option Fields) → Rewritten
  with_base_path none = unchanged
  with_base_path (some none) = panicked_rewrite
  with_base_path (some (some cfg)) =
      rewritten (marshal (object (put (codes "basePath") (string (codes "/proxy/web")) cfg)))

  -- `ModifyResponse`, for the path that was asked of the instance and the body, where it can be read.
  unfoldable pub modify_response : Text → Option Text → Rewritten
  modify_response request_path none =
      if not (request_path == codes "/__openclaw/control-ui-config.json")
      then unchanged
      else read_error
  modify_response request_path (some body) =
      if not (request_path == codes "/__openclaw/control-ui-config.json")
      then unchanged
      else with_base_path (unmarshal_map float_text body)

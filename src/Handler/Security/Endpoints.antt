-- ===== src/Handler/Security/Endpoints.antt =====
-- Every endpoint of internal/handler/routes.go is secure, behind any guard that keeps to the
-- interface.
use clawbake.Base.{
  [], ◌∷◌, Bool, true, false, not, ◌≡◌, inl, inr, refl, sym, subst, arith, Text, Option, none, some,
  codes, if◌then◌else◌, text_eq, ◌==◌, string_eq, ==_sound,
}
use clawbake.Database.{User}
use clawbake.Http.{Request, Reply, InstanceReadyRequest, no_content}
use clawbake.Effects.{
  Call, Response, notify_from_server, Trace, Oracle, Prog, run, call, return, ◌>>=◌, ◌>>◌,
}
use clawbake.Effects.Paths.{event, Every, AllPaths, AllPaths-map, AllPaths-if, AllPaths-run}
use clawbake.Auth.{Libraries, with_user, require_admin}
use clawbake.Auth.Guards.{HasSession, HasDevRole, TurnsAway, Handler}
use clawbake.Handler.{Config, pass, fail, check}
use clawbake.Handler.Admin.{
  notify_instance_ready_handler, health_check_handler, ready_body, bad_request,
  get_default_gateway_config_handler,
}
use clawbake.Handler.Pages.{page_dashboard_handler}
use clawbake.Handler.Proxy.{websocket_middleware, websocket_handler}
use clawbake.Handler.Proxy.Paths.{is_websocket_upgrade}
use clawbake.Handler.Routes.{
  Guard, PublicEndpoint, ApiEndpoint, AdminEndpoint, UiEndpoint, Endpoint, oidc_guard, dev_guard,
  require_auth_ui, public_handler, api_handler, admin_handler, ui_handler, endpoint, serve,
}
use clawbake.Handler.Rights.{Allowed}
use clawbake.Handler.Rights.Steps.{if-Shown}
use clawbake.Handler.Rights.Prefixes.{Good}
use clawbake.Handler.Rights.Api.{
  get_instance_handler-Good, delete_instance_handler-Good, list_instances_handler-Good,
  create_instance_handler-Good,
}
use clawbake.Handler.Rights.Pages.{
  page_dashboard_handler-Good, page_create_instance_handler-Good, page_instance_detail_handler-Good,
  page_instance_status_handler-Good, page_delete_instance_handler-Good,
  page_admin_users_handler-Good, page_admin_defaults_handler-Good,
  page_update_defaults_handler-Good, page_edit_instance_config_handler-Good,
  page_update_instance_config_handler-Good,
}
use clawbake.Handler.Rights.Proxy.{
  proxy_to_instance_handler-Good, websocket_handler-Good, list_users_handler-Good,
  get_defaults_handler-Good, update_defaults_handler-Good,
}
use clawbake.Handler.Security.{Inquiry, GuardLaws, Authorised, Secure}
use clawbake.Handler.Security.Guards.{oidc_guard_lem, dev_guard_lem}

-- A request as it comes in, with no user in its context.
abbrev pub incoming : Request → Request
incoming request = record request { user = none }

module _ (h : Config) (float_text : Text → Option Text) (url_parses : Text → Bool) (g : Guard)
    (Trusted : User → Trace → Type 0) (laws : GuardLaws g Trusted) where
  abbrev Keeps : User → Trace → Type 0
  Keeps u t = Trusted u t × Every (Authorised h Trusted) t

  step :
      (u : User) (c : Call) (r : Response c) (t : Trace)
      → Allowed h u c t
      → Keeps u t
      → Keeps u (event c r ∷ t)
  step u c r t allowed (trusted, kept) =
      (laws.trusted_later u c r t trusted, (inr (inr (u, trusted, allowed)), kept))

  abbrev Safe : Prog Reply Reply → Trace → Type 0
  Safe m t = AllPaths (Secure h Trusted) (Secure h Trusted) m t

  Good-Safe :
      (u : User) (m : Prog Reply Reply) (t : Trace) → Good h u (Keeps u) (step u) m t → Safe m t
  Good-Safe u m t =
      AllPaths-map (λ reply s ((trusted, kept), shown). (kept, inr (u, trusted, shown)))
        (λ _ _ bad. absurd bad) m t

  away-Secure :
      (reply : Reply) (t : Trace)
      → TurnsAway reply
      → Every (Authorised h Trusted) t
      → Secure h Trusted reply t
  away-Secure reply t (inl (target, e)) kept =
      subst (λ r. Secure h Trusted r t) (sym e) (kept, inl (λ _. tt))
  away-Secure reply t (inr (message, inl e)) kept =
      subst (λ r. Secure h Trusted r t) (sym e) (kept, inl (λ _. tt))
  away-Secure reply t (inr (message, inr e)) kept =
      subst (λ r. Secure h Trusted r t) (sym e) (kept, inl (λ _. tt))

  api-Safe :
      (e : ApiEndpoint) (u : User) (request : Request) (t : Trace)
      → Keeps u t
      → Good h u (Keeps u) (step u) (api_handler h float_text url_parses e (with_user u request)) t
  api-Safe ApiEndpoint.api_list u request t k =
      list_instances_handler-Good h u (Keeps u) (step u) request t k
  api-Safe ApiEndpoint.api_create u request t k =
      create_instance_handler-Good h u (Keeps u) (step u) request float_text t k
  api-Safe ApiEndpoint.api_get u request t k =
      get_instance_handler-Good h u (Keeps u) (step u) request t k
  api-Safe ApiEndpoint.api_delete u request t k =
      delete_instance_handler-Good h u (Keeps u) (step u) request t k

  ui-Safe :
      (e : UiEndpoint) (u : User) (request : Request) (t : Trace)
      → Keeps u t
      → Good h u (Keeps u) (step u) (ui_handler h float_text url_parses e (with_user u request)) t
  ui-Safe UiEndpoint.ui_create u request t k =
      page_create_instance_handler-Good h u (Keeps u) (step u) request float_text t k
  ui-Safe UiEndpoint.ui_detail u request t k =
      page_instance_detail_handler-Good h u (Keeps u) (step u) request t k
  ui-Safe UiEndpoint.ui_status u request t k =
      page_instance_status_handler-Good h u (Keeps u) (step u) request t k
  ui-Safe UiEndpoint.ui_edit_config u request t k =
      page_edit_instance_config_handler-Good h u (Keeps u) (step u) request t k
  ui-Safe UiEndpoint.ui_update_config u request t k =
      page_update_instance_config_handler-Good h u (Keeps u) (step u) request t k
  ui-Safe UiEndpoint.ui_delete u request t k =
      page_delete_instance_handler-Good h u (Keeps u) (step u) request t k
  ui-Safe UiEndpoint.ui_admin_users u request t k =
      page_admin_users_handler-Good h u (Keeps u) (step u) request t k
  ui-Safe UiEndpoint.ui_admin_defaults u request t k =
      page_admin_defaults_handler-Good h u (Keeps u) (step u) request t k
  ui-Safe UiEndpoint.ui_update_defaults u request t k =
      page_update_defaults_handler-Good h u (Keeps u) (step u) request t k

  admin-Safe :
      (e : AdminEndpoint) (u : User) (request : Request) (t : Trace)
      → u.role ≡ "admin"
      → Keeps u t
      → Good h u (Keeps u) (step u) (admin_handler h float_text url_parses e request) t
  unfolding get_default_gateway_config_handler
  admin-Safe AdminEndpoint.admin_users u request t role k =
      list_users_handler-Good h u (Keeps u) (step u) role request t k
  admin-Safe AdminEndpoint.admin_defaults u request t role k =
      get_defaults_handler-Good h u (Keeps u) (step u) role request t k
  admin-Safe AdminEndpoint.admin_update_defaults u request t role k =
      update_defaults_handler-Good h u (Keeps u) (step u) role request t k
  admin-Safe AdminEndpoint.admin_default_config u request t role k = (k, tt)

  -- The middleware and the guards, in front of the handlers.
  Inquiry-Authorised : (c : Call) (t : Trace) → Inquiry c → Authorised h Trusted c t
  Inquiry-Authorised c t i = inl i

  behind_login :
      (request : Request) (next : Handler) (t : Trace)
      → ((u : User) (s : Trace) → Keeps u s → Safe (next (with_user u request)) s)
      → Every (Authorised h Trusted) t
      → Safe (g.required request next) t
  behind_login request next t go k =
      laws.required_law (Authorised h Trusted) (Secure h Trusted) request next t Inquiry-Authorised
        away-Secure (λ u s trusted kept. go u s (trusted, kept)) k

  behind_optional :
      (request : Request) (next : Handler) (t : Trace)
      → ((s : Trace) → Every (Authorised h Trusted) s → Safe (next (incoming request)) s)
      → ((u : User) (s : Trace) → Keeps u s → Safe (next (with_user u (incoming request))) s)
      → Every (Authorised h Trusted) t
      → Safe (g.optional (incoming request) next) t
  behind_optional request next t plain go k =
      laws.optional_law (Authorised h Trusted) (Secure h Trusted) (incoming request) next t
        Inquiry-Authorised plain (λ u s trusted kept. go u s (trusted, kept)) k

  require_admin-Safe :
      (e : AdminEndpoint) (u : User) (request : Request) (t : Trace)
      → Keeps u t
      → Safe (require_admin (with_user u request) (admin_handler h float_text url_parses e)) t
  unfolding require_admin
  require_admin-Safe e u request t k =
      AllPaths-if (Secure h Trusted) (Secure h Trusted) (not (u.role == "admin")) _ _ t
        (λ _. (k.1, inl (λ _. tt)))
        (λ role. Good-Safe u _ t (
          admin-Safe e u (with_user u request) t (==_sound u.role "admin" (ground (arith, role)))
            k))

  require_auth_ui-Safe :
      (e : UiEndpoint) (u : User) (request : Request) (t : Trace)
      → Keeps u t
      → Safe (require_auth_ui (with_user u request) (ui_handler h float_text url_parses e)) t
  unfolding require_auth_ui
  require_auth_ui-Safe e u request t k = Good-Safe u _ t (ui-Safe e u request t k)

  require_auth_ui-none :
      (e : UiEndpoint) (request : Request) (t : Trace)
      → Every (Authorised h Trusted) t
      → Safe (require_auth_ui (incoming request) (ui_handler h float_text url_parses e)) t
  unfolding require_auth_ui
  require_auth_ui-none e request t k =
      AllPaths-if (Secure h Trusted) (Secure h Trusted)
        (request.header "HX-Request" == codes "true") _ _ t (λ _. (k, inl (λ _. tt)))
        (λ _. (k, inl (λ _. tt)))

  notify : InstanceReadyRequest → Prog Reply Reply
  notify body = do
    call (notify_from_server body.instance_name body.user_id)
    return (no_content 200)

  checked_body-Safe :
      (b : Bool) (message : Text) (body : InstanceReadyRequest) (t : Trace)
      → Every (Authorised h Trusted) t
      → Safe (check (if b then fail (bad_request h message) else pass body) >>= notify) t
  unfolding notify
  checked_body-Safe true message body t k = (k, inl (λ _. tt))
  checked_body-Safe false message body t k =
      λ _. ((inr (inl (body.instance_name, body.user_id, refl)), k), inl (λ _. tt))

  ready_body-Safe :
      (body : Option InstanceReadyRequest) (t : Trace)
      → Every (Authorised h Trusted) t
      → Safe (check (ready_body h body) >>= notify) t
  ready_body-Safe none t k = (k, inl (λ _. tt))
  ready_body-Safe (some body) t k =
      checked_body-Safe (body.user_id == "") (codes "userId is required") body t k

  public-Safe :
      (e : PublicEndpoint) (request : Request) (t : Trace)
      → Every (Authorised h Trusted) t
      → Safe (public_handler h float_text url_parses e request) t
  unfolding health_check_handler notify_instance_ready_handler notify
  public-Safe PublicEndpoint.healthz request t k = (k, inl (λ _. tt))
  public-Safe PublicEndpoint.instance_ready request t k =
      AllPaths-if (Secure h Trusted) (Secure h Trusted) h.has_bot _ _ t
        (λ _. ready_body-Safe request.ready_body t k) (λ _. (k, inl (λ _. tt)))

  page_dashboard_handler-none :
      (request : Request) (t : Trace)
      → Every (Authorised h Trusted) t
      → Safe (page_dashboard_handler h (incoming request)) t
  unfolding page_dashboard_handler
  page_dashboard_handler-none request t k = (k, inl (λ u. if-Shown h u t h.has_dev_auth _ _ tt tt))

  endpoint-Safe :
      (e : Endpoint) (request : Request) (t : Trace)
      → Every (Authorised h Trusted) t
      → Safe (endpoint h float_text url_parses g e (incoming request)) t
  unfolding endpoint
  endpoint-Safe (Endpoint.unguarded e) request t k = public-Safe e (incoming request) t k
  endpoint-Safe (Endpoint.api e) request t k =
      behind_login (incoming request) _ t
        (λ u s kept. Good-Safe u _ s (api-Safe e u (incoming request) s kept)) k
  endpoint-Safe (Endpoint.admin e) request t k =
      behind_login (incoming request) _ t
        (λ u s kept. require_admin-Safe e u (incoming request) s kept) k
  endpoint-Safe (Endpoint.ui e) request t k =
      behind_optional request _ t (λ s kept. require_auth_ui-none e request s kept)
        (λ u s kept. require_auth_ui-Safe e u (incoming request) s kept) k
  endpoint-Safe Endpoint.proxy request t k =
      behind_login (incoming request) _ t
        (λ u s kept. Good-Safe u _ s (
          proxy_to_instance_handler-Good h u (Keeps u) (step u) url_parses (incoming request) s
            kept))
        k
  endpoint-Safe Endpoint.dashboard request t k =
      behind_optional request _ t (λ s kept. page_dashboard_handler-none request s kept)
        (λ u s kept.
          Good-Safe u _ s
            (page_dashboard_handler-Good h u (Keeps u) (step u) (incoming request) s kept))
        k

  serve-Safe :
      (e : Endpoint) (request : Request)
      → Safe (serve h float_text url_parses g e (incoming request)) []
  unfolding serve websocket_middleware
  serve-Safe e request =
      AllPaths-if (Secure h Trusted) (Secure h Trusted)
        (not (is_websocket_upgrade (incoming request))) _ _ [] (λ _. endpoint-Safe e request [] tt)
        (λ _.
          behind_login (incoming request) (websocket_handler h url_parses) []
            (λ u s kept.
              Good-Safe u (websocket_handler h url_parses (with_user u (incoming request))) s (
                websocket_handler-Good h u (Keeps u) (step u) url_parses (incoming request) s kept))
            tt)

-- For every endpoint, every incoming request and whatever the outside answers, where logins go
-- through the identity provider: each call that the server makes asks who is there, or is the
-- notification, or is within the rights of a user whom the database returned for the id in the
-- session (`Allowed`: instances are created only under his own id and after none was found, and
-- deleted, changed or read from their pod only after one was read that is his own or, for an
-- administrator, any; only his own running instance is connected to; users are listed and defaults
-- changed only for an administrator, to a document or a template that is valid); and the reply
-- shows an instance, a list, the users, the defaults or a page only to one who may see it.
pub oidc_serve-Secure :
    (h : Config) (float_text : Text → Option Text) (url_parses : Text → Bool) (l : Libraries)
    (e : Endpoint) (request : Request) (o : Oracle)
    → let end = run o (serve h float_text url_parses (oidc_guard l) e (incoming request)) [] in
      Secure h (HasSession l) end.0 end.1
oidc_serve-Secure h float_text url_parses l e request o =
    AllPaths-run (Secure h (HasSession l))
      (serve h float_text url_parses (oidc_guard l) e (incoming request)) o []
      (serve-Safe h float_text url_parses (oidc_guard l) (HasSession l) (oidc_guard_lem l) e
        request)

-- The same for the development server, where the user is the one of the role in the session, from
-- the database or made up.
pub dev_serve-Secure :
    (h : Config) (float_text : Text → Option Text) (url_parses : Text → Bool) (e : Endpoint)
    (request : Request) (o : Oracle)
    → let end = run o (serve h float_text url_parses dev_guard e (incoming request)) [] in
      Secure h HasDevRole end.0 end.1
dev_serve-Secure h float_text url_parses e request o =
    AllPaths-run (Secure h HasDevRole)
      (serve h float_text url_parses dev_guard e (incoming request)) o []
      (serve-Safe h float_text url_parses dev_guard HasDevRole dev_guard_lem e request)

-- ===== src/Handler/Rights/Proxy.antt =====
-- The handlers of internal/handler/proxy.go and admin.go keep to the rights of the user.
use clawbake.Base.{
  String, ◌∷◌, Bool, true, false, not, ◌≡◌, refl, ap, subst, inl, inr, Option, none, some, Text,
  if◌then◌else◌, codes, text_eq, ◌==◌, string_eq, nat_eq, ==_sound, arith, Bool-cases, ◌||◌,
}
use clawbake.Api.{Result, ok, err, ClawInstance, phase_running}
use clawbake.Database.{User, UpdateDefaultsParams}
use clawbake.Http.{Request, http_error, Target, Outgoing}
use clawbake.Effects.{
  Call, Response, get_instance, dial, send_upgrade, hijack, Hijack, hijacked, unsupported,
  hijack_failed, list_users, get_defaults, update_defaults, Trace,
}
use clawbake.Effects.Paths.{event, event-path, Occurs, AllPaths-if}
use clawbake.Auth.{with_user}
use clawbake.Handler.{Config, pass, or_fail}
use clawbake.Handler.Admin.{
  list_users_handler, get_defaults_handler, update_defaults_handler, check_defaults, body_or_fail,
}
use clawbake.Handler.Proxy.{
  proxy_websocket, websocket_handler, proxy_to_running, proxy_to_instance_handler, running_or_fail,
  target_of, token_for, token_header, direct, upgrade_request, hijacked_or_fail, websocket_path,
  wants_token,
}
use clawbake.Handler.Proxy.Paths.{classify_proxy_path, port_web, is_websocket_upgrade}
use clawbake.Handler.Rights.{Reaches, OwnToken, Allowed}
use clawbake.Handler.Rights.Steps.{
  Bland, or_fail-Bland, if-Bland, check_defaults-Bland, check_defaults-Usable,
}
use clawbake.Handler.Rights.Prefixes.{Good, check-Good}

running_or_fail-eq-pass :
    (got : Result ClawInstance) (i : ClawInstance)
    → running_or_fail got ≡ pass i
    → (got ≡ ok i) × (i.status.phase ≡ phase_running)
running_or_fail-eq-pass (err e) i h = cc
running_or_fail-eq-pass (ok j) i h = elim (Bool-cases (j.status.phase == phase_running)) [
  | inl runs ↦ running j i (==_sound j.status.phase phase_running runs) (ground (arith, h, runs))
  | inr not_running ↦ absurd (ground (arith, h, not_running))
]
  where
    running :
        (j i : ClawInstance)
        → j.status.phase ≡ phase_running
        → j ≡ i
        → (ok j ≡ ok i) × (i.status.phase ≡ phase_running)
    running j i phase same = (ap ok same, cc)

upgrade_request-eq-pass :
    (h : Config) (url_parses : Text → Bool) (o out : Outgoing)
    → upgrade_request h url_parses o ≡ pass out
    → o ≡ out
upgrade_request-eq-pass h url_parses o out e = elim (Bool-cases (url_parses o.path)) [
  | inl good ↦ pass-injective (ground (arith, e, good))
  | inr bad ↦ absurd (ground (arith, e, bad))
]
  where
    pass-injective : {a b : Outgoing} → pass a ≡ pass b → a ≡ b
    pass-injective h = cc

module _ (h : Config) (u : User) where
  running_or_fail-Bland : (got : Result ClawInstance) → Bland h u (running_or_fail got)
  running_or_fail-Bland (err e) = λ _. tt
  running_or_fail-Bland (ok i) =
      if-Bland h u (not (i.status.phase == phase_running)) _ _ (λ _. tt) tt

  hijacked_or_fail-Bland : (x : Hijack) → Bland h u (hijacked_or_fail x)
  hijacked_or_fail-Bland hijacked = tt
  hijacked_or_fail-Bland unsupported = λ _. tt
  hijacked_or_fail-Bland hijack_failed = λ _. tt

  header-Own :
      (i : ClawInstance) (b : Bool) → OwnToken h u (if b then some i.spec.gateway_token else none) i
  header-Own i true = inr refl
  header-Own i false = inl refl

  -- The header carries the instance's token or nothing.
  token-Own :
      (i : ClawInstance) (b : Bool)
      → OwnToken h u (token_header (if b then i.spec.gateway_token else "")) i
  token-Own i true = header-Own i (not (i.spec.gateway_token == ""))
  token-Own i false = inl refl

module _ (h : Config) (u : User) (Keeps : Trace → Type 0)
    (step : (c : Call) (r : Response c) (t : Trace)
      → Allowed h u c t
      → Keeps t
      → Keeps (event c r ∷ t))
    (url_parses : Text → Bool) (request : Request) where
  proxy_websocket-Good :
      (target : Target) (i : ClawInstance) (token : String) (prefix : Text) (t : Trace)
      → Reaches h u target i t
      → OwnToken h u (token_header token) i
      → Keeps t
      → Good h u Keeps step
          (proxy_websocket h url_parses (with_user u request) target token prefix)
          t
  unfolding proxy_websocket
  proxy_websocket-Good target i token prefix t (read, runs, route) own k dialled =
      let k₁ = step (dial target) dialled t (i, (read, runs, route)) k in
      check-Good h u Keeps step (or_fail _ dialled) _ _ k₁
        (or_fail-Bland h u (http_error 502 "failed to connect to instance") (λ _. tt) dialled)
        (λ _ _.
          check-Good h u Keeps step (upgrade_request h url_parses _) _ _ k₁
            (if-Bland h u (url_parses (websocket_path (with_user u request) prefix)) _ _ tt
              (λ _. tt))
            (λ out parsed sent.
              let k₂ =
                step (send_upgrade out) sent _
                  (subst (λ o. Allowed h u (send_upgrade o) (event (dial target) dialled ∷ t))
                    (upgrade_request-eq-pass h url_parses _ out parsed)
                    (i, (inr read, runs, route), own))
                  k₁ in
              check-Good h u Keeps step (or_fail _ sent) _ _ k₂
                (or_fail-Bland h u (http_error 502 "failed to send upgrade request") (λ _. tt) sent)
                (λ _ _ taken.
                  let k₃ = step hijack taken _ tt k₂ in
                  check-Good h u Keeps step (hijacked_or_fail taken) _ _ k₃
                    (hijacked_or_fail-Bland h u taken) (λ _ _. (k₃, tt)))))

  proxy_to_running-Good :
      (i : ClawInstance) (t : Trace)
      → Occurs (get_instance h.kube_namespace u.id) (ok i) t
      → i.status.phase ≡ phase_running
      → Keeps t
      → Good h u Keeps step (proxy_to_running h url_parses (with_user u request) u i) t
  unfolding proxy_to_running direct
  proxy_to_running-Good i t read runs k =
      let route = classify_proxy_path request.path in
      let reaches : Reaches h u (target_of u i route) i t = (read, runs, (route, refl)) in
      let own = token-Own h u i (route.port == port_web) in
      AllPaths-if _ _ (is_websocket_upgrade (with_user u request)) _ _ _
        (λ _.
          proxy_websocket-Good (target_of u i route) i (token_for route i) route.prefix t reaches
            own k)
        (λ _.
          AllPaths-if _ _ (wants_token h url_parses (with_user u request) route (token_for route i))
            _ _ _ (λ _. (k, tt)) (λ _. (k, (i, reaches, own))))

  pub proxy_to_instance_handler-Good :
      (t : Trace)
      → Keeps t
      → Good h u Keeps step (proxy_to_instance_handler h url_parses (with_user u request)) t
  unfolding proxy_to_instance_handler
  proxy_to_instance_handler-Good t k =
      AllPaths-if _ _ (request.path == codes "/proxy" || request.path == codes "/proxy/") _ _ _
        (λ _. (k, tt))
        (λ _ got.
          let k₁ = step (get_instance h.kube_namespace u.id) got t refl k in
          check-Good h u Keeps step (running_or_fail got) _ _ k₁ (running_or_fail-Bland h u got)
            (λ i e.
              let (found, runs) = running_or_fail-eq-pass got i e in
              proxy_to_running-Good i _
                (inl (event-path (get_instance h.kube_namespace u.id) found)) runs k₁))

  pub websocket_handler-Good :
      (t : Trace)
      → Keeps t
      → Good h u Keeps step (websocket_handler h url_parses (with_user u request)) t
  unfolding websocket_handler
  websocket_handler-Good t k got =
      let k₁ = step (get_instance h.kube_namespace u.id) got t refl k in
      check-Good h u Keeps step (running_or_fail got) _ _ k₁ (running_or_fail-Bland h u got) (λ i e.
        let (found, runs) = running_or_fail-eq-pass got i e in
        let route = classify_proxy_path request.path in
        proxy_websocket-Good (target_of u i route) i (token_for route i) route.prefix _
          (inl (event-path (get_instance h.kube_namespace u.id) found), runs, (route, refl))
          (token-Own h u i (route.port == port_web)) k₁)

module _ (h : Config) (u : User) (Keeps : Trace → Type 0)
    (step : (c : Call) (r : Response c) (t : Trace)
      → Allowed h u c t
      → Keeps t
      → Keeps (event c r ∷ t))
    (admin : u.role ≡ "admin") (request : Request) where
  pub list_users_handler-Good :
      (t : Trace) → Keeps t → Good h u Keeps step (list_users_handler request) t
  unfolding list_users_handler
  list_users_handler-Good t k answer =
      let k₁ = step list_users answer t admin k in
      check-Good h u Keeps step (or_fail _ answer) _ _ k₁
        (or_fail-Bland h u (http_error 500 "failed to list users") (λ _. tt) answer)
        (λ _ _. (k₁, admin))

  pub get_defaults_handler-Good :
      (t : Trace) → Keeps t → Good h u Keeps step (get_defaults_handler request) t
  unfolding get_defaults_handler
  get_defaults_handler-Good t k answer =
      let k₁ = step get_defaults answer t tt k in
      check-Good h u Keeps step (or_fail _ answer) _ _ k₁
        (or_fail-Bland h u (http_error 500 "failed to get defaults") (λ _. tt) answer)
        (λ _ _. (k₁, admin))

  body_or_fail-Bland : (body : Option UpdateDefaultsParams) → Bland h u (body_or_fail body)
  body_or_fail-Bland (some body) = tt
  body_or_fail-Bland none = λ _. tt

  pub update_defaults_handler-Good :
      (t : Trace) → Keeps t → Good h u Keeps step (update_defaults_handler request) t
  unfolding update_defaults_handler
  update_defaults_handler-Good t k =
      check-Good h u Keeps step (body_or_fail request.defaults_body) _ t k
        (body_or_fail-Bland request.defaults_body)
        (λ params _.
          check-Good h u Keeps step (check_defaults params.gateway_config) _ t k
            (check_defaults-Bland h u params.gateway_config)
            (λ _ good answer.
              let k₁ =
                step (update_defaults params) answer t
                  (
                    admin,
                    (
                      params.gateway_config,
                      check_defaults-Usable params.gateway_config good,
                      inl refl,
                    ),
                  )
                  k in
              check-Good h u Keeps step (or_fail _ answer) _ _ k₁
                (or_fail-Bland h u (http_error 500 "failed to update defaults") (λ _. tt) answer)
                (λ _ _. (k₁, admin))))

-- ===== src/Handler/Rights/Pages.antt =====
-- The handlers of internal/handler/pages.go keep to the rights of the user.
use clawbake.Base.{
  ◌∷◌, Bool, ==_sound, string_eq, true, false, ◌≡◌, refl, inr, Option, Text, codes, text_eq, ◌==◌,
  concat,
}
use clawbake.Database.{User}
use clawbake.Http.{Request, Reply, http_error, redirect, hx_redirect}
use clawbake.Effects.{
  Call, Response, get_instance, list_instances, update_instance, read_pod_config, list_users,
  update_defaults, get_defaults, Trace, Prog, return,
}
use clawbake.Effects.Paths.{event}
use clawbake.Auth.{with_user}
use clawbake.Jsonutil.Template.{extract_placeholders}
use clawbake.Handler.{Config, or_fail, absent_or_fail, is_admin, admin_or_home}
use clawbake.Handler.Admin.{valid_or_fail, check_defaults}
use clawbake.Handler.Pages.{
  page_dashboard_handler, page_create_instance_handler, page_instance_detail_handler,
  page_instance_status_handler, page_delete_instance_handler, page_admin_users_handler,
  page_admin_defaults_handler, page_update_defaults_handler, page_edit_instance_config_handler,
  page_update_instance_config_handler, names_for, form_values, form_params, reconfigured,
}
use clawbake.Handler.Rights.{Allowed}
use clawbake.Handler.Rights.Steps.{
  or_fail-Bland, listed-Mine, absent_or_fail-Bland, absent-Occurs, admin_or_home-Bland,
  admin_or_home-eq-pass, if-Shown, valid_or_fail-Bland, valid_or_fail-eq-pass, check_defaults-Bland,
  check_defaults-Usable,
}
use clawbake.Handler.Rights.Prefixes.{
  Good, GoodTo, bind-Good, check-Good, fetch-Good, k8s_delete_instance-Good,
}
use clawbake.Handler.Rights.Api.{create_from_defaults-Good}

module _ (h : Config) (u : User) (Keeps : Trace → Type 0)
    (step : (c : Call) (r : Response c) (t : Trace)
      → Allowed h u c t
      → Keeps t
      → Keeps (event c r ∷ t))
    (request : Request) where
  abbrev GoodPage : (Request → Prog Reply Reply) → Type 0
  GoodPage handler = (t : Trace) → Keeps t → Good h u Keeps step (handler (with_user u request)) t

  pub page_instance_detail_handler-Good : GoodPage (page_instance_detail_handler h)
  unfolding page_instance_detail_handler
  page_instance_detail_handler-Good t k =
      fetch-Good h u Keeps step request.id_param _ t k
        (λ i s seen kept. (kept, (request.id_param, seen)))

  pub page_instance_status_handler-Good : GoodPage (page_instance_status_handler h)
  unfolding page_instance_status_handler
  page_instance_status_handler-Good t k =
      fetch-Good h u Keeps step request.id_param _ t k
        (λ i s seen kept. (kept, (request.id_param, seen)))

  pub page_delete_instance_handler-Good : GoodPage (page_delete_instance_handler h)
  unfolding page_delete_instance_handler
  page_delete_instance_handler-Good t k =
      fetch-Good h u Keeps step request.id_param _ t k (λ i s seen kept.
        k8s_delete_instance-Good h u Keeps step request.id_param i _ s seen kept (λ r s' kept'.
          check-Good h u Keeps step (or_fail _ r) _ s' kept'
            (or_fail-Bland h u (http_error 500 "failed to delete instance") (λ _. tt) r)
            (λ _ _.
              (kept', if-Shown h u s' (request.query_param "redirect" == codes "true") _ _ tt tt))))

  pub page_edit_instance_config_handler-Good : GoodPage (page_edit_instance_config_handler h)
  unfolding page_edit_instance_config_handler
  page_edit_instance_config_handler-Good t k =
      fetch-Good h u Keeps step request.id_param _ t k (λ i s (read, mine) kept live. (
        step (read_pod_config (concat "clawbake-" i.name)) live s
            (request.id_param, i, (read, mine), refl) kept,
        (request.id_param, (inr read, mine)),
      ))

  pub page_update_instance_config_handler-Good : GoodPage (page_update_instance_config_handler h)
  unfolding page_update_instance_config_handler
  page_update_instance_config_handler-Good t k =
      let config = request.form_value (codes "gatewayConfig") in
      fetch-Good h u Keeps step request.id_param _ t k (λ i s seen kept.
        check-Good h u Keeps step (valid_or_fail config) _ s kept (valid_or_fail-Bland h u config)
          (λ _ good answer.
            let kept' =
              step (update_instance (reconfigured config i)) answer s
                (request.id_param, i, seen, (config, valid_or_fail-eq-pass config good, refl))
                kept in
            check-Good h u Keeps step (or_fail _ answer) _ _ kept'
              (or_fail-Bland h u (http_error 500 "failed to update instance config") (λ _. tt)
                answer)
              (λ _ _. (kept', tt))))

  pub page_admin_users_handler-Good : GoodPage (page_admin_users_handler h)
  unfolding page_admin_users_handler
  page_admin_users_handler-Good t k =
      check-Good h u Keeps step (admin_or_home u) _ t k (admin_or_home-Bland h u) (λ _ admin answer.
        let role = admin_or_home-eq-pass h u admin in
        let kept = step list_users answer t role k in
        check-Good h u Keeps step (or_fail _ answer) _ _ kept
          (or_fail-Bland h u (http_error 500 "failed to list users") (λ _. tt) answer)
          (λ _ _. (kept, role)))

  pub page_admin_defaults_handler-Good : GoodPage (page_admin_defaults_handler h)
  unfolding page_admin_defaults_handler
  page_admin_defaults_handler-Good t k =
      check-Good h u Keeps step (admin_or_home u) _ t k (admin_or_home-Bland h u) (λ _ admin answer.
        let kept = step get_defaults answer t tt k in
        check-Good h u Keeps step (or_fail _ answer) _ _ kept
          (or_fail-Bland h u (http_error 500 "failed to get defaults") (λ _. tt) answer)
          (λ _ _. (kept, admin_or_home-eq-pass h u admin)))

  pub page_update_defaults_handler-Good : GoodPage (page_update_defaults_handler h)
  unfolding page_update_defaults_handler form_params
  page_update_defaults_handler-Good t k =
      let config = request.form_value (codes "gatewayConfig") in
      check-Good h u Keeps step (admin_or_home u) _ t k (admin_or_home-Bland h u) (λ _ admin.
        check-Good h u Keeps step (check_defaults config) _ t k (check_defaults-Bland h u config)
          (λ _ good answer.
            let kept =
              step (update_defaults (form_params request)) answer t
                (
                  admin_or_home-eq-pass h u admin,
                  (config, check_defaults-Usable config good, inr refl),
                )
                k in
            check-Good h u Keeps step (or_fail _ answer) _ _ kept
              (or_fail-Bland h u (http_error 500 "failed to update defaults") (λ _. tt) answer)
              (λ _ _. (kept, tt))))

  pub page_create_instance_handler-Good :
      (float_text : Text → Option Text) → GoodPage (page_create_instance_handler h float_text)
  unfolding page_create_instance_handler
  page_create_instance_handler-Good float_text t k existing =
      let k₁ = step (get_instance h.kube_namespace u.id) existing t refl k in
      check-Good h u Keeps step (absent_or_fail _ existing) _ _ k₁
        (absent_or_fail-Bland h u (redirect 303 (codes "/")) (λ _. tt) existing)
        (λ _ absent.
          create_from_defaults-Good h u Keeps step request float_text "missing required values: "
            (λ config. form_values (with_user u request) (extract_placeholders config))
            (request.form_value (codes "gatewayConfigOverride")) (redirect 303 (codes "/"))
            (λ _. return (hx_redirect 201 (codes "/"))) _ (λ _. tt)
            (absent-Occurs h.kube_namespace u.id (redirect 303 (codes "/")) existing t absent) k₁
            (λ i s created. (created.0, tt)))

  -- The names are read for an administrator only.
  names_for-Good :
      (b : Bool)
      → is_admin u ≡ b
      → (t : Trace) → Keeps t
      → GoodTo h u Keeps step (λ _. Keeps) (names_for b) t
  unfolding names_for
  names_for-Good true e t k = λ answer. step list_users answer t (==_sound u.role "admin" e) k
  names_for-Good false e t k = k

  pub page_dashboard_handler-Good : GoodPage (page_dashboard_handler h)
  unfolding page_dashboard_handler
  page_dashboard_handler-Good t k answer =
      let k₁ = step (list_instances h.kube_namespace) answer t refl k in
      check-Good h u Keeps step (or_fail _ answer) _ _ k₁
        (or_fail-Bland h u (http_error 500 "failed to list instances") (λ _. tt) answer)
        (λ is _.
          bind-Good h u Keeps step (λ _. Keeps) (names_for (is_admin u)) _ _
            (names_for-Good (is_admin u) refl _ k₁)
            (λ names s k₂ got.
              let k₃ = step get_defaults got s tt k₂ in
              check-Good h u Keeps step (or_fail _ got) _ _ k₃
                (or_fail-Bland h u (http_error 500 "failed to load defaults") (λ _. tt) got)
                (λ _ _. (k₃, listed-Mine h u is))))

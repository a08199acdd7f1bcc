-- ===== src/Handler/Pages.antt =====
-- internal/handler/pages.go: the pages, and the forms that they send.
use clawbake.Base.{
  String, List, [], ◌∷◌, ◌++◌, Bool, true, false, not, none, some, Option, Text, codes, any, ◌+◌,
  ◌%◌, ◌^◌, is_empty, insert, concat, string_eq, text_eq, ◌==◌, if◌then◌else◌,
}
use clawbake.Api.{Result, ok, err, ClawInstance}
use clawbake.Database.{User, UpdateDefaultsParams}
use clawbake.Http.{
  Request, Reply, http_error, redirect, no_content, hx_redirect, page_login, page_dev_login,
  page_dashboard, page_detail, page_status, page_users, page_defaults, page_edit_config, Viewer,
}
use clawbake.Effects.{
  get_instance, list_instances, update_instance, get_defaults, update_defaults, list_users,
  read_pod_config, Prog, pure, return, ◌>>=◌, ◌>>◌, call, block,
}
use clawbake.Auth.{contains_text}
use clawbake.Jsonutil.Template.{Values, extract_placeholders}
use clawbake.Handler.{
  Config, Check, pass, fail, check, or_fail, absent_or_fail, signed_in, is_admin, visible,
  admin_or_home, k8s_delete_instance,
}
use clawbake.Handler.Layout.{pretty_json, compact_json}
use clawbake.Handler.Admin.{check_defaults, valid_or_fail}
use clawbake.Handler.Instances.{create_from_defaults, own}

-- The names of the users by their ids.
unfoldable pub names_by_id : List User → List (String × String) → List (String × String)
unfolding insert
names_by_id [] names = names
names_by_id (u ∷ us) names = names_by_id us (insert u.id u.name names)

abbrev pub user_names : Result (List User) → List (String × String)
user_names (ok users) = names_by_id users []
user_names (err e) = []

-- The values of the form for the placeholders; an empty one is missing.
unfoldable pub form_values : Request → List Text → Values
form_values request [] = []
form_values request (name ∷ names) =
    let value = request.form_value (codes "var_" ++ name) in
    let rest = form_values request names in if is_empty value then rest else (name, value) ∷ rest

-- The configuration that the running pod reads, or the one of the resource; and which it is.
abbrev pub live_config : ClawInstance → Result Text → Text × Bool
live_config i (ok text) = (text, true)
live_config i (err e) = (i.spec.gateway_config, false)

-- `instance.Spec.ConfigGeneration++`, on the bit pattern of an int64
unfoldable pub reconfigured : Text → ClawInstance → ClawInstance
unfolding compact_json
reconfigured config i = record i {
  spec = record i.spec {
    gateway_config = compact_json config;
    config_generation = (i.spec.config_generation + 1) % 2 ^ 64;
  };
}

-- Only the dashboard of an administrator shows the names of the users.
unfoldable pub names_for : Bool → Prog Reply (List (String × String))
names_for true = do users ← call list_users; pure (user_names users)
names_for false = pure []

-- A template is stored as it is, a document without placeholders compacted.
unfoldable pub stored_config : Text → Text
unfolding compact_json
stored_config config =
    if is_empty (extract_placeholders config) then compact_json config else config

-- The update of the defaults that the form asks for.
unfoldable pub form_params : Request → UpdateDefaultsParams
unfolding stored_config
form_params request = record {
  image = request.form_string "image";
  cpu_request = request.form_string "cpuRequest";
  memory_request = request.form_string "memoryRequest";
  cpu_limit = request.form_string "cpuLimit";
  memory_limit = request.form_string "memoryLimit";
  storage_size = request.form_string "storageSize";
  gateway_config = stored_config (request.form_value (codes "gatewayConfig"));
}

module _ (h : Config) where
  abbrev pub viewer : User → ClawInstance → Viewer
  viewer u i = record {
    is_admin = is_admin u;
    tui_enabled = h.tui_enabled;
    shell_enabled = h.shell_enabled;
    is_owner = i.spec.user_id == u.id;
  }

  abbrev pub login_page : Check User
  login_page = fail (if h.has_dev_auth then page_dev_login else page_login)

  abbrev pub user_or_login : Option User → Check User
  user_or_login (some u) = pass u
  user_or_login none = login_page

  -- `PageDashboard`
  unfoldable pub page_dashboard_handler : Request → Prog Reply Reply
  unfolding names_for
  page_dashboard_handler request = do
    u ← check (user_or_login request.user)
    answer ← call (list_instances h.kube_namespace)
    instances ← check (or_fail (http_error 500 "failed to list instances") answer)
    names ← names_for (is_admin u)
    got ← call get_defaults
    defaults ← check (or_fail (http_error 500 "failed to load defaults") got)
    return (
        page_dashboard (record {
          instances = if not (is_admin u) then own u instances else instances;
          is_admin = is_admin u;
          has_instance = any (λ i. i.spec.user_id == u.id) instances;
          user_names = names;
          placeholders = extract_placeholders defaults.gateway_config;
          tui_enabled = h.tui_enabled;
          shell_enabled = h.shell_enabled;
          current_user_id = u.id;
        }))

  -- `PageCreateInstance`
  unfoldable pub page_create_instance_handler : (Text → Option Text) → Request → Prog Reply Reply
  unfolding form_values create_from_defaults
  page_create_instance_handler float_text request = do
    u ← check (signed_in request.user)
    existing ← call (get_instance h.kube_namespace u.id)
    check (absent_or_fail (redirect 303 (codes "/")) existing)
    create_from_defaults h float_text "missing required values: "
        (λ config. form_values request (extract_placeholders config))
        (request.form_value (codes "gatewayConfigOverride")) (redirect 303 (codes "/")) u
    return (hx_redirect 201 (codes "/"))

  -- `PageInstanceDetail`
  unfoldable pub page_instance_detail_handler : Request → Prog Reply Reply
  unfolding visible
  page_instance_detail_handler request = do
    got ← call (get_instance h.kube_namespace request.id_param)
    i ← check (or_fail (http_error 404 "instance not found") got)
    u ← check (signed_in request.user)
    check (visible u i)
    return (page_detail i (viewer u i))

  -- `PageInstanceStatus`
  unfoldable pub page_instance_status_handler : Request → Prog Reply Reply
  unfolding visible contains_text
  page_instance_status_handler request = do
    got ← call (get_instance h.kube_namespace request.id_param)
    i ← check (or_fail (http_error 404 "instance not found") got)
    u ← check (signed_in request.user)
    check (visible u i)
    return (
        page_status i (viewer u i)
          (contains_text (request.header "HX-Current-URL") (codes "/ui/instances/")))

  -- `PageDeleteInstance`
  unfoldable pub page_delete_instance_handler : Request → Prog Reply Reply
  unfolding visible k8s_delete_instance
  page_delete_instance_handler request = do
    got ← call (get_instance h.kube_namespace request.id_param)
    i ← check (or_fail (http_error 404 "instance not found") got)
    u ← check (signed_in request.user)
    check (visible u i)
    deleted ← block (k8s_delete_instance h.kube_namespace request.id_param)
    check (or_fail (http_error 500 "failed to delete instance") deleted)
    return (
        if request.query_param "redirect" == codes "true"
        then hx_redirect 200 (codes "/")
        else no_content 200)

  -- `PageAdminUsers`
  unfoldable pub page_admin_users_handler : Request → Prog Reply Reply
  unfolding admin_or_home
  page_admin_users_handler request = do
    u ← check (signed_in request.user)
    check (admin_or_home u)
    answer ← call list_users
    users ← check (or_fail (http_error 500 "failed to list users") answer)
    return (page_users users)

  -- `PageAdminDefaults`
  unfoldable pub page_admin_defaults_handler : Request → Prog Reply Reply
  unfolding admin_or_home pretty_json
  page_admin_defaults_handler request = do
    u ← check (signed_in request.user)
    check (admin_or_home u)
    answer ← call get_defaults
    defaults ← check (or_fail (http_error 500 "failed to get defaults") answer)
    return
        (page_defaults (record defaults { gateway_config = pretty_json defaults.gateway_config }))

  -- `PageUpdateDefaults`
  unfoldable pub page_update_defaults_handler : Request → Prog Reply Reply
  unfolding admin_or_home check_defaults form_params
  page_update_defaults_handler request = do
    u ← check (signed_in request.user)
    check (admin_or_home u)
    let config = request.form_value (codes "gatewayConfig")
    check (check_defaults config)
    answer ← call (update_defaults (form_params request))
    check (or_fail (http_error 500 "failed to update defaults") answer)
    return (redirect 303 (codes "/ui/admin/defaults"))

  -- `PageEditInstanceConfig`
  unfoldable pub page_edit_instance_config_handler : Request → Prog Reply Reply
  unfolding visible pretty_json
  page_edit_instance_config_handler request = do
    got ← call (get_instance h.kube_namespace request.id_param)
    i ← check (or_fail (http_error 404 "instance not found") got)
    u ← check (signed_in request.user)
    check (visible u i)
    live ← call (read_pod_config (concat "clawbake-" i.name))
    let shown = live_config i live
    return (page_edit_config i (pretty_json shown.0) shown.1 (is_admin u))

  -- `PageUpdateInstanceConfig`
  unfoldable pub page_update_instance_config_handler : Request → Prog Reply Reply
  unfolding visible reconfigured
  page_update_instance_config_handler request = do
    got ← call (get_instance h.kube_namespace request.id_param)
    i ← check (or_fail (http_error 404 "instance not found") got)
    u ← check (signed_in request.user)
    check (visible u i)
    let config = request.form_value (codes "gatewayConfig")
    check (valid_or_fail config)
    answer ← call (update_instance (reconfigured config i))
    check (or_fail (http_error 500 "failed to update instance config") answer)
    return (redirect 303 (codes "/ui/instances/" ++ codes request.id_param))

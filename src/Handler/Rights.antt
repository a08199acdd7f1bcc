-- ===== src/Handler/Rights.antt =====
-- What a user may make the server do, and what a reply may show him.
pub mod Steps
pub mod Prefixes
pub mod Api
pub mod Proxy
pub mod Pages
use clawbake.Base.{
  String, List, Bool, true, false, ◌≡◌, ◌⊎◌, Option, none, some, Text, concat, All, is_empty,
}
use clawbake.Api.{ok, err, Error, ClawInstance, phase_running}
use clawbake.Database.{User}
use clawbake.Http.{
  Target, Outgoing, Reply, http_error, http_error_about, redirect, hx_redirect, no_content,
  json_object, json_instances, json_instance, page_dashboard, page_detail, page_status, page_users,
  page_defaults, page_edit_config, json_users, json_defaults, forwarded, panicked, page_login,
  page_dev_login,
}
use clawbake.Effects.{
  Call, get_instance, list_instances, create_instance, update_instance, delete_instance,
  read_pod_config, get_defaults, update_defaults, list_users, random_hex, dial, send_upgrade,
  hijack, get_user_by_id, get_user_by_email, load_session, notify_from_server, Trace,
}
use clawbake.Effects.Paths.{Occurs}
use clawbake.Jsonutil.Json.{valid}
use clawbake.Jsonutil.Template.{extract_placeholders}
use clawbake.Jsonutil.Merge.{Validity, accepted, validate_template}
use clawbake.Handler.{Config}
use clawbake.Handler.Pages.{reconfigured, stored_config}
use clawbake.Handler.Proxy.{target_of}
use clawbake.Handler.Proxy.Paths.{Route}

-- A configuration that may become the default: a document, or a template of one.
abbrev pub Usable : Text → Type 0
Usable config =
    (valid config ≡ true)
    ⊎ ((is_empty (extract_placeholders config) ≡ false) × (validate_template config ≡ accepted))

module _ (h : Config) (u : User) where
  -- The user is an administrator, or the instance is his.
  abbrev pub Mine : ClawInstance → Type 0
  Mine i = (u.role ≡ "admin") ⊎ (i.spec.user_id ≡ u.id)

  -- The instance was read from the API and is the user's to see.
  abbrev pub Checked : String → ClawInstance → Trace → Type 0
  Checked id i t = Occurs (get_instance h.kube_namespace id) (ok i) t × Mine i

  -- The target is the service of the user's own instance, which was seen running.
  abbrev pub Reaches : Target → ClawInstance → Trace → Type 0
  Reaches target i t =
      Occurs (get_instance h.kube_namespace u.id) (ok i) t
      × (i.status.phase ≡ phase_running)
      × ((route : Route) × (target ≡ target_of u i route))

  abbrev pub OwnToken : Option String → ClawInstance → Type 0
  OwnToken token i = (token ≡ none) ⊎ (token ≡ some i.spec.gateway_token)

  abbrev pub Allowed : Call → Trace → Type 0
  Allowed (get_instance namespace _) t = namespace ≡ h.kube_namespace
  Allowed (list_instances namespace) t = namespace ≡ h.kube_namespace
  Allowed (create_instance j) t =
      (j.name ≡ u.id)
      × (j.namespace ≡ h.kube_namespace)
      × (j.spec.user_id ≡ u.id)
      × ((e : Error) × Occurs (get_instance h.kube_namespace u.id) (err e) t)
  Allowed (update_instance j) t =
      (id : String) × (i : ClawInstance) × Checked id i t
      × ((config : Text) × (valid config ≡ true) × (j ≡ reconfigured config i))
  Allowed (delete_instance j) t =
      (id : String) × (i : ClawInstance) × Checked id i t
      × Occurs (get_instance h.kube_namespace id) (ok j) t
  Allowed (read_pod_config namespace) t =
      (id : String) × (i : ClawInstance) × Checked id i t × (namespace ≡ concat "clawbake-" i.name)
  Allowed (update_defaults p) t =
      (u.role ≡ "admin")
      × ((config : Text) × Usable config
          × ((p.gateway_config ≡ config) ⊎ (p.gateway_config ≡ stored_config config)))
  Allowed list_users t = u.role ≡ "admin"
  Allowed (dial target) t = (i : ClawInstance) × Reaches target i t
  Allowed (send_upgrade out) t = (i : ClawInstance) × Reaches out.target i t × OwnToken out.token i
  Allowed get_defaults t = Unit
  Allowed (random_hex _) t = Unit
  Allowed hijack t = Unit
  Allowed _ t = ⊥

  abbrev pub Shown : Reply → Trace → Type 0
  Shown (json_instance _ i) t =
      ((id : String) × Checked id i t) ⊎ ((j : ClawInstance) × Occurs (create_instance j) (ok i) t)
  Shown (page_detail i _) t = (id : String) × Checked id i t
  Shown (page_status i _ _) t = (id : String) × Checked id i t
  Shown (page_edit_config i _ _ _) t = (id : String) × Checked id i t
  Shown (json_instances _ is) t = All Mine is
  Shown (page_dashboard d) t = All Mine d.instances
  Shown (page_users _) t = u.role ≡ "admin"
  Shown (json_users _ _) t = u.role ≡ "admin"
  Shown (page_defaults _) t = u.role ≡ "admin"
  Shown (json_defaults _ _) t = u.role ≡ "admin"
  Shown (forwarded out) t = (i : ClawInstance) × Reaches out.target i t × OwnToken out.token i
  Shown _ t = Unit

  -- A reply that shows nothing of the instances, the users or the defaults.
  abbrev pub Harmless : Reply → Type 0
  Harmless reply = (t : Trace) → Shown reply t

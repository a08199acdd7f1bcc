-- ===== src/Examples/World.antt =====
-- A world for the examples: one user with one instance, and an outside that answers every call.
use clawbake.Base.{
  String, [], ◌∷◌, true, false, none, some, codes, filter, not, contains, string_eq, ◌==◌,
}
use clawbake.Api.{Error, Kind, ok, err, ClawInstance}
use clawbake.Database.{User, InstanceDefault}
use clawbake.Kube.{Deployment}
use clawbake.Http.{Request}
use clawbake.Effects.{
  Call, Response, get_instance, list_instances, create_instance, update_instance, update_status,
  delete_instance, get_namespace, delete_namespace, get_deployment, apply_namespace, apply_pvc,
  apply_deployment, apply_service, apply_network_policy, record_event, notify_ready,
  read_pod_config, get_defaults, update_defaults, list_users, get_user_by_id, get_user_by_email,
  get_user_by_oidc_subject, create_user, update_user, random_hex, load_session, save_session,
  exchange_code, verify_token, dial, send_upgrade, hijack, notify_from_server, now, slack_user,
  post_message, chat, start_message, open_migrations, connect_migrations, migrate_up, sleep,
  Exchange, Migration, Applied, Verified, Hijack, SessionValue, Trace,
}
use clawbake.Operator.{Reconciler}
use clawbake.Operator

abbrev pub reconciler : Reconciler
reconciler = record {
  server_namespace = "clawbake";
  default_gateway_config = codes "{}";
  ttyd_image = "ttyd";
  tui_enabled = true;
  tui_port = 7681;
  tui_command = codes "ttyd tui";
  shell_enabled = true;
  shell_port = 7682;
  shell_command = codes "ttyd sh";
  has_notifier = true;
}

abbrev pub operator_libraries : Operator.Libraries
operator_libraries = record {
  contains_finalizer = λ fs f. contains f fs;
  add_finalizer = λ fs f. f ∷ fs;
  remove_finalizer = λ fs f. filter (λ g. not (g == f)) fs;
  set_status_condition = λ cs c. c ∷ [];
  parse_quantity = λ q. some q;
}

abbrev pub alice : User
alice = record {
  id = "alice";
  email = "alice@example.com";
  name = "Alice";
  picture = none;
  role = "user";
  oidc_subject = "sub-1";
  slack_user_id = none;
}

abbrev pub instance_in : String → ClawInstance
instance_in phase = record {
  name = "alice";
  namespace = "clawbake";
  labels = [];
  generation = 1;
  deletion_timestamp = none;
  finalizers = "clawbake.io/finalizer" ∷ [];
  spec = record {
    user_id = "alice";
    image = "openclaw";
    gateway_token = "token";
    gateway_config = codes "{}";
    config_generation = 0;
    resources = record {
      requests = record { cpu = "1"; memory = "1Gi" };
      limits = record { cpu = "2"; memory = "2Gi" };
    };
    storage = record { size = "1Gi"; storage_class = "" };
  };
  status = record { phase = phase; namespace = "clawbake-alice"; conditions = [] };
}

abbrev pub empty_deployment : Deployment
empty_deployment = record {
  labels = [];
  spec = record {
    replicas = 1;
    selector = [];
    template_labels = [];
    pod_spec = record {
      fs_group = 0;
      enable_service_links = true;
      init_containers = [];
      containers = [];
      volumes = [];
    };
  };
  ready_replicas = 1;
}

abbrev pub the_defaults : InstanceDefault
the_defaults = record {
  id = "1";
  image = "openclaw";
  cpu_request = "1";
  memory_request = "1Gi";
  cpu_limit = "2";
  memory_limit = "2Gi";
  storage_size = "1Gi";
  gateway_config = codes "{\"key\":\"{{KEY}}\"}";
}

abbrev pub missing : Error
missing = record { kind = Kind.no_rows; message = "no rows" }

-- The answer to a call, where the instance is in the given phase.
abbrev pub answer_in : String → (c : Call) → Response c
answer_in phase (get_instance _ _) = ok (instance_in phase)
answer_in phase (list_instances _) = ok (instance_in phase ∷ [])
answer_in phase (create_instance i) = ok i
answer_in phase (update_instance i) = ok i
answer_in phase (update_status i) = ok i
answer_in phase (delete_instance _) = ok tt
answer_in phase (get_namespace n) = ok (record { name = n; labels = [] })
answer_in phase (delete_namespace _) = ok tt
answer_in phase (get_deployment _ _) = ok empty_deployment
answer_in phase (apply_namespace _ _) = Applied.applied
answer_in phase (apply_pvc _ _ _) = Applied.applied
answer_in phase (apply_deployment _ _ _) = Applied.applied
answer_in phase (apply_service _ _ _) = Applied.applied
answer_in phase (apply_network_policy _ _ _) = Applied.applied
answer_in phase (record_event _ _ _ _) = tt
answer_in phase (notify_ready _ _) = tt
answer_in phase (read_pod_config _) = ok (codes "{}")
answer_in phase get_defaults = ok the_defaults
answer_in phase (update_defaults _) = ok the_defaults
answer_in phase list_users = ok (alice ∷ [])
answer_in phase (get_user_by_id _) = ok alice
answer_in phase (get_user_by_email _) = ok alice
answer_in phase (get_user_by_oidc_subject _) = err missing
answer_in phase (create_user _) = ok alice
answer_in phase (update_user _) = ok alice
answer_in phase (random_hex _) = ok "00"
answer_in phase load_session = record {
  user_id = some (SessionValue.text (codes "alice"));
  oauth_state = some (SessionValue.text (codes "state"));
  redirect_url = none;
  dev_role = some (SessionValue.text (codes "admin"));
  expired = false;
}
answer_in phase (save_session _) = ok tt
answer_in phase (exchange_code _) = ok (some (codes "raw"))
answer_in phase (verify_token _) =
    Verified.claims
      (record { email = "alice@example.com"; name = "Alice"; picture = ""; sub = "sub-1" })
answer_in phase (dial _) = ok tt
answer_in phase (send_upgrade _) = ok tt
answer_in phase hijack = Hijack.hijacked
answer_in phase (notify_from_server _ _) = tt
answer_in phase now = 1_700_000_000
answer_in phase (slack_user _) = ok (record { email = "alice@example.com"; real_name = "Alice" })
answer_in phase (post_message _ _) = tt
answer_in phase (chat _) = Exchange.answered 200 (codes "hello")
answer_in phase (start_message _ _ _) = tt
answer_in phase open_migrations = ok tt
answer_in phase (connect_migrations _) = ok tt
answer_in phase migrate_up = Migration.no_change
answer_in phase (sleep _) = tt

abbrev pub world_in : String → Trace → (c : Call) → Response c
world_in phase t c = answer_in phase c

-- A request of a browser for the instance of Alice.
abbrev pub request_of : String → Request
request_of method = record {
  method = method;
  path = codes "/proxy/tui/ws";
  raw_query = [];
  request_uri = codes "/ui/instances/alice";
  header = λ _. codes "text/html";
  query_param = λ _. codes "state";
  form_value = λ _. codes "{}";
  form_string = λ _. "1";
  id_param = "alice";
  has_body = false;
  create_body = none;
  defaults_body = none;
  ready_body = none;
  user = none;
}

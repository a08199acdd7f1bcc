-- ===== src/Handler/Instances.antt =====
-- internal/handler/instance.go: the API of the instances.
pub mod Configure
use clawbake.Base.{
  ℕ, String, List, [], ◌∷◌, Bool, true, not, none, some, Option, Text, codes, filter, string_eq,
  ◌==◌, if◌then◌else◌,
}
use clawbake.Api.{Error, Result, ok, err, is_already_exists, ClawInstance}
use clawbake.Database.{User, InstanceDefault}
use clawbake.Http.{
  CreateInstanceRequest, Request, Reply, http_error, json_instances, json_instance, no_content,
}
use clawbake.Effects.{
  get_instance, list_instances, create_instance, get_defaults, random_hex, Prog, pure, return,
  ◌>>=◌, ◌>>◌, call, block,
}
use clawbake.Handler.{
  Config, Check, pass, fail, check, or_fail, absent_or_fail, signed_in, is_admin, visible,
  k8s_delete_instance,
}
use clawbake.Jsonutil.Template.{Values}
use Configure.{substitute_values, override_config}

-- The loop that keeps the instances of a user.
abbrev pub own : User → List ClawInstance → List ClawInstance
own u instances = filter (λ i. i.spec.user_id == u.id) instances

abbrev pub bound_body : Option CreateInstanceRequest → Check CreateInstanceRequest
bound_body (some body) = pass body
bound_body none = fail (http_error 400 "invalid request body")

-- The body of the request, if there is one.
abbrev pub read_body : Request → Check CreateInstanceRequest
read_body request =
    if request.has_body
    then bound_body request.create_body
    else pass (record { gateway_config_override = []; placeholder_values = [] })

-- `generateToken`: the buffer stays zero where no random bytes can be read.
abbrev pub token_of : Result String → String
token_of (ok token) = token
token_of (err e) = "0000000000000000000000000000000000000000000000000000000000000000"

-- The instance that the creation sends.
unfoldable pub instance_of : String → User → InstanceDefault → String → Text → ClawInstance
instance_of namespace u defaults token config = record {
  name = u.id;
  namespace = namespace;
  labels = [];
  generation = 0;
  deletion_timestamp = none;
  finalizers = [];
  spec = record {
    user_id = u.id;
    image = defaults.image;
    gateway_token = token;
    gateway_config = config;
    config_generation = 0;
    resources = record {
      requests = record { cpu = defaults.cpu_request; memory = defaults.memory_request };
      limits = record { cpu = defaults.cpu_limit; memory = defaults.memory_limit };
    };
    storage = record { size = defaults.storage_size; storage_class = "" };
  };
  status = record { phase = ""; namespace = ""; conditions = [] };
}

-- The reply where an instance stands there already.
abbrev pub created_or_fail : Reply → Result ClawInstance → Check ClawInstance
created_or_fail conflict (ok i) = pass i
created_or_fail conflict (err e) =
    fail (if is_already_exists e then conflict else http_error 500 "failed to create instance")

module _ (h : Config) where
  -- From the read of the defaults on, as both handlers that create an instance have it: what they
  -- put in for the placeholders and on top, and how they reply where an instance stands there.
  unfoldable pub create_from_defaults :
      (Text → Option Text)
      → String
      → (Text → Values)
      → Text
      → Reply
      → User
      → Prog Reply ClawInstance
  unfolding instance_of substitute_values override_config
  create_from_defaults float_text label values over conflict u = do
    got ← call get_defaults
    defaults ← check (or_fail (http_error 500 "failed to load defaults") got)
    substituted ←
        check (substitute_values label defaults.gateway_config (values defaults.gateway_config))
    config ← check (override_config float_text substituted over)
    random ← call (random_hex 32)
    answer ←
        call (create_instance (instance_of h.kube_namespace u defaults (token_of random) config))
    check (created_or_fail conflict answer)

  -- `ListInstances`
  unfoldable pub list_instances_handler : Request → Prog Reply Reply
  list_instances_handler request = do
    answer ← call (list_instances h.kube_namespace)
    instances ← check (or_fail (http_error 500 "failed to list instances") answer)
    u ← check (signed_in request.user)
    return (json_instances 200 (if not (is_admin u) then own u instances else instances))

  -- `CreateInstance`
  unfoldable pub create_instance_handler : (Text → Option Text) → Request → Prog Reply Reply
  unfolding create_from_defaults
  create_instance_handler float_text request = do
    u ← check (signed_in request.user)
    existing ← call (get_instance h.kube_namespace u.id)
    check (absent_or_fail (http_error 409 "instance already exists") existing)
    body ← check (read_body request)
    i ←
        create_from_defaults float_text "missing required placeholder values: "
          (λ _. body.placeholder_values) body.gateway_config_override
          (http_error 409 "instance already exists") u
    return (json_instance 201 i)

  -- `GetInstance`
  unfoldable pub get_instance_handler : Request → Prog Reply Reply
  unfolding visible
  get_instance_handler request = do
    got ← call (get_instance h.kube_namespace request.id_param)
    i ← check (or_fail (http_error 404 "instance not found") got)
    u ← check (signed_in request.user)
    check (visible u i)
    return (json_instance 200 i)

  -- `DeleteInstance`
  unfoldable pub delete_instance_handler : Request → Prog Reply Reply
  unfolding visible k8s_delete_instance
  delete_instance_handler request = do
    got ← call (get_instance h.kube_namespace request.id_param)
    i ← check (or_fail (http_error 404 "instance not found") got)
    u ← check (signed_in request.user)
    check (visible u i)
    deleted ← block (k8s_delete_instance h.kube_namespace request.id_param)
    check (or_fail (http_error 500 "failed to delete instance") deleted)
    return (no_content 204)

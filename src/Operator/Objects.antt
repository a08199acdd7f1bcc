-- ===== src/Operator/Objects.antt =====
-- The callbacks of `CreateOrUpdate` in internal/operator/controller.go: each sets its fields of the
-- object that the API server returned, or of a new one.
use clawbake.Base.{
  String, List, [], ◌∷◌, ◌++◌, false, ◌||◌, Option, none, some, Text, codes, string_eq, text_eq,
  ◌==◌, not, insert, int64_text, if◌then◌else◌,
}
use clawbake.Base.Options.{◌>>=◌}
use clawbake.Api.{ClawInstance, ResourceList, ClawInstanceResources}
use clawbake.Kube.{
  Labels, Namespace, PersistentVolumeClaim, VolumeMount, claim, empty_dir, Volume, ContainerPort,
  Quantities, ResourceRequirements, Container, PodSpec, Deployment, ServicePort, Service,
  NetworkPolicy,
}
use clawbake.Operator.{Reconciler, Libraries, ttyd_needed, build_command}

abbrev instance_labels : ClawInstance → Labels
instance_labels i = ("clawbake.io/instance", i.name) ∷ []

unfoldable pub mutate_namespace : ClawInstance → Namespace → Namespace
mutate_namespace i ns = record ns {
  labels =
      insert "clawbake.io/user-id" i.spec.user_id (insert "clawbake.io/instance" i.name ns.labels);
}

module _ (l : Libraries) where
  unfoldable pub mutate_pvc : ClawInstance → PersistentVolumeClaim → Option PersistentVolumeClaim
  mutate_pvc i pvc =
      let size = if i.spec.storage.size == "" then "5Gi" else i.spec.storage.size in
      let fresh : Option PersistentVolumeClaim = (do
        quantity ← l.parse_quantity size
        some (record pvc {
          labels = instance_labels i;
          access_modes = "ReadWriteOnce" ∷ [];
          storage_request = some quantity;
          storage_class_name =
              if not (i.spec.storage.storage_class == "")
              then some i.spec.storage.storage_class
              else none;
        })) in
      if pvc.created then some pvc else fresh

  -- `reqs.Requests[name] = resource.MustParse(value)`, if the value is not empty.
  unfoldable pub add_quantity : String → String → Quantities → Option Quantities
  add_quantity name value qs =
      let parsed : Option Quantities = (do q ← l.parse_quantity value; some (insert name q qs)) in
      if not (value == "") then parsed else some qs

  unfoldable pub build_list : ResourceList → Option (Option Quantities)
  unfolding add_quantity
  build_list rl =
      let both : Option (Option Quantities) = (do
        qs ← add_quantity "cpu" rl.cpu []
        rs ← add_quantity "memory" rl.memory qs
        some (some rs)) in
      if not (rl.cpu == "") || not (rl.memory == "") then both else some none

  unfoldable pub build_resource_requirements : ClawInstanceResources → Option ResourceRequirements
  unfolding build_list
  build_resource_requirements res = do
    requests ← build_list res.requests
    limits ← build_list res.limits
    some (record { requests = requests; limits = limits })

-- The script of the init container. The configuration stands between single quotes.
unfoldable pub config_script : Text → Text → Text
config_script config generation =
    codes "if [ ! -f /home/node/.openclaw/openclaw.json ]; then\n  echo '"
    ++ (config
        ++ (codes "' > /home/node/.openclaw/openclaw.json\n  echo \""
            ++ (generation
                ++ (codes
                      "\" > /home/node/.openclaw/.config-gen\nelse\n  current=$(cat /home/node/.openclaw/.config-gen 2>/dev/null || echo -1)\n  if [ \"$current\" != \""
                    ++ (generation
                        ++ (codes "\" ]; then\n    echo '"
                            ++ (config
                                ++ (codes "' > /home/node/.openclaw/openclaw.json\n    echo \""
                                    ++ (generation
                                        ++ codes
                                            "\" > /home/node/.openclaw/.config-gen\n  fi\nfi")))))))))

abbrev no_resources : ResourceRequirements
no_resources = record { requests = none; limits = none }

abbrev config_mount : VolumeMount
config_mount = record {
  name = "data";
  mount_path = "/home/node/.openclaw";
  sub_path = "openclaw-config";
}

abbrev ttyd_mount : VolumeMount
ttyd_mount = record { name = "ttyd-bin"; mount_path = "/ttyd-bin"; sub_path = "" }

module _ (r : Reconciler) where
  unfoldable pub effective_config : ClawInstance → Text
  effective_config i =
      if i.spec.gateway_config == [] then r.default_gateway_config else i.spec.gateway_config

  unfoldable pub volumes : List Volume
  unfolding ttyd_needed
  volumes =
      (record { name = "data"; source = claim "openclaw-data" })
      ∷ (if ttyd_needed r then (record { name = "ttyd-bin"; source = empty_dir }) ∷ [] else [])

  unfoldable pub volume_mounts : List VolumeMount
  unfolding ttyd_needed
  volume_mounts =
      (record { name = "data"; mount_path = "/data"; sub_path = "" })
      ∷ config_mount
      ∷ (if ttyd_needed r then ttyd_mount ∷ [] else [])

  unfoldable pub init_containers : ClawInstance → List Container
  unfolding ttyd_needed config_script effective_config int64_text
  init_containers i =
      (record {
        name = "write-config";
        image = i.spec.image;
        command =
            codes "sh"
            ∷ codes "-c"
            ∷ config_script (effective_config i) (int64_text i.spec.config_generation)
            ∷ [];
        ports = [];
        env = [];
        readiness_probe = none;
        resources = no_resources;
        volume_mounts = config_mount ∷ [];
      })
      ∷ (if ttyd_needed r
          then (record {
            name = "install-ttyd";
            image = r.ttyd_image;
            command = codes "cp" ∷ codes "/usr/bin/ttyd" ∷ codes "/ttyd-bin/ttyd" ∷ [];
            ports = [];
            env = [];
            readiness_probe = none;
            resources = no_resources;
            volume_mounts = ttyd_mount ∷ [];
          })
            ∷ []
          else [])

  unfoldable pub container_ports : List ContainerPort
  container_ports =
      (record { name = "http"; container_port = 18789; protocol = "TCP" })
      ∷ ((if r.tui_enabled
            then (record { name = "tui"; container_port = r.tui_port; protocol = "TCP" }) ∷ []
            else [])
          ++ (if r.shell_enabled
              then (record { name = "shell"; container_port = r.shell_port; protocol = "TCP" }) ∷ []
              else []))

  unfoldable pub openclaw_container : ClawInstance → ResourceRequirements → Container
  unfolding container_ports volume_mounts build_command
  openclaw_container i resources = record {
    name = "openclaw";
    image = i.spec.image;
    command = build_command r;
    ports = container_ports;
    env =
        ("NODE_OPTIONS", "--max-old-space-size=1536 --disable-warning=ExperimentalWarning")
        ∷ ("OPENCLAW_NODE_OPTIONS_READY", "1")
        ∷ ("OPENCLAW_GATEWAY_TOKEN", i.spec.gateway_token)
        ∷ [];
    readiness_probe = some (record {
      path = "/__openclaw/control-ui-config.json";
      port = 18789;
      initial_delay_seconds = 5;
      period_seconds = 5;
    });
    resources = resources;
    volume_mounts = volume_mounts;
  }

  unfoldable pub pod_spec : ClawInstance → ResourceRequirements → PodSpec
  unfolding init_containers openclaw_container volumes
  pod_spec i resources = record {
    fs_group = 1000;
    enable_service_links = false;
    init_containers = init_containers i;
    containers = openclaw_container i resources ∷ [];
    volumes = volumes;
  }

  unfoldable pub deployment_of : ClawInstance → ResourceRequirements → Deployment → Deployment
  unfolding pod_spec
  deployment_of i resources deploy =
      let labels : Labels = ("app", "openclaw") ∷ ("clawbake.io/instance", i.name) ∷ [] in
      record deploy {
        labels = labels;
        spec = record {
          replicas = 1;
          selector = ("app", "openclaw") ∷ [];
          template_labels = labels;
          pod_spec = pod_spec i resources;
        };
      }

  unfoldable pub mutate_deployment : Libraries → ClawInstance → Deployment → Option Deployment
  unfolding deployment_of build_resource_requirements
  mutate_deployment l i deploy = do
    resources ← build_resource_requirements l i.spec.resources
    some (deployment_of i resources deploy)

  unfoldable pub service_ports : List ServicePort
  service_ports =
      (record { name = "http"; port = 18789; target_port = "http"; protocol = "TCP" })
      ∷ ((if r.tui_enabled
            then (record { name = "tui"; port = r.tui_port; target_port = "tui"; protocol = "TCP" })
              ∷ []
            else [])
          ++ (if r.shell_enabled
              then (record {
                name = "shell";
                port = r.shell_port;
                target_port = "shell";
                protocol = "TCP";
              })
                ∷ []
              else []))

  unfoldable pub mutate_service : ClawInstance → Service → Service
  unfolding service_ports
  mutate_service i svc = record svc {
    labels = instance_labels i;
    selector = ("app", "openclaw") ∷ [];
    ports = service_ports;
  }

  unfoldable pub mutate_network_policy : ClawInstance → NetworkPolicy → NetworkPolicy
  mutate_network_policy i np = record np {
    labels = instance_labels i;
    pod_selector = [];
    policy_types = "Ingress" ∷ [];
    ingress =
        ((record {
          namespace_selector = ("kubernetes.io/metadata.name", r.server_namespace) ∷ [];
          pod_selector =
              ("app.kubernetes.io/name", "clawbake")
              ∷ ("app.kubernetes.io/component", "server")
              ∷ [];
        })
          ∷ [])
        ∷ [];
  }

-- ===== src/Examples/Reconciling.antt =====
-- Runs of the reconciler.
use clawbake.Base.{codes, text_eq, insert, inl, [], ◌∷◌, ◌≡◌, refl, some, none, true, All}
use clawbake.Api.{ClawInstance}
use clawbake.Kube.{
  Namespace, PersistentVolumeClaim, ResourceRequirements, Deployment, Service, NetworkPolicy,
}
use clawbake.Effects.{run}
use clawbake.Effects.Paths.{Every}
use clawbake.Operator.{namespace_name}
use clawbake.Operator.Objects.{
  mutate_namespace, mutate_pvc, mutate_deployment, mutate_service, mutate_network_policy,
  build_resource_requirements, build_list, add_quantity, deployment_of,
}
use clawbake.Operator.Reconcile.{
  done, requeue_after, reconcile, reconcile_live, ensure_finalizer, advance_phase,
  reconcile_resources, checked, check_ready, finish_running, notify_if,
}
use clawbake.Operator.Outcomes.{Accounted, reconcile-Accounted}
use clawbake.Operator.Safety.{
  SecuredWrite, Detached, Announced, running_is_secured, finalizer_guards_namespace,
  notified_when_newly_running,
}
use clawbake.Operator.Idempotent.{callbacks_idempotent}
use clawbake.Operator.Wiring.{
  Mounted, Selects, Reaches, mutate_deployment-Mounted, service_fits_deployment,
}
use clawbake.Operator.Cluster.{Cluster}
use clawbake.Operator.Cluster.Steps.{AllApplied}
use clawbake.Operator.Cluster.Settling.{Settles, next}
use clawbake.Operator.Cluster.Ends.{reconcile_converges, reconcile_deletes}
use clawbake.Jsonutil.Json.{Fields, object, string, find, parse}
use clawbake.Operator.Notifier.{notification_of}
use clawbake.Operator.Notifier.Reading.{notification_reads_back}
use clawbake.Examples.World.{
  answer_in, reconciler, operator_libraries, instance_in, empty_deployment, world_in,
}

-- A ready instance that is being created ends up running.
comes_up :
    (run (world_in "Creating") (reconcile reconciler operator_libraries "clawbake" "alice") []).0
    ≡ done
unfolding reconcile reconcile_live ensure_finalizer advance_phase reconcile_resources checked
    check_ready finish_running notify_if
comes_up = refl

reconcile-Accounted_example :
    Accounted operator_libraries "clawbake" "alice"
      (run (world_in "Creating") (reconcile reconciler operator_libraries "clawbake" "alice") []).0
      (run (world_in "Creating") (reconcile reconciler operator_libraries "clawbake" "alice") []).1
reconcile-Accounted_example =
    reconcile-Accounted operator_libraries "clawbake" "alice" reconciler (world_in "Creating")

running_is_secured_example :
    Every
      (SecuredWrite reconciler operator_libraries)
      (run (world_in "Creating") (reconcile reconciler operator_libraries "clawbake" "alice") []).1
running_is_secured_example =
    running_is_secured reconciler operator_libraries "clawbake" "alice" (world_in "Creating")

finalizer_guards_namespace_example :
    Every
      (Detached reconciler operator_libraries)
      (run (world_in "Creating") (reconcile reconciler operator_libraries "clawbake" "alice") []).1
finalizer_guards_namespace_example =
    finalizer_guards_namespace reconciler operator_libraries (λ fs. refl) "clawbake" "alice"
      (world_in "Creating")

notified_when_newly_running_example :
    Every
      (Announced reconciler operator_libraries)
      (run (world_in "Creating") (reconcile reconciler operator_libraries "clawbake" "alice") []).1
notified_when_newly_running_example =
    notified_when_newly_running reconciler operator_libraries "clawbake" "alice"
      (world_in "Creating")

abbrev empty_claim : PersistentVolumeClaim
empty_claim = record {
  created = true;
  labels = [];
  access_modes = [];
  storage_request = none;
  storage_class_name = none;
}

abbrev empty_namespace : Namespace
empty_namespace = record { name = "clawbake-alice"; labels = [] }

abbrev empty_service : Service
empty_service = record { labels = []; selector = []; ports = [] }

abbrev empty_policy : NetworkPolicy
empty_policy = record { labels = []; pod_selector = []; policy_types = []; ingress = [] }

abbrev the_instance : ClawInstance
the_instance = instance_in "Running"

claim_built : mutate_pvc operator_libraries the_instance empty_claim ≡ some empty_claim
unfolding mutate_pvc
claim_built = refl

abbrev the_resources : ResourceRequirements
the_resources = record {
  requests = some (("cpu", "1") ∷ ("memory", "1Gi") ∷ []);
  limits = some (("cpu", "2") ∷ ("memory", "2Gi") ∷ []);
}

abbrev the_deployment : Deployment
the_deployment = deployment_of reconciler the_instance the_resources empty_deployment

deployment_built :
    mutate_deployment reconciler operator_libraries the_instance empty_deployment
    ≡ some the_deployment
unfolding mutate_deployment build_resource_requirements build_list add_quantity insert
deployment_built = refl

callbacks_idempotent_example :
    (mutate_namespace the_instance (mutate_namespace the_instance empty_namespace)
      ≡ mutate_namespace the_instance empty_namespace)
    × (mutate_pvc operator_libraries the_instance empty_claim ≡ some empty_claim)
    × (mutate_deployment reconciler operator_libraries the_instance the_deployment
        ≡ some the_deployment)
    × (mutate_service reconciler the_instance (mutate_service reconciler the_instance empty_service)
        ≡ mutate_service reconciler the_instance empty_service)
    × (mutate_network_policy reconciler the_instance
          (mutate_network_policy reconciler the_instance empty_policy)
        ≡ mutate_network_policy reconciler the_instance empty_policy)
callbacks_idempotent_example =
    callbacks_idempotent the_instance reconciler operator_libraries empty_namespace empty_claim
      empty_claim empty_deployment the_deployment empty_service empty_policy claim_built
      deployment_built

mutate_deployment-Mounted_example :
    All (Mounted the_deployment.spec.pod_spec) the_deployment.spec.pod_spec.init_containers
    × All (Mounted the_deployment.spec.pod_spec) the_deployment.spec.pod_spec.containers
mutate_deployment-Mounted_example =
    mutate_deployment-Mounted reconciler the_instance operator_libraries empty_deployment
      {d' = the_deployment} deployment_built

service_fits_deployment_example :
    Selects the_deployment.spec.selector the_deployment.spec.template_labels
    × Selects
        (mutate_service reconciler the_instance empty_service).selector
        the_deployment.spec.template_labels
    × All
        (λ c. All (Reaches c.ports) (mutate_service reconciler the_instance empty_service).ports)
        the_deployment.spec.pod_spec.containers
service_fits_deployment_example =
    service_fits_deployment reconciler the_instance operator_libraries empty_deployment
      {d' = the_deployment} empty_service deployment_built

-- A cluster where nothing is ready yet.
abbrev unready : Deployment
unready = record empty_deployment { ready_replicas = 0 }

abbrev fresh_cluster : Cluster
fresh_cluster = record {
  stored = some (instance_in "");
  namespaces = [];
  deployments = λ _ _. unready;
  notified = [];
}

all_applied : AllApplied (answer_in "")
all_applied = record {
  namespace = λ n f. refl;
  pvc = λ n name f. refl;
  deploys = λ n name f. refl;
  service = λ n name f. refl;
  policy = λ n name f. refl;
}

reconcile_converges_example :
    let first =
      next (answer_in "") reconciler operator_libraries "clawbake" "alice" fresh_cluster in
    let second =
      next
        (answer_in "")
        reconciler
        operator_libraries
        "clawbake"
        "alice"
        (record first.1 { deployments = λ _ _. empty_deployment }) in
    (first.0 ≡ inl (requeue_after 5))
    × Settles
        (answer_in "")
        reconciler
        operator_libraries
        (instance_in "")
        (("alice", "alice") ∷ [])
        (λ _ _. empty_deployment)
        second
    × Settles
        (answer_in "")
        reconciler
        operator_libraries
        (instance_in "")
        (("alice", "alice") ∷ [])
        (λ _ _. empty_deployment)
        (next (answer_in "") reconciler operator_libraries "clawbake" "alice" second.1)
reconcile_converges_example =
    reconcile_converges (answer_in "") reconciler operator_libraries "clawbake" "alice"
      fresh_cluster (instance_in "") (λ _ _. empty_deployment) all_applied (λ fs. refl) refl
      (refl, refl) refl refl refl

abbrev deleted_instance : ClawInstance
deleted_instance = record (instance_in "Running") { deletion_timestamp = some 5 }

abbrev deleting_cluster : Cluster
deleting_cluster = record {
  stored = some deleted_instance;
  namespaces = "clawbake-alice" ∷ "clawbake" ∷ [];
  deployments = λ _ _. empty_deployment;
  notified = [];
}

reconcile_deletes_example :
    (next (answer_in "") reconciler operator_libraries "clawbake" "alice" deleting_cluster
      ≡ (inl done, record deleting_cluster { stored = none; namespaces = "clawbake" ∷ [] }))
    × (next
          (answer_in "")
          reconciler
          operator_libraries
          "clawbake"
          "alice"
          (record deleting_cluster { stored = none; namespaces = "clawbake" ∷ [] })
        ≡ (inl done, record deleting_cluster { stored = none; namespaces = "clawbake" ∷ [] }))
unfolding namespace_name
reconcile_deletes_example =
    reconcile_deletes (answer_in "") reconciler operator_libraries "clawbake" "alice"
      deleting_cluster deleted_instance 5 refl (refl, refl) refl refl refl

notification_reads_back_example :
    (fs : Fields) × (parse (notification_of (codes "http://clawbake") "alice" "alice").body
      ≡ some (object fs))
    × (find (codes "instanceName") fs ≡ some (string (codes "alice")))
    × (find (codes "userId") fs ≡ some (string (codes "alice")))
notification_reads_back_example = notification_reads_back (codes "http://clawbake") "alice" "alice"

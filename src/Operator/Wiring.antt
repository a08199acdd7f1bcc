-- ===== src/Operator/Wiring.antt =====
-- The deployment and the service of one instance, side by side.
use clawbake.Base.{
  String, List, true, some, ◌≡◌, subst, All, any, contains, lookup, map, string_eq, nat_eq, ◌==◌,
  arith, ◌&&◌,
}
use clawbake.Base.Options.{bind-eq-some}
use clawbake.Api.{ClawInstance}
use clawbake.Kube.{
  Labels, Volume, ContainerPort, ResourceRequirements, Container, PodSpec, Deployment, ServicePort,
  Service,
}
use clawbake.Operator.{Reconciler, Libraries}
use clawbake.Operator.Objects.{
  mutate_deployment, mutate_service, deployment_of, build_resource_requirements,
}

abbrev pub volume_names : List Volume → List String
volume_names vs = map (λ v. v.name) vs

-- Every mount of the container names a volume of the pod.
abbrev pub Mounted : PodSpec → Container → Type 0
Mounted p c = All (λ m. contains m.name (volume_names p.volumes) ≡ true) c.volume_mounts

-- A container port of the pod has the name that the service port targets, and its number.
abbrev pub Reaches : List ContainerPort → ServicePort → Type 0
Reaches ports s =
    any
      (λ (c : ContainerPort).
        (c.name == s.target_port) && (c.container_port == s.port) && (c.protocol == s.protocol))
      ports
    ≡ true

-- The selector of a service or a deployment matches the labels of the pods.
abbrev pub Selects : Labels → Labels → Type 0
Selects selector labels = All (λ s. lookup s.0 labels ≡ some s.1) selector

module _ (r : Reconciler) (i : ClawInstance) where
  deployment_of-Mounted :
      (res : ResourceRequirements) (d : Deployment)
      → let p = (deployment_of r i res d).spec.pod_spec in
        All (Mounted p) p.init_containers × All (Mounted p) p.containers
  unfolding deployment_of
  deployment_of-Mounted res d = ground arith

  deployment_of-Selects :
      (res : ResourceRequirements) (d : Deployment) (s : Service)
      → Selects
          (deployment_of r i res d).spec.selector
          (deployment_of r i res d).spec.template_labels
        × Selects (mutate_service r i s).selector (deployment_of r i res d).spec.template_labels
  unfolding deployment_of mutate_service lookup
  deployment_of-Selects res d s = ground arith

  deployment_of-Reaches :
      (res : ResourceRequirements) (d : Deployment) (s : Service)
      → All
          (λ c. All (Reaches c.ports) (mutate_service r i s).ports)
          (deployment_of r i res d).spec.pod_spec.containers
  unfolding deployment_of mutate_service
  deployment_of-Reaches res d s = ground arith

  -- Of every deployment that the callback builds, each mount of each container and init container
  -- names a volume of the pod.
  pub mutate_deployment-Mounted :
      (l : Libraries) (d : Deployment) {d' : Deployment}
      → mutate_deployment r l i d ≡ some d'
      → All (Mounted d'.spec.pod_spec) d'.spec.pod_spec.init_containers
        × All (Mounted d'.spec.pod_spec) d'.spec.pod_spec.containers
  unfolding mutate_deployment
  mutate_deployment-Mounted l d h =
      let (res, _, e) =
        bind-eq-some (build_resource_requirements l i.spec.resources)
          (λ res. deployment_of r i res d) h in
      subst
        (λ d'.
          All (Mounted d'.spec.pod_spec) d'.spec.pod_spec.init_containers
          × All (Mounted d'.spec.pod_spec) d'.spec.pod_spec.containers)
        e (deployment_of-Mounted res d)

  -- The service that the callback builds selects the pods of the deployment, whose own selector
  -- matches them too, and each port of the service has a container port of its target's name, with
  -- the same number and protocol.
  pub service_fits_deployment :
      (l : Libraries) (d : Deployment) {d' : Deployment} (s : Service)
      → mutate_deployment r l i d ≡ some d'
      → Selects d'.spec.selector d'.spec.template_labels
        × Selects (mutate_service r i s).selector d'.spec.template_labels
        × All (λ c. All (Reaches c.ports) (mutate_service r i s).ports) d'.spec.pod_spec.containers
  unfolding mutate_deployment
  service_fits_deployment l d s h =
      let (res, _, e) =
        bind-eq-some (build_resource_requirements l i.spec.resources)
          (λ res. deployment_of r i res d) h in
      let (own, selected) = deployment_of-Selects res d s in
      subst
        (λ d'.
          Selects d'.spec.selector d'.spec.template_labels
          × Selects (mutate_service r i s).selector d'.spec.template_labels
          × All (λ c. All (Reaches c.ports) (mutate_service r i s).ports)
              d'.spec.pod_spec.containers)
        e (own, selected, deployment_of-Reaches res d s)

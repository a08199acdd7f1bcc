-- ===== src/Operator/Cluster/Steps.antt =====
-- The steps of `Reconcile` in a cluster that stores what it is given.
use clawbake.Base.{
  String, Bool, true, false, not, inr, ◌≡◌, refl, ap, Option, none, some, if◌then◌else◌, string_eq,
  ◌==◌,
}
use clawbake.Api.{ClawInstance}
use clawbake.Kube.{Deployment, Namespace, PersistentVolumeClaim, Service, NetworkPolicy}
use clawbake.Effects.{
  Call, Response, Applied, applied, Prog, pure, apply_namespace, apply_pvc, apply_deployment,
  apply_service, apply_network_policy,
}
use clawbake.Operator.{Reconciler, Libraries, finalizer_name}
use clawbake.Operator.Objects.{
  mutate_namespace, mutate_pvc, mutate_deployment, mutate_service, mutate_network_policy,
}
use clawbake.Operator.Reconcile.{
  Outcome, set_phase, checked, ensure_finalizer, advance_phase, reconcile_resources,
}
use clawbake.Operator.Cluster.{Cluster, GoesOn, unless_deleted, added}

-- Every application of an object succeeds.
pub record AllApplied (others : (c : Call) → Response c) : Type 0 where
  pub namespace : (n : String) (f : Namespace → Namespace) → others (apply_namespace n f) ≡ applied
  pub pvc :
      (n name : String) (f : PersistentVolumeClaim → Option PersistentVolumeClaim)
      → others (apply_pvc n name f) ≡ applied
  pub deploys :
      (n name : String) (f : Deployment → Option Deployment)
      → others (apply_deployment n name f) ≡ applied
  pub service :
      (n name : String) (f : Service → Service) → others (apply_service n name f) ≡ applied
  pub policy :
      (n name : String) (f : NetworkPolicy → NetworkPolicy)
      → others (apply_network_policy n name f) ≡ applied

-- The cluster with another instance.
abbrev pub keeping : Cluster → ClawInstance → Cluster
keeping s i = record s { stored = some i }

abbrev pub advanced : String → String → ClawInstance → ClawInstance
advanced from to i = if i.status.phase == from then set_phase to i else i

abbrev pub with_namespace : String → Cluster → Cluster
with_namespace n s = record s { namespaces = added n s.namespaces }

abbrev pub ensured : Libraries → ClawInstance → ClawInstance
ensured l i =
    if not (l.contains_finalizer i.finalizers finalizer_name)
    then record i { finalizers = l.add_finalizer i.finalizers finalizer_name }
    else i

module _ (others : (c : Call) → Response c) (r : Reconciler) (l : Libraries) where
  choose-GoesOn :
      (b : Bool) (m : Prog Outcome ClawInstance) (s : Cluster) (i j : ClawInstance)
      → GoesOn others (keeping s i) m j (keeping s j)
      → GoesOn others
          (keeping s i)
          (if b then m else pure i)
          (if b then j else i)
          (keeping s (if b then j else i))
  choose-GoesOn true m s i j h = h
  choose-GoesOn false m s i j h = refl

  pub advance_phase-GoesOn :
      (from to : String) (s : Cluster) (i : ClawInstance)
      → GoesOn others
          (keeping s i)
          (advance_phase r l from to i)
          (advanced from to i)
          (keeping s (advanced from to i))
  unfolding advance_phase
  advance_phase-GoesOn from to s i =
      choose-GoesOn (i.status.phase == from) _ s i (set_phase to i) refl

  pub ensure_finalizer-GoesOn :
      (s : Cluster) (i : ClawInstance)
      → i.deletion_timestamp ≡ none
      → GoesOn others (keeping s i) (ensure_finalizer r l i) (ensured l i) (keeping s (ensured l i))
  unfolding ensure_finalizer
  ensure_finalizer-GoesOn s i live =
      let j : ClawInstance = record i {
        finalizers = l.add_finalizer i.finalizers finalizer_name;
      } in
      choose-GoesOn (not (l.contains_finalizer i.finalizers finalizer_name)) _ s i j
        (ap (λ d. (inr j, record s { stored = unless_deleted d j })) live)

  checked-pure :
      (i : ClawInstance) (reason : String) (a : Applied)
      → a ≡ applied
      → checked r l i reason a ≡ pure tt
  unfolding checked
  checked-pure i reason a h = ap (checked r l i reason) h

  pub reconcile_resources-GoesOn :
      AllApplied others
      → (s : Cluster) (i : ClawInstance) (ns : String)
      → GoesOn others s (reconcile_resources r l i ns) tt (with_namespace ns s)
  unfolding reconcile_resources
  reconcile_resources-GoesOn all s i ns =
      rw
        (
          checked-pure i "NamespaceFailed" _ (all.namespace ns (mutate_namespace i)),
          checked-pure i "PVCFailed" _ (all.pvc ns "openclaw-data" (mutate_pvc l i)),
          checked-pure i "DeploymentFailed" _ (all.deploys ns "openclaw" (mutate_deployment r l i)),
          checked-pure i "ServiceFailed" _ (all.service ns "openclaw" (mutate_service r i)),
          checked-pure i "NetworkPolicyFailed" _
              (all.policy ns "allow-clawbake-server-only" (mutate_network_policy r i)),
        )
        refl

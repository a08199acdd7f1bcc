-- ===== src/Operator/Idempotent.antt =====
-- The callbacks of `CreateOrUpdate`, applied to their own result.
use clawbake.Base.{some, ◌≡◌, refl, lookup, insert, lookup-insert, insert_present, string_eq, arith}
use clawbake.Api.{ClawInstance}
use clawbake.Kube.{Labels, Namespace, PersistentVolumeClaim, Deployment, Service, NetworkPolicy}
use clawbake.Operator.{Reconciler, Libraries}
use clawbake.Operator.Objects.{
  mutate_namespace, mutate_pvc, mutate_deployment, mutate_service, mutate_network_policy,
}

module _ (i : ClawInstance) where
  abbrev labelled : Labels → Labels
  labelled m = insert "clawbake.io/instance" i.name m

  has_instance :
      (m : Labels)
      → lookup "clawbake.io/instance" (insert "clawbake.io/user-id" i.spec.user_id (labelled m))
        ≡ some i.name
  has_instance m = simp lookup-insert

  has_user :
      (m : Labels)
      → lookup "clawbake.io/user-id" (insert "clawbake.io/user-id" i.spec.user_id (labelled m))
        ≡ some i.spec.user_id
  has_user m = simp lookup-insert

  mutate_namespace_twice :
      (ns : Namespace) → mutate_namespace i (mutate_namespace i ns) ≡ mutate_namespace i ns
  unfolding mutate_namespace
  mutate_namespace_twice ns = rw (
    insert_present "clawbake.io/instance" i.name _ (has_instance ns.labels),
    insert_present "clawbake.io/user-id" i.spec.user_id _ (has_user ns.labels),
  )

  mutate_pvc_twice :
      (l : Libraries) (p q : PersistentVolumeClaim)
      → mutate_pvc l i p ≡ some q
      → mutate_pvc l i q ≡ some q
  unfolding mutate_pvc
  mutate_pvc_twice l p q h = ground arith

  mutate_deployment_twice :
      (r : Reconciler) (l : Libraries) (d d' : Deployment)
      → mutate_deployment r l i d ≡ some d'
      → mutate_deployment r l i d' ≡ some d'
  unfolding mutate_deployment
  mutate_deployment_twice r l d d' h = ground arith

  -- Each of the five callbacks, applied to what it has built, builds the same object again.
  pub callbacks_idempotent :
      (r : Reconciler) (l : Libraries) (ns : Namespace) (p q : PersistentVolumeClaim)
      (d d' : Deployment) (s : Service) (np : NetworkPolicy)
      → mutate_pvc l i p ≡ some q
      → mutate_deployment r l i d ≡ some d'
      → (mutate_namespace i (mutate_namespace i ns) ≡ mutate_namespace i ns)
        × (mutate_pvc l i q ≡ some q)
        × (mutate_deployment r l i d' ≡ some d')
        × (mutate_service r i (mutate_service r i s) ≡ mutate_service r i s)
        × (mutate_network_policy r i (mutate_network_policy r i np) ≡ mutate_network_policy r i np)
  unfolding mutate_service mutate_network_policy
  callbacks_idempotent r l ns p q d d' s np hp hd = (
    mutate_namespace_twice ns,
    mutate_pvc_twice l p q hp,
    mutate_deployment_twice r l d d' hd,
    refl,
    refl,
  )

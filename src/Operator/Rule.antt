-- ===== src/Operator/Rule.antt =====
-- A rule for `Reconcile`: what has to be shown of each call, from what happened before it, for all
-- calls of all runs to be justified.
pub mod Runs
use clawbake.Base.{
  ◌≤◌, String, Bool, true, false, [], ◌∷◌, Option, none, some, ◌≡◌, ◌≢◌, ◌⊎◌, refl, inl, inr, leb,
  arith, ◌==◌, ne_of_test, string_eq, not, ◌&&◌, Bool-cases, if◌then◌else◌,
}
use clawbake.Api.{
  Error, Result, ok, err, is_not_found, ClawInstance, phase_pending, phase_creating, phase_starting,
  phase_running, phase_failed, phase_terminating,
}
use clawbake.Kube.{Namespace, Deployment}
use clawbake.Effects.{
  Call, Response, Event, Applied, applied, failed, panicked, get_instance, update_instance,
  update_status, get_namespace, delete_namespace, get_deployment, apply_namespace, apply_pvc,
  apply_deployment, apply_service, apply_network_policy, record_event, notify_ready, Trace, Prog,
  pure, return, ◌>>=◌,
}
use clawbake.Effects.Paths.{event, event-path, AllPaths, AllPaths-bind, AllPaths-if, Occurs, Every}
use clawbake.Operator.{Reconciler, Libraries, finalizer_name, namespace_name}
use clawbake.Operator.Objects.{
  mutate_namespace, mutate_pvc, mutate_deployment, mutate_service, mutate_network_policy,
}
use clawbake.Operator.Reconcile.{
  Outcome, done, error, must, set_phase, deleting, set_failed, checked, delete_user_namespace,
  reconcile_deletion, ensure_finalizer, advance_phase, reconcile_resources, finish_running,
  finish_starting, check_ready, reconcile_live, reconcile,
}

-- The instance that an answer of the API server holds.
abbrev seen : (c : Call) → Response c → Option ClawInstance
seen (get_instance _ _) (ok i) = some i
seen (update_instance _) (ok i) = some i
seen (update_status _) (ok i) = some i
seen _ _ = none

abbrev newest : Option ClawInstance → Option ClawInstance → Option ClawInstance
newest (some i) o = some i
newest none o = o

-- The instance as the API server last returned it.
abbrev pub last_seen : Trace → Option ClawInstance
last_seen [] = none
last_seen (e ∷ t) = newest (seen e.call e.response) (last_seen t)

-- The namespace of the instance was not there, or its deletion was accepted.
abbrev pub NamespaceGone : String → Trace → Type 0
NamespaceGone name t =
    ((e : Error) × (is_not_found e ≡ true) × Occurs (get_namespace (namespace_name name)) (err e) t)
    ⊎ ((ns : Namespace) × Occurs (get_namespace (namespace_name name)) (ok ns) t
        × Occurs (delete_namespace ns) (ok tt) t)

module _ (r : Reconciler) (l : Libraries) where
  -- All five objects of instance `i` have been applied with success.
  pub record ResourcesApplied (i : ClawInstance) (t : Trace) : Type 0 where
    pub namespace : Occurs (apply_namespace (namespace_name i.name) (mutate_namespace i)) applied t
    pub pvc : Occurs (apply_pvc (namespace_name i.name) "openclaw-data" (mutate_pvc l i)) applied t
    pub deployment :
        Occurs
          (apply_deployment (namespace_name i.name) "openclaw" (mutate_deployment r l i))
          applied
          t
    pub service :
        Occurs (apply_service (namespace_name i.name) "openclaw" (mutate_service r i)) applied t
    pub network_policy :
        Occurs
          (apply_network_policy
            (namespace_name i.name)
            "allow-clawbake-server-only"
            (mutate_network_policy r i))
          applied
          t

  pub later :
      {i : ClawInstance} {e : Event} {t : Trace} → ResourcesApplied i t → ResourcesApplied i (e ∷ t)
  later a = record {
    namespace = inr a.namespace;
    pvc = inr a.pvc;
    deployment = inr a.deployment;
    service = inr a.service;
    network_policy = inr a.network_policy;
  }

  -- The objects are applied, and the deployment was seen with a ready replica.
  abbrev pub Secured : Trace → Type 0
  Secured t =
      (i : ClawInstance) × ResourcesApplied i t
      × ((d : Deployment) × Occurs (get_deployment (namespace_name i.name) "openclaw") (ok d) t
          × (1 ≤ d.ready_replicas))

  -- A notification comes after the write of Running and its event, and the instance was not
  -- Running before that write.
  pub record NewlyRunning (name user : String) (t : Trace) : Type 0 where
    pub before : ClawInstance
    pub written : ClawInstance
    pub stored : ClawInstance
    pub rest : Trace
    pub shape :
        t
        ≡ event
            (record_event stored "Normal" "Reconciled" "All resources reconciled successfully")
            tt
          ∷ event (update_status written) (ok stored)
          ∷ rest
    pub running : written.status.phase ≡ phase_running
    pub seen_before : last_seen rest ≡ some before
    pub not_before : before.status.phase ≢ phase_running
    pub name_stored : stored.name ≡ name
    pub user_stored : stored.spec.user_id ≡ user

  pub record Rules (J : Call → Trace → Type 0) : Type 0 where
    pub read : (namespace name : String) (t : Trace) → J (get_instance namespace name) t
    pub terminating :
        (i : ClawInstance) (t : Trace)
        → deleting i ≡ true
        → J (update_status (set_phase phase_terminating i)) t
    pub find_namespace : (name : String) (t : Trace) → J (get_namespace name) t
    pub drop_namespace : (ns : Namespace) (t : Trace) → J (delete_namespace ns) t
    pub unfinalize :
        (i : ClawInstance) (t : Trace)
        → NamespaceGone i.name t
        → J
            (update_instance
              (record i { finalizers = l.remove_finalizer i.finalizers finalizer_name }))
            t
    pub finalize :
        (i : ClawInstance) (t : Trace)
        → J
            (update_instance
              (record i { finalizers = l.add_finalizer i.finalizers finalizer_name }))
            t
    pub pending : (i : ClawInstance) (t : Trace) → J (update_status (set_phase phase_pending i)) t
    pub creating : (i : ClawInstance) (t : Trace) → J (update_status (set_phase phase_creating i)) t
    pub applying_namespace :
        (i : ClawInstance) (t : Trace)
        → J (apply_namespace (namespace_name i.name) (mutate_namespace i)) t
    pub applying_pvc :
        (i : ClawInstance) (t : Trace)
        → J (apply_pvc (namespace_name i.name) "openclaw-data" (mutate_pvc l i)) t
    pub applying_deployment :
        (i : ClawInstance) (t : Trace)
        → J (apply_deployment (namespace_name i.name) "openclaw" (mutate_deployment r l i)) t
    pub applying_service :
        (i : ClawInstance) (t : Trace)
        → J (apply_service (namespace_name i.name) "openclaw" (mutate_service r i)) t
    pub applying_network_policy :
        (i : ClawInstance) (t : Trace)
        → J
            (apply_network_policy
              (namespace_name i.name)
              "allow-clawbake-server-only"
              (mutate_network_policy r i))
            t
    pub failing :
        (j : ClawInstance) (t : Trace) → j.status.phase ≡ phase_failed → J (update_status j) t
    pub recording :
        (i : ClawInstance) (type reason message : String) (t : Trace)
        → J (record_event i type reason message) t
    pub checking : (ns : String) (t : Trace) → J (get_deployment ns "openclaw") t
    pub running :
        (j : ClawInstance) (t : Trace)
        → j.status.phase ≡ phase_running
        → Secured t
        → J (update_status j) t
    pub starting :
        (j : ClawInstance) (t : Trace) → j.status.phase ≡ phase_starting → J (update_status j) t
    pub notifying :
        (name user : String) (t : Trace) → NewlyRunning name user t → J (notify_ready name user) t

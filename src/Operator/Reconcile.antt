-- ===== src/Operator/Reconcile.antt =====
-- `Reconcile`, `setFailed` and `deleteUserNamespace` of internal/operator/controller.go.
use clawbake.Base.{
  ℕ, String, Bool, true, false, ◌&&◌, not, none, some, leb, string_eq, ◌==◌, if◌then◌else◌,
}
use clawbake.Api.{
  Error, Result, ok, err, is_not_found, ClawInstance, phase_pending, phase_creating, phase_starting,
  phase_running, phase_failed, phase_terminating,
}
use clawbake.Effects.{
  Applied, applied, failed, panicked, get_instance, update_instance, update_status, get_namespace,
  delete_namespace, get_deployment, apply_namespace, apply_pvc, apply_deployment, apply_service,
  apply_network_policy, record_event, notify_ready, Prog, pure, return, ◌>>=◌, ◌>>◌, call, block,
}
use clawbake.Operator.{Reconciler, Libraries, finalizer_name, namespace_name}
use clawbake.Operator.Objects.{
  mutate_namespace, mutate_pvc, mutate_deployment, mutate_service, mutate_network_policy,
}

-- The result and the error that `Reconcile` returns, or a panic of a callback.
pub data Outcome : Type 0 where
  done : Outcome
  requeue_after : ℕ → Outcome
  error : Error → Outcome
  panic : Outcome

-- `if err != nil { return ctrl.Result{}, err }`; the call has filled in the object.
abbrev pub must : {A : Type 0} → Result A → Prog Outcome A
must (ok a) = pure a
must (err e) = return (error e)

abbrev pub found : Result ClawInstance → Prog Outcome ClawInstance
found (ok i) = pure i
found (err e) = return (if is_not_found e then done else error e)

abbrev pub set_phase : String → ClawInstance → ClawInstance
set_phase phase i = record i { status = record i.status { phase = phase } }

abbrev pub deleting : ClawInstance → Bool
deleting i = elim i.deletion_timestamp [ none ↦ false | some t ↦ true ]

-- `deleteUserNamespace`
unfoldable pub delete_user_namespace : ClawInstance → Prog (Result Unit) (Result Unit)
unfolding namespace_name
delete_user_namespace i = do
  got ← call (get_namespace (namespace_name i.name))
  elim got [
    | ok ns ↦ call (delete_namespace ns)
    | err e ↦ return (if is_not_found e then ok tt else err e)
  ]

module _ (r : Reconciler) (l : Libraries) where
  unfoldable pub ready_condition : Bool → String → String → ClawInstance → ClawInstance
  ready_condition status reason message i = record i {
    status = record i.status {
      conditions = l.set_status_condition i.status.conditions (record {
        type = "Ready";
        status = status;
        reason = reason;
        message = message;
        observed_generation = i.generation;
      });
    };
  }

  -- `setFailed`
  unfoldable pub set_failed : {A : Type 0} → ClawInstance → String → Error → Prog Outcome A
  unfolding ready_condition
  set_failed i reason e = do
    answer ←
        call (update_status (ready_condition false reason e.message (set_phase phase_failed i)))
    i' ← must answer
    call (record_event i' "Warning" reason e.message)
    return (error e)

  -- `if err := r.reconcileX(…); err != nil { return r.setFailed(…) }`
  unfoldable pub checked : ClawInstance → String → Applied → Prog Outcome Unit
  unfolding set_failed
  checked i reason applied = pure tt
  checked i reason (failed e) = set_failed i reason e
  checked i reason panicked = return panic

  unfoldable pub reconcile_deletion : ClawInstance → Prog Outcome Outcome
  unfolding delete_user_namespace
  reconcile_deletion i =
      let finalize : Prog Outcome Outcome = (do
        answer ← call (update_status (set_phase phase_terminating i))
        i₁ ← must answer
        gone ← block (delete_user_namespace i₁)
        must gone
        saved ← call (
            update_instance
              (record i₁ { finalizers = l.remove_finalizer i₁.finalizers finalizer_name }))
        must saved
        return done) in
      if l.contains_finalizer i.finalizers finalizer_name then finalize else return done

  unfoldable pub ensure_finalizer : ClawInstance → Prog Outcome ClawInstance
  ensure_finalizer i =
      let add : Prog Outcome ClawInstance = (do
        answer ← call (
            update_instance (record i { finalizers = l.add_finalizer i.finalizers finalizer_name }))
        must answer) in
      if not (l.contains_finalizer i.finalizers finalizer_name) then add else pure i

  -- `if instance.Status.Phase == from { instance.Status.Phase = to; … }`
  unfoldable pub advance_phase : String → String → ClawInstance → Prog Outcome ClawInstance
  advance_phase from to i =
      let write : Prog Outcome ClawInstance = (do
        answer ← call (update_status (set_phase to i))
        must answer) in
      if i.status.phase == from then write else pure i

  -- The five calls of `CreateOrUpdate`, in order.
  unfoldable pub reconcile_resources : ClawInstance → String → Prog Outcome Unit
  unfolding checked
  reconcile_resources i ns = do
    a ← call (apply_namespace ns (mutate_namespace i))
    checked i "NamespaceFailed" a
    b ← call (apply_pvc ns "openclaw-data" (mutate_pvc l i))
    checked i "PVCFailed" b
    c ← call (apply_deployment ns "openclaw" (mutate_deployment r l i))
    checked i "DeploymentFailed" c
    d ← call (apply_service ns "openclaw" (mutate_service r i))
    checked i "ServiceFailed" d
    e ← call (apply_network_policy ns "allow-clawbake-server-only" (mutate_network_policy r i))
    checked i "NetworkPolicyFailed" e
    pure tt

  unfoldable pub notify_if : Bool → ClawInstance → Prog Outcome Outcome
  notify_if true i = do call (notify_ready i.name i.spec.user_id); return done
  notify_if false i = return done

  unfoldable pub finish_running : ClawInstance → Prog Outcome Outcome
  unfolding ready_condition notify_if
  finish_running i = do
    let was_running = i.status.phase == phase_running
    answer ← call (
        update_status (
          ready_condition true "ReconcileComplete" "All resources reconciled successfully"
            (set_phase phase_running i)))
    i' ← must answer
    call (record_event i' "Normal" "Reconciled" "All resources reconciled successfully")
    notify_if (not was_running && r.has_notifier) i'

  unfoldable pub finish_starting : ClawInstance → Prog Outcome Outcome
  unfolding ready_condition
  finish_starting i = do
    answer ← call (
        update_status (
          ready_condition false "WaitingForReady" "Waiting for deployment to become ready"
            (set_phase phase_starting i)))
    must answer
    return (requeue_after 5)

  -- From the check of the deployment on.
  unfoldable pub check_ready : ClawInstance → String → Prog Outcome Outcome
  unfolding finish_running finish_starting
  check_ready i ns = do
    got ← call (get_deployment ns "openclaw")
    deploy ← must got
    let i' = record i { status = record i.status { namespace = ns } }
    if leb 1 deploy.ready_replicas then finish_running i' else finish_starting i'

  unfoldable pub reconcile_live : ClawInstance → Prog Outcome Outcome
  unfolding ensure_finalizer advance_phase reconcile_resources check_ready namespace_name
  reconcile_live i = do
    i₁ ← ensure_finalizer i
    i₂ ← advance_phase "" phase_pending i₁
    i₃ ← advance_phase phase_pending phase_creating i₂
    let ns = namespace_name i₃.name
    reconcile_resources i₃ ns
    check_ready i₃ ns

  unfoldable pub reconcile : String → String → Prog Outcome Outcome
  unfolding reconcile_deletion reconcile_live
  reconcile namespace name = do
    got ← call (get_instance namespace name)
    i ← found got
    if deleting i then reconcile_deletion i else reconcile_live i

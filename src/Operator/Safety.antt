-- ===== src/Operator/Safety.antt =====
-- What every run of `Reconcile` keeps, whatever the API server answers: applications of the rule.
use clawbake.Base.{
  String, List, true, [], ◌≡◌, ◌≢◌, ◌⊎◌, refl, inl, inr, sym, ◌∙◌, ne_of_test, string_eq,
}
use clawbake.Api.{phase_running}
use clawbake.Effects.{Call, update_instance, update_status, notify_ready, Trace, Oracle, run}
use clawbake.Effects.Paths.{Every}
use clawbake.Operator.{Reconciler, Libraries, finalizer_name}
use clawbake.Operator.Reconcile.{reconcile}
use clawbake.Operator.Rule.{NamespaceGone, Secured, NewlyRunning}
use clawbake.Operator.Rule.Runs.{reconcile-Every}

module _ (r : Reconciler) (l : Libraries) where
  abbrev pub SecuredWrite : Call → Trace → Type 0
  SecuredWrite (update_status j) t = (j.status.phase ≢ phase_running) ⊎ Secured r l t
  SecuredWrite _ t = Unit

  abbrev pub Detached : Call → Trace → Type 0
  Detached (update_instance j) t =
      (l.contains_finalizer j.finalizers finalizer_name ≡ true) ⊎ NamespaceGone j.name t
  Detached _ t = Unit

  abbrev pub Announced : Call → Trace → Type 0
  Announced (notify_ready name user) t = NewlyRunning r l name user t
  Announced _ t = Unit

  -- In every run of `Reconcile`, whatever the answers, each write of the phase Running comes after
  -- the namespace, the volume claim, the deployment, the service and the network policy of the
  -- instance have been applied with success, and after a read of the deployment that showed at
  -- least one ready replica.
  pub running_is_secured :
      (namespace name : String) (o : Oracle)
      → Every SecuredWrite (run o (reconcile r l namespace name) []).1
  running_is_secured = reconcile-Every r l SecuredWrite (record {
    read = λ _ _ _. tt;
    terminating = λ _ _ _. inl (ne_of_test "Terminating" "Running" refl);
    find_namespace = λ _ _. tt;
    drop_namespace = λ _ _. tt;
    unfinalize = λ _ _ _. tt;
    finalize = λ _ _. tt;
    pending = λ _ _. inl (ne_of_test "Pending" "Running" refl);
    creating = λ _ _. inl (ne_of_test "Creating" "Running" refl);
    applying_namespace = λ _ _. tt;
    applying_pvc = λ _ _. tt;
    applying_deployment = λ _ _. tt;
    applying_service = λ _ _. tt;
    applying_network_policy = λ _ _. tt;
    failing = λ j t e. inl (λ p. ne_of_test "Failed" "Running" refl (sym e ∙ p));
    recording = λ _ _ _ _ _. tt;
    checking = λ _ _. tt;
    running = λ _ _ _ s. inr s;
    starting = λ j t e. inl (λ p. ne_of_test "Starting" "Running" refl (sym e ∙ p));
    notifying = λ _ _ _ _. tt;
  })

  -- Where AddFinalizer adds what ContainsFinalizer finds: in every run of `Reconcile`, each update
  -- of an instance either leaves the finalizer on it, or comes after the namespace of the instance
  -- was not found or its deletion was accepted.
  pub finalizer_guards_namespace :
      ((fs : List String)
        → l.contains_finalizer (l.add_finalizer fs finalizer_name) finalizer_name ≡ true)
      → (namespace name : String) (o : Oracle)
      → Every Detached (run o (reconcile r l namespace name) []).1
  finalizer_guards_namespace contains-add = reconcile-Every r l Detached (record {
    read = λ _ _ _. tt;
    terminating = λ _ _ _. tt;
    find_namespace = λ _ _. tt;
    drop_namespace = λ _ _. tt;
    unfinalize = λ _ _ gone. inr gone;
    finalize = λ i _. inl (contains-add i.finalizers);
    pending = λ _ _. tt;
    creating = λ _ _. tt;
    applying_namespace = λ _ _. tt;
    applying_pvc = λ _ _. tt;
    applying_deployment = λ _ _. tt;
    applying_service = λ _ _. tt;
    applying_network_policy = λ _ _. tt;
    failing = λ _ _ _. tt;
    recording = λ _ _ _ _ _. tt;
    checking = λ _ _. tt;
    running = λ _ _ _ _. tt;
    starting = λ _ _ _. tt;
    notifying = λ _ _ _ _. tt;
  })

  -- In every run of `Reconcile`, a notification comes directly after the event of a successful
  -- write of the phase Running, names the instance and the user that this write returned, and is
  -- sent only if the instance last returned before the write was not Running.
  pub notified_when_newly_running :
      (namespace name : String) (o : Oracle)
      → Every Announced (run o (reconcile r l namespace name) []).1
  notified_when_newly_running = reconcile-Every r l Announced (record {
    read = λ _ _ _. tt;
    terminating = λ _ _ _. tt;
    find_namespace = λ _ _. tt;
    drop_namespace = λ _ _. tt;
    unfinalize = λ _ _ _. tt;
    finalize = λ _ _. tt;
    pending = λ _ _. tt;
    creating = λ _ _. tt;
    applying_namespace = λ _ _. tt;
    applying_pvc = λ _ _. tt;
    applying_deployment = λ _ _. tt;
    applying_service = λ _ _. tt;
    applying_network_policy = λ _ _. tt;
    failing = λ _ _ _. tt;
    recording = λ _ _ _ _ _. tt;
    checking = λ _ _. tt;
    running = λ _ _ _ _. tt;
    starting = λ _ _ _. tt;
    notifying = λ _ _ _ n. n;
  })

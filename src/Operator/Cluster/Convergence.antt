-- ===== src/Operator/Cluster/Convergence.antt =====
-- Where `Reconcile` leads in a cluster that stores what it is given and accepts every object.
use clawbake.Base.{
  ℕ, String, List, ◌∷◌, Bool, true, false, not, ◌&&◌, inl, ◌≡◌, refl, ap, ◌∙◌, Option, none, some,
  if_elim, if◌then◌else◌, string_eq, ◌==◌, ==_refl, leb,
}
use clawbake.Api.{
  Result, ok, err, ClawInstance, phase_pending, phase_creating, phase_running, phase_starting,
}
use clawbake.Kube.{Deployment}
use clawbake.Effects.{Call, Response, ◌>>=◌}
use clawbake.Operator.{Reconciler, Libraries, namespace_name}
use clawbake.Operator.Reconcile.{
  done, requeue_after, found, deleting, set_phase, ready_condition, notify_if, finish_running,
  finish_starting, check_ready, ensure_finalizer, advance_phase, reconcile_resources,
  reconcile_live, reconcile_deletion, reconcile,
}
use clawbake.Operator.Cluster.{Cluster, absent, stored_at, run_in, run_in-bind}
use clawbake.Operator.Cluster.Steps.{
  AllApplied, keeping, ensured, advanced, with_namespace, advance_phase-GoesOn,
  ensure_finalizer-GoesOn, reconcile_resources-GoesOn,
}
use clawbake.Operator.Cluster.Prepared.{prepared, Same-prepared, not_both}

-- The deployment of the instance has a ready replica.
abbrev pub ready_in : (String → String → Deployment) → ClawInstance → Bool
ready_in deployments i = leb 1 (deployments (namespace_name i.name) "openclaw").ready_replicas

abbrev pub Keyed : String → String → ClawInstance → Type 0
Keyed namespace name i = (i.namespace ≡ namespace) × (i.name ≡ name)

stored_at-key :
    (namespace name : String) (i : ClawInstance)
    → Keyed namespace name i
    → stored_at namespace name (some i) ≡ ok i
stored_at-key namespace name i (in_namespace, named_so) =
    ap (λ b. if b && i.name == name then ok i else err absent)
      (ap (λ x. x == namespace) in_namespace ∙ ==_refl namespace)
    ∙ ap (λ b. if b then ok i else err absent) (ap (λ x. x == name) named_so ∙ ==_refl name)

-- A run goes on with the instance that is stored under the names.
pub reconcile-found :
    (others : (c : Call) → Response c) (r : Reconciler) (l : Libraries) (namespace name : String)
    (s : Cluster) (i : ClawInstance)
    → s.stored ≡ some i
    → Keyed namespace name i
    → run_in others s (reconcile r l namespace name)
      ≡ run_in others s (if deleting i then reconcile_deletion r l i else reconcile_live r l i)
unfolding reconcile
reconcile-found others r l namespace name s i stored key =
    ap
      (λ (x : Result ClawInstance).
        run_in others s
          (found x >>= λ j. if deleting j then reconcile_deletion r l j else reconcile_live r l j))
      (ap (stored_at namespace name) stored ∙ stored_at-key namespace name i key)

module _ (others : (c : Call) → Response c) (r : Reconciler) (l : Libraries) where
  live-runs :
      (s : Cluster) (i : ClawInstance)
      → AllApplied others
      → i.deletion_timestamp ≡ none
      → run_in others (keeping s i) (reconcile_live r l i)
        ≡ run_in others
            (with_namespace (namespace_name (prepared l i).name) (keeping s (prepared l i)))
            (check_ready r l (prepared l i) (namespace_name (prepared l i).name))
  unfolding reconcile_live
  live-runs s i all live =
      run_in-bind others (ensure_finalizer r l i) _ (keeping s i) _ (ensured l i)
        (ensure_finalizer-GoesOn others r l s i live)
      ∙ run_in-bind others (advance_phase r l "" phase_pending (ensured l i)) _ _ _ _
          (advance_phase-GoesOn others r l "" phase_pending s (ensured l i))
      ∙ run_in-bind others
          (advance_phase r l phase_pending phase_creating (advanced "" phase_pending (ensured l i)))
          _ _ _ _
          (advance_phase-GoesOn others r l phase_pending phase_creating s
            (advanced "" phase_pending (ensured l i)))
      ∙ run_in-bind others
          (reconcile_resources r l (prepared l i) (namespace_name (prepared l i).name)) _
          (keeping s (prepared l i))
          (with_namespace (namespace_name (prepared l i).name) (keeping s (prepared l i))) tt
          (reconcile_resources-GoesOn others r l all (keeping s (prepared l i)) (prepared l i)
            (namespace_name (prepared l i).name))

  -- The instance as it is left running, and as it is left waiting.
  abbrev pub left_in : Bool → String → String → String → ClawInstance → ClawInstance
  left_in ready reason message phase i = ready_condition r l ready reason message (
      set_phase phase (record (prepared l i) {
        status = record (prepared l i).status { namespace = namespace_name (prepared l i).name };
      }))

  notify_if-runs :
      (b : Bool) (s : Cluster) (i : ClawInstance)
      → run_in others s (notify_if r l b i) ≡ (
        inl done,
        record s { notified = if b then (i.name, i.spec.user_id) ∷ s.notified else s.notified },
      )
  unfolding notify_if
  notify_if-runs true s i = refl
  notify_if-runs false s i = refl

  reconcile-live :
      (namespace name : String) (s : Cluster) (i : ClawInstance)
      → i.deletion_timestamp ≡ none
      → Keyed namespace name i
      → run_in others (keeping s i) (reconcile r l namespace name)
        ≡ run_in others (keeping s i) (reconcile_live r l i)
  reconcile-live namespace name s i live key =
      reconcile-found others r l namespace name (keeping s i) i refl key
      ∙ ap
          (λ (d : Option ℕ). run_in others (keeping s i) (
            if (elim d as (λ _. Bool) [ none ↦ false | some t ↦ true ])
            then reconcile_deletion r l i
            else reconcile_live r l i))
          live

  -- The instance with the namespace that its status is to name.
  abbrev named : ClawInstance → ClawInstance
  named i = record (prepared l i) {
    status = record (prepared l i).status { namespace = namespace_name (prepared l i).name };
  }

  -- The cluster with the instance as it is left, and with the notification if there is one.
  abbrev pub left_running : Cluster → ClawInstance → Cluster
  left_running s i = with_namespace (namespace_name (prepared l i).name) (
      keeping s
        (left_in true "ReconcileComplete" "All resources reconciled successfully" phase_running i))

  abbrev pub notified_after :
      Bool → String → String → List (String × String) → List (String × String)
  notified_after b name user before = if b then (name, user) ∷ before else before

  abbrev pub notifying : Bool → ClawInstance → Cluster → Cluster
  notifying b i s = record s { notified = notified_after b i.name i.spec.user_id s.notified }

  abbrev pub left_waiting : Cluster → ClawInstance → Cluster
  left_waiting s i = with_namespace (namespace_name (prepared l i).name) (
      keeping s
        (left_in false "WaitingForReady" "Waiting for deployment to become ready" phase_starting i))

  ready-runs :
      (s : Cluster) (i : ClawInstance)
      → ready_in s.deployments (prepared l i) ≡ true
      → run_in others
          (with_namespace (namespace_name (prepared l i).name) (keeping s (prepared l i)))
          (check_ready r l (prepared l i) (namespace_name (prepared l i).name))
        ≡ (
          inl done,
          notifying
              (not ((prepared l i).status.phase == phase_running) && r.has_notifier)
              (prepared l i)
              (left_running s i),
        )
  unfolding check_ready finish_running ready_condition
  ready-runs s i ready =
      if_elim
        (λ m.
          run_in others
            (with_namespace (namespace_name (prepared l i).name) (keeping s (prepared l i))) m
          ≡ (
            inl done,
            notifying (not ((prepared l i).status.phase == phase_running) && r.has_notifier)
                (prepared l i) (left_running s i),
          ))
        (ready_in s.deployments (prepared l i)) (finish_running r l (named i))
        (finish_starting r l (named i))
        (λ _.
          notify_if-runs (not ((prepared l i).status.phase == phase_running) && r.has_notifier)
            (left_running s i)
            (left_in true "ReconcileComplete" "All resources reconciled successfully" phase_running
              i))
        (λ waiting. absurd (not_both ready waiting))

  waiting-runs :
      (s : Cluster) (i : ClawInstance)
      → ready_in s.deployments (prepared l i) ≡ false
      → run_in others
          (with_namespace (namespace_name (prepared l i).name) (keeping s (prepared l i)))
          (check_ready r l (prepared l i) (namespace_name (prepared l i).name))
        ≡ (inl (requeue_after 5), left_waiting s i)
  unfolding check_ready finish_starting ready_condition
  waiting-runs s i waiting =
      if_elim
        (λ m.
          run_in others
            (with_namespace (namespace_name (prepared l i).name) (keeping s (prepared l i))) m
          ≡ (inl (requeue_after 5), left_waiting s i))
        (ready_in s.deployments (prepared l i)) (finish_running r l (named i))
        (finish_starting r l (named i)) (λ ready. absurd (not_both ready waiting)) (λ _. refl)

  ready_in-prepared :
      (s : Cluster) (i : ClawInstance)
      → ready_in s.deployments (prepared l i) ≡ ready_in s.deployments i
  ready_in-prepared s i =
      ap (λ n. leb 1 (s.deployments (namespace_name n) "openclaw").ready_replicas)
        (Same-prepared l i).name

  -- A run over an instance that is not being deleted, where the deployment is ready, and where it is not.
  pub reconcile-ready :
      (namespace name : String) (s : Cluster) (i : ClawInstance)
      → AllApplied others
      → i.deletion_timestamp ≡ none
      → Keyed namespace name i
      → ready_in s.deployments i ≡ true
      → run_in others (keeping s i) (reconcile r l namespace name) ≡ (
        inl done,
        notifying
            (not ((prepared l i).status.phase == phase_running) && r.has_notifier)
            (prepared l i)
            (left_running s i),
      )
  reconcile-ready namespace name s i all live key ready =
      reconcile-live namespace name s i live key
      ∙ live-runs s i all live
      ∙ ready-runs s i (ready_in-prepared s i ∙ ready)

  pub reconcile-waiting :
      (namespace name : String) (s : Cluster) (i : ClawInstance)
      → AllApplied others
      → i.deletion_timestamp ≡ none
      → Keyed namespace name i
      → ready_in s.deployments i ≡ false
      → run_in others (keeping s i) (reconcile r l namespace name)
        ≡ (inl (requeue_after 5), left_waiting s i)
  reconcile-waiting namespace name s i all live key waiting =
      reconcile-live namespace name s i live key
      ∙ live-runs s i all live
      ∙ waiting-runs s i (ready_in-prepared s i ∙ waiting)

-- ===== src/Operator/Cluster/Settling.antt =====
-- Where a run of `Reconcile` leaves an instance that is not being deleted, in a cluster that stores
-- what it is given and accepts every object, and what the next run does.
use clawbake.Base.{
  String, List, true, false, not, ◌&&◌, ◌⊎◌, inl, ◌≡◌, refl, sym, subst, ap, ◌∙◌, none, string_eq,
  ◌==◌, leb,
}
use clawbake.Api.{ClawInstance, ClawInstanceSpec, phase_running, phase_starting}
use clawbake.Kube.{Deployment}
use clawbake.Effects.{Call, Response}
use clawbake.Operator.{Reconciler, Libraries, finalizer_name, namespace_name}
use clawbake.Operator.Reconcile.{Outcome, done, requeue_after, reconcile}
use clawbake.Operator.Cluster.{Cluster, run_in}
use clawbake.Operator.Cluster.Steps.{AllApplied, keeping}
use clawbake.Operator.Cluster.Prepared.{prepared, Same}
use clawbake.Operator.Cluster.Convergence.{
  ready_in, Keyed, left_in, left_waiting, notified_after, reconcile-ready, reconcile-waiting,
}
use clawbake.Operator.Cluster.Running.{
  Runs, running-Runs, notified_once, Runs-Same, left_in-Same, left_in-phase,
}

module _ (others : (c : Call) → Response c) (r : Reconciler) (l : Libraries) where
  -- A run that ends with the instance running, with these notifications and this deployment.
  abbrev pub Settles :
      ClawInstance
      → List (String × String)
      → (String → String → Deployment)
      → (Outcome ⊎ Outcome) × Cluster
      → Type 0
  Settles i notified d x =
      (x.0 ≡ inl done) × Runs others r l i x.1 × (x.1.notified ≡ notified) × (x.1.deployments ≡ d)

  abbrev pub next : String → String → Cluster → (Outcome ⊎ Outcome) × Cluster
  next namespace name s = run_in others s (reconcile r l namespace name)

  module _ (namespace name : String) (all : AllApplied others)
      (adds : (fs : List String)
        → l.contains_finalizer (l.add_finalizer fs finalizer_name) finalizer_name ≡ true) where
    ready-Settles :
        (s : Cluster) (i : ClawInstance)
        → i.deletion_timestamp ≡ none
        → Keyed namespace name i
        → ready_in s.deployments i ≡ true
        → Settles i
            (notified_after others r l
              (not (i.status.phase == phase_running) && r.has_notifier)
              i.name
              i.spec.user_id
              s.notified)
            s.deployments
            (next namespace name (keeping s i))
    ready-Settles s i live key ready =
        subst (Settles i _ s.deployments)
          (sym (reconcile-ready others r l namespace name s i all live key ready))
          (
            refl,
            running-Runs others r l s i
                (not ((prepared l i).status.phase == phase_running) && r.has_notifier) adds live,
            notified_once others r l s i,
            refl,
          )

    -- From what a run has left, whose phase decides on the notification.
    Same-Settles :
        (phase : String) (s : Cluster) (t i : ClawInstance)
        → Same t i
        → t.status.phase ≡ phase
        → i.deletion_timestamp ≡ none
        → Keyed namespace name i
        → ready_in s.deployments i ≡ true
        → Settles i
            (notified_after others r l
              (not (phase == phase_running) && r.has_notifier)
              i.name
              i.spec.user_id
              s.notified)
            s.deployments
            (next namespace name (keeping s t))
    Same-Settles phase s t i same in_phase live key ready =
        let settled =
          ready-Settles s t (same.live ∙ live) (same.namespace ∙ key.0, same.name ∙ key.1)
            (ap (λ n. leb 1 (s.deployments (namespace_name n) "openclaw").ready_replicas) same.name
              ∙ ready) in
        (
          settled.0,
          Runs-Same others r l t i (next namespace name (keeping s t)).1 same settled.1,
          settled.2
              ∙ ap
                  (λ p.
                    notified_after others r l (not (p == phase_running) && r.has_notifier) t.name
                      t.spec.user_id s.notified)
                  in_phase
              ∙ ap
                  (λ n.
                    notified_after others r l (not (phase == phase_running) && r.has_notifier) n
                      t.spec.user_id s.notified)
                  same.name
              ∙ ap
                  (λ (p : ClawInstanceSpec).
                    notified_after others r l (not (phase == phase_running) && r.has_notifier)
                      i.name p.user_id s.notified)
                  same.spec,
          settled.3,
        )

    -- Where it runs already, no one is notified again.
    pub running-Settles :
        (s : Cluster) (i : ClawInstance)
        → i.deletion_timestamp ≡ none
        → Keyed namespace name i
        → ready_in s.deployments i ≡ true
        → Runs others r l i s
        → Settles i s.notified s.deployments (next namespace name s)
    running-Settles s i live key ready
          (t, stored, phase, place, spec, named_as, within, finalized, there, space) =
        subst
          (λ o. Settles i s.notified s.deployments (next namespace name (record s { stored = o })))
          (sym stored)
          (Same-Settles phase_running s t i
            (record { namespace = within; name = named_as; spec = spec; live = there ∙ sym live })
            phase live key ready)

    -- Where the deployment was not ready and has become so.
    pub waiting-Settles :
        (d : String → String → Deployment) (s : Cluster) (i : ClawInstance)
        → i.deletion_timestamp ≡ none
        → Keyed namespace name i
        → ready_in s.deployments i ≡ false
        → ready_in d i ≡ true
        → ((next namespace name (keeping s i)).0 ≡ inl (requeue_after 5))
          × Settles i
              (notified_after others r l r.has_notifier i.name i.spec.user_id s.notified)
              d
              (next namespace name
                (record (next namespace name (keeping s i)).1 { deployments = d }))
    waiting-Settles d s i live key waiting ready =
        subst
          (λ x.
            (x.0 ≡ inl (requeue_after 5))
            × Settles i (notified_after others r l r.has_notifier i.name i.spec.user_id s.notified)
                d (next namespace name (record x.1 { deployments = d })))
          (sym (reconcile-waiting others r l namespace name s i all live key waiting))
          (
            refl,
            Same-Settles phase_starting (record (left_waiting others r l s i) { deployments = d })
                (left_in others r l false "WaitingForReady" "Waiting for deployment to become ready"
                  phase_starting i)
                i
                (left_in-Same others r l false "WaitingForReady"
                  "Waiting for deployment to become ready" phase_starting i)
                (left_in-phase others r l false "WaitingForReady"
                  "Waiting for deployment to become ready" phase_starting i)
                live key ready,
          )

-- ===== src/Operator/Cluster/Running.antt =====
-- An instance that runs, as `Reconcile` leaves it, and what decides on the notification.
use clawbake.Base.{
  String, List, ◌∷◌, contains, ==_refl, Bool, true, not, ◌&&◌, ◌≡◌, refl, sym, ap, ◌∙◌, none, some,
  if_elim, string_eq, ◌==◌, arith,
}
use clawbake.Api.{ClawInstance, ClawInstanceSpec, phase_pending, phase_creating, phase_running}
use clawbake.Effects.{Call, Response}
use clawbake.Operator.{Reconciler, Libraries, finalizer_name, namespace_name}
use clawbake.Operator.Reconcile.{set_phase, ready_condition}
use clawbake.Operator.Cluster.{Cluster, added}
use clawbake.Operator.Cluster.Steps.{ensured, advanced}
use clawbake.Operator.Cluster.Prepared.{prepared, Same, Same-prepared, running_kept}
use clawbake.Operator.Cluster.Convergence.{left_in, left_running, notified_after, notifying}

contains-added : (n : String) (ns : List String) → contains n (added n ns) ≡ true
contains-added n ns =
    if_elim (λ ms. contains n ms ≡ true) (contains n ns) ns (n ∷ ns) (λ there. there)
      (λ _. rw (==_refl n) refl)

module _ (others : (c : Call) → Response c) (r : Reconciler) (l : Libraries) where
  abbrev pub has_finalizer : ClawInstance → Bool
  has_finalizer i = l.contains_finalizer i.finalizers finalizer_name

  has_finalizer-advanced :
      (from to : String) (i : ClawInstance)
      → has_finalizer i ≡ true
      → has_finalizer (advanced from to i) ≡ true
  has_finalizer-advanced from to i h =
      if_elim (λ k. has_finalizer k ≡ true) (i.status.phase == from) (set_phase to i) i (λ _. h)
        (λ _. h)

  has_finalizer-prepared :
      (i : ClawInstance)
      → ((fs : List String)
          → l.contains_finalizer (l.add_finalizer fs finalizer_name) finalizer_name ≡ true)
      → has_finalizer (prepared l i) ≡ true
  has_finalizer-prepared i adds =
      has_finalizer-advanced phase_pending phase_creating (advanced "" phase_pending (ensured l i))
        (has_finalizer-advanced "" phase_pending (ensured l i) (
          if_elim (λ k. has_finalizer k ≡ true) (not (has_finalizer i)) _ i (λ _. adds i.finalizers)
            (λ there. ground (arith, there))))

  -- The instance runs, with its specification and its finalizer, in the namespace of its name.
  abbrev pub Runs : ClawInstance → Cluster → Type 0
  Runs i s =
      (t : ClawInstance) × (s.stored ≡ some t)
      × (t.status.phase ≡ phase_running)
      × (t.status.namespace ≡ namespace_name i.name)
      × (t.spec ≡ i.spec)
      × (t.name ≡ i.name)
      × (t.namespace ≡ i.namespace)
      × (has_finalizer t ≡ true)
      × (t.deletion_timestamp ≡ none)
      × (contains (namespace_name i.name) s.namespaces ≡ true)

  pub running-Runs :
      (s : Cluster) (i : ClawInstance) (b : Bool)
      → ((fs : List String)
          → l.contains_finalizer (l.add_finalizer fs finalizer_name) finalizer_name ≡ true)
      → i.deletion_timestamp ≡ none
      → Runs i (notifying others r l b (prepared l i) (left_running others r l s i))
  unfolding ready_condition
  running-Runs s i b adds live =
      let same = Same-prepared l i in
      (
        left_in others r l true "ReconcileComplete" "All resources reconciled successfully"
            phase_running i,
        refl,
        refl,
        ap namespace_name same.name,
        same.spec,
        same.name,
        same.namespace,
        has_finalizer-prepared i adds,
        same.live ∙ live,
        ap
              (λ n.
                contains (namespace_name n)
                  (added (namespace_name (prepared l i).name) s.namespaces))
              (sym same.name)
            ∙ contains-added (namespace_name (prepared l i).name) s.namespaces,
      )

  pub notified_once :
      (s : Cluster) (i : ClawInstance)
      → notified_after others r l
          (not ((prepared l i).status.phase == phase_running) && r.has_notifier)
          (prepared l i).name
          (prepared l i).spec.user_id
          s.notified
        ≡ notified_after others r l
            (not (i.status.phase == phase_running) && r.has_notifier)
            i.name
            i.spec.user_id
            s.notified
  notified_once s i =
      ap
        (λ b.
          notified_after others r l (not b && r.has_notifier) (prepared l i).name
            (prepared l i).spec.user_id s.notified)
        (running_kept l i)
      ∙ ap
          (λ n.
            notified_after others r l (not (i.status.phase == phase_running) && r.has_notifier) n
              (prepared l i).spec.user_id s.notified)
          (Same-prepared l i).name
      ∙ ap
          (λ (p : ClawInstanceSpec).
            notified_after others r l (not (i.status.phase == phase_running) && r.has_notifier)
              i.name p.user_id s.notified)
          (Same-prepared l i).spec

  pub Runs-Same : (i j : ClawInstance) (s : Cluster) → Same i j → Runs i s → Runs j s
  Runs-Same i j s same (t, stored, phase, place, spec, named_as, within, finalized, live, space) = (
    t,
    stored,
    phase,
    place ∙ ap namespace_name same.name,
    spec ∙ same.spec,
    named_as ∙ same.name,
    within ∙ same.namespace,
    finalized,
    live,
    ap (λ n. contains (namespace_name n) s.namespaces) (sym same.name) ∙ space,
  )

  pub left_in-Same :
      (ready : Bool) (reason message phase : String) (i : ClawInstance)
      → Same (left_in others r l ready reason message phase i) i
  unfolding ready_condition
  left_in-Same ready reason message phase i =
      let same = Same-prepared l i in
      record { namespace = same.namespace; name = same.name; spec = same.spec; live = same.live }

  pub left_in-phase :
      (ready : Bool) (reason message phase : String) (i : ClawInstance)
      → (left_in others r l ready reason message phase i).status.phase ≡ phase
  unfolding ready_condition
  left_in-phase ready reason message phase i = refl

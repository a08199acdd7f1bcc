-- ===== src/Operator/Cluster/Ends.antt =====
-- What `Reconcile` brings an instance to, run after run, in a cluster that stores what it is given.
use clawbake.Base.{
  ℕ, String, List, [], ◌∷◌, Bool, true, false, not, inl, inr, ◌≡◌, refl, sym, subst, ap, ◌∙◌,
  Option, none, some, if_elim, is_empty, contains, if◌then◌else◌, string_eq, ◌==◌, arith,
}
use clawbake.Api.{Result, ok, err, is_not_found, ClawInstance, phase_terminating}
use clawbake.Kube.{Namespace, Deployment}
use clawbake.Effects.{Call, Response, delete_namespace, Prog, return, call, block}
use clawbake.Operator.{Reconciler, Libraries, finalizer_name, namespace_name}
use clawbake.Operator.Reconcile.{
  Outcome, done, requeue_after, reconcile_live, reconcile_deletion, delete_user_namespace,
  reconcile, set_phase, deleting,
}
use clawbake.Operator.Cluster.{
  Cluster, run_in, run_in-bind, GoesOn, absent, unless_deleted, without,
}
use clawbake.Operator.Cluster.Steps.{AllApplied, keeping}
use clawbake.Operator.Cluster.Prepared.{not_both}
use clawbake.Operator.Cluster.Convergence.{ready_in, Keyed, reconcile-found}
use clawbake.Operator.Cluster.Settling.{Settles, next, waiting-Settles, running-Settles}

-- In a cluster that stores what `Reconcile` writes and accepts every object it applies, where adding a
-- finalizer adds one that is found, take an instance that is stored under a namespace and a name and is
-- not being deleted, in whatever phase, and whose deployment, the one of the instance's own namespace,
-- has no ready replica. The first run for that namespace and name ends with a requeue after 5 seconds.
-- When the deployments are then such that its own has a ready replica, the next run ends without a
-- requeue and leaves the instance stored in phase Running, its status naming the namespace of its name,
-- which is among the namespaces of the cluster, with its specification unchanged and the finalizer on
-- it, and one more notification, for its name and user, if there is a notifier. The run after that
-- leaves the same and notifies no one.
pub reconcile_converges :
    (others : (c : Call) → Response c) (r : Reconciler) (l : Libraries) (namespace name : String)
    (s : Cluster) (i : ClawInstance) (d : String → String → Deployment)
    → AllApplied others
    → ((fs : List String)
        → l.contains_finalizer (l.add_finalizer fs finalizer_name) finalizer_name ≡ true)
    → s.stored ≡ some i
    → Keyed namespace name i
    → i.deletion_timestamp ≡ none
    → ready_in s.deployments i ≡ false
    → ready_in d i ≡ true
    → let first = next others r l namespace name s in
      let second = next others r l namespace name (record first.1 { deployments = d }) in
      let told : List (String × String) =
        if r.has_notifier then (i.name, i.spec.user_id) ∷ s.notified else s.notified in
      (first.0 ≡ inl (requeue_after 5))
      × Settles others r l i told d second
      × Settles others r l i told d (next others r l namespace name second.1)
reconcile_converges others r l namespace name s i d all adds stored key live waiting ready =
    let told : List (String × String) =
      if r.has_notifier then (i.name, i.spec.user_id) ∷ s.notified else s.notified in
    let both = waiting-Settles others r l namespace name all adds d s i live key waiting ready in
    let second =
      next others r l namespace name
        (record (next others r l namespace name (keeping s i)).1 { deployments = d }) in
    let third =
      running-Settles others r l namespace name all adds second.1 i live key
        (subst (λ e. ready_in e i ≡ true) (sym both.1.3) ready) both.1.1 in
    subst
      (λ o.
        let first = next others r l namespace name (record s { stored = o }) in
        let second' = next others r l namespace name (record first.1 { deployments = d }) in
        (first.0 ≡ inl (requeue_after 5))
        × Settles others r l i told d second'
        × Settles others r l i told d (next others r l namespace name second'.1))
      (sym stored) (both.0, both.1, (third.0, third.1, third.2 ∙ both.1.2, third.3 ∙ both.1.3))

-- The last finalizer off an instance that is being deleted.
last_finalizer_off :
    (i : ClawInstance) (at : ℕ)
    → i.deletion_timestamp ≡ some at
    → i.finalizers ≡ []
    → unless_deleted i.deletion_timestamp i ≡ none
last_finalizer_off i at deleted left =
    ap (λ d. unless_deleted d i) deleted ∙ ap (λ fs. if is_empty fs then none else some i) left

without-absent : (n : String) (ns : List String) → contains n ns ≡ false → without n ns ≡ ns
without-absent n [] h = refl
without-absent n (m ∷ ns) h =
    if_elim (λ ms. ms ≡ m ∷ ns) (not (m == n)) (m ∷ without n ns) (without n ns)
      (λ _. ap (λ ms. m ∷ ms) (without-absent n ns (ground (arith, h))))
      (λ same. absurd (ground (arith, h, same)))

-- The cluster without the instance and without the namespace of its name.
abbrev gone_from : Cluster → ClawInstance → Cluster
gone_from s i = record s {
  stored = none;
  namespaces = without (namespace_name i.name) s.namespaces;
}

user_namespace-gone :
    (others : (c : Call) → Response c) (s : Cluster) (i : ClawInstance)
    → GoesOn {R = Outcome} others s
        (block (delete_user_namespace i))
        (ok tt)
        (record s { namespaces = without (namespace_name i.name) s.namespaces })
unfolding delete_user_namespace
user_namespace-gone others s i =
    if_elim
      (λ (x : Result Namespace).
        GoesOn {R = Outcome} others s
          (block (elim x as (λ _. Prog (Result Unit) (Result Unit)) [
            | ok ns ↦ call (delete_namespace ns)
            | err e ↦ return (if is_not_found e then ok tt else err e)
          ]))
          (ok tt) (record s { namespaces = without (namespace_name i.name) s.namespaces }))
      (contains (namespace_name i.name) s.namespaces)
      (ok (record { name = namespace_name i.name; labels = [] })) (err absent) (λ _. refl)
      (λ e.
        ap (λ ns. (inr (ok tt), record s { namespaces = ns }))
          (sym (without-absent (namespace_name i.name) s.namespaces e)))

deletion-run :
    (others : (c : Call) → Response c) (r : Reconciler) (l : Libraries) (s : Cluster)
    (i : ClawInstance) (at : ℕ)
    → i.deletion_timestamp ≡ some at
    → l.contains_finalizer i.finalizers finalizer_name ≡ true
    → l.remove_finalizer i.finalizers finalizer_name ≡ []
    → run_in others (keeping s i) (reconcile_deletion r l i) ≡ (inl done, gone_from s i)
unfolding reconcile_deletion
deletion-run others r l s i at deleted found left =
    if_elim (λ m. run_in others (keeping s i) m ≡ (inl done, gone_from s i))
      (l.contains_finalizer i.finalizers finalizer_name) _ (return done)
      (λ _.
        run_in-bind others (block (delete_user_namespace (set_phase phase_terminating i))) _
          (keeping s (set_phase phase_terminating i)) _ (ok tt)
          (user_namespace-gone others (keeping s (set_phase phase_terminating i))
            (set_phase phase_terminating i))
        ∙ ap (λ o. (inl done, record (gone_from s i) { stored = o }))
            (last_finalizer_off _ at deleted left))
      (λ e. absurd (not_both found e))

-- In such a cluster, take an instance that is stored under a namespace and a name and is being deleted,
-- and whose only finalizer is the one `Reconcile` looks for and takes off, whatever its phase, with the
-- namespace of its name there or gone already. One run for that namespace and name ends without a
-- requeue, with the instance gone and the namespace of its name too, every other namespace left as it
-- was and no one notified; a further run ends the same and changes nothing.
pub reconcile_deletes :
    (others : (c : Call) → Response c) (r : Reconciler) (l : Libraries) (namespace name : String)
    (s : Cluster) (i : ClawInstance) (at : ℕ)
    → s.stored ≡ some i
    → Keyed namespace name i
    → i.deletion_timestamp ≡ some at
    → l.contains_finalizer i.finalizers finalizer_name ≡ true
    → l.remove_finalizer i.finalizers finalizer_name ≡ []
    → let first = next others r l namespace name s in
      let gone : Cluster = record s {
        stored = none;
        namespaces = without (namespace_name i.name) s.namespaces;
      } in
      (first ≡ (inl done, gone)) × (next others r l namespace name gone ≡ (inl done, gone))
unfolding reconcile
reconcile_deletes others r l namespace name s i at stored key deleted there left = (
  reconcile-found others r l namespace name s i stored key
      ∙ ap
          (λ o.
            run_in others (record s { stored = o })
              (if deleting i then reconcile_deletion r l i else reconcile_live r l i))
          stored
      ∙ ap
          (λ (d : Option ℕ). run_in others (keeping s i) (
            if (elim d as (λ _. Bool) [ none ↦ false | some t ↦ true ])
            then reconcile_deletion r l i
            else reconcile_live r l i))
          deleted
      ∙ deletion-run others r l s i at deleted there left,
  refl,
)

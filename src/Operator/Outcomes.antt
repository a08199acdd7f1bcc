-- ===== src/Operator/Outcomes.antt =====
-- What the result of `Reconcile` says of its run.
use clawbake.Base.{
  String, [], ◌∷◌, Bool, true, false, not, Option, none, some, ◌≡◌, ◌⊎◌, refl, inl, inr, string_eq,
  ◌==◌, leb, if◌then◌else◌,
}
use clawbake.Api.{
  Error, Result, ok, err, is_not_found, ClawInstance, phase_pending, phase_creating, phase_starting,
  phase_running, phase_failed,
}
use clawbake.Effects.{
  Call, Response, Applied, applied, failed, panicked, get_instance, update_instance, update_status,
  get_namespace, delete_namespace, get_deployment, apply_namespace, apply_pvc, apply_deployment,
  apply_service, apply_network_policy, record_event, Trace, Oracle, Prog, ◌>>=◌, run,
}
use clawbake.Effects.Paths.{event, AllPaths, AllPaths-bind, AllPaths-if, AllPaths-run, Occurs}
use clawbake.Operator.{Reconciler, Libraries, finalizer_name, namespace_name}
use clawbake.Operator.Reconcile.{
  Outcome, done, requeue_after, error, panic, must, deleting, checked, ready_condition,
  reconcile_deletion, ensure_finalizer, advance_phase, reconcile_resources, notify_if,
  finish_running, finish_starting, check_ready, reconcile_live, reconcile, delete_user_namespace,
}

-- The error of an answer.
abbrev pub refusal : {A : Type 0} → Result A → Option Error
refusal (ok a) = none
refusal (err e) = some e

abbrev pub refusal_of : (c : Call) → Response c → Option Error
refusal_of (get_instance _ _) r = refusal r
refusal_of (update_instance _) r = refusal r
refusal_of (update_status _) r = refusal r
refusal_of (get_namespace _) r = refusal r
refusal_of (delete_namespace _) r = refusal r
refusal_of (get_deployment _ _) r = refusal r
refusal_of _ r = none

-- The newest call was answered by the error.
abbrev pub EndsRefused : Error → Trace → Type 0
EndsRefused e [] = ⊥
EndsRefused e (newest ∷ t) = refusal_of newest.call newest.response ≡ some e

-- What came of an application of an object.
abbrev pub application : (c : Call) → Response c → Option Applied
application (apply_namespace _ _) a = some a
application (apply_pvc _ _ _) a = some a
application (apply_deployment _ _ _) a = some a
application (apply_service _ _ _) a = some a
application (apply_network_policy _ _ _) a = some a
application _ r = none

abbrev pub Came : Applied → Trace → Type 0
Came a t = (c : Call) × (r : Response c) × Occurs c r t × (application c r ≡ some a)

-- A status of the phase was written with success, and this was the answer.
abbrev pub Written : String → ClawInstance → Trace → Type 0
Written phase stored t =
    (j : ClawInstance) × Occurs (update_status j) (ok stored) t × (j.status.phase ≡ phase)

module _ (l : Libraries) (namespace name : String) where
  -- The instance is being deleted, and it had no finalizer or has been stored without.
  abbrev pub Deleted : Trace → Type 0
  Deleted t =
      (i : ClawInstance) × Occurs (get_instance namespace name) (ok i) t
      × (deleting i ≡ true)
      × ((l.contains_finalizer i.finalizers finalizer_name ≡ false)
          ⊎ ((j stored : ClawInstance) × Occurs (update_instance j) (ok stored) t))

  abbrev pub Accounted : Outcome → Trace → Type 0
  Accounted done t =
      ((e : Error) × (is_not_found e ≡ true) × Occurs (get_instance namespace name) (err e) t)
      ⊎ (Deleted t ⊎ ((stored : ClawInstance) × Written phase_running stored t))
  Accounted (requeue_after n) t =
      (n ≡ 5) × ((stored : ClawInstance) × Written phase_starting stored t)
  Accounted (error e) t =
      EndsRefused e t
      ⊎ (Came (failed e) t
          × ((stored : ClawInstance) × (reason : String) × Written phase_failed stored t
              × Occurs (record_event stored "Warning" reason e.message) tt t))
  Accounted panic t = Came panicked t

  abbrev Anything : {A : Type 0} → A → Trace → Type 0
  Anything a t = Unit

  module _ (r : Reconciler) where
    -- A failed application is recorded before its error is returned.
    checked-Accounted :
        {B : Type 0} (S : B → Trace → Type 0) (f : Unit → Prog Outcome B) (i : ClawInstance)
        (reason : String) (c : Call) (x : Response c) (a : Applied) (t : Trace)
        → application c x ≡ some a
        → AllPaths Accounted S (f tt) (event c x ∷ t)
        → AllPaths Accounted S (checked r l i reason a >>= f) (event c x ∷ t)
    unfolding checked ready_condition
    checked-Accounted S f i reason c x applied t e k = k
    checked-Accounted S f i reason c x (failed error') t e k = elim [
      | ok i' ↦ λ _.
          inr ((c, x, inr (inr (inl refl)), e), (i', reason, (_, inr (inl refl), refl), inl refl))
      | err e' ↦ inl refl
    ]
    checked-Accounted S f i reason c x panicked t e k = (c, x, inl refl, e)

    reconcile_resources-Accounted :
        (i : ClawInstance) (t : Trace)
        → AllPaths Accounted Anything (reconcile_resources r l i (namespace_name i.name)) t
    unfolding reconcile_resources
    reconcile_resources-Accounted i t = λ a. checked-Accounted Anything _ i _ _ a a t refl λ b.
        checked-Accounted Anything _ i _ _ b b _ refl λ c.
          checked-Accounted Anything _ i _ _ c c _ refl λ d.
            checked-Accounted Anything _ i _ _ d d _ refl
              λ e. checked-Accounted Anything _ i _ _ e e _ refl tt

    ensure_finalizer-Accounted :
        (i : ClawInstance) (t : Trace) → AllPaths Accounted Anything (ensure_finalizer r l i) t
    unfolding ensure_finalizer
    ensure_finalizer-Accounted i t =
        AllPaths-if Accounted Anything (not (l.contains_finalizer i.finalizers finalizer_name)) _ _
          _ (λ _. elim [ err e ↦ inl refl | ok i' ↦ tt ]) (λ _. tt)

    advance_phase-Accounted :
        (from to : String) (i : ClawInstance) (t : Trace)
        → AllPaths Accounted Anything (advance_phase r l from to i) t
    unfolding advance_phase
    advance_phase-Accounted from to i t =
        AllPaths-if Accounted Anything (i.status.phase == from) _ _ _
          (λ _. elim [ err e ↦ inl refl | ok i' ↦ tt ]) (λ _. tt)

    notify_if-Accounted :
        (b : Bool) (i stored : ClawInstance) (t : Trace)
        → Written phase_running stored t
        → AllPaths Accounted Accounted (notify_if r l b i) t
    unfolding notify_if
    notify_if-Accounted true i stored t (j, w, p) = λ _. inr (inr (stored, (j, inr w, p)))
    notify_if-Accounted false i stored t w = inr (inr (stored, w))

    finish_running-Accounted :
        (i : ClawInstance) (t : Trace) → AllPaths Accounted Accounted (finish_running r l i) t
    unfolding finish_running ready_condition
    finish_running-Accounted i t = elim [
      | err e ↦ inl refl
      | ok i' ↦ λ _. notify_if-Accounted _ i' i' _ (_, inr (inl refl), refl)
    ]

    finish_starting-Accounted :
        (i : ClawInstance) (t : Trace) → AllPaths Accounted Accounted (finish_starting r l i) t
    unfolding finish_starting ready_condition
    finish_starting-Accounted i t = elim [
      | err e ↦ inl refl
      | ok i' ↦ (refl, (i', (_, inl refl, refl)))
    ]

    check_ready-Accounted :
        (i : ClawInstance) (ns : String) (t : Trace)
        → AllPaths Accounted Accounted (check_ready r l i ns) t
    unfolding check_ready
    check_ready-Accounted i ns t = elim [
      | err e ↦ inl refl
      | ok d ↦
          AllPaths-if Accounted Accounted (leb 1 d.ready_replicas) _ _ _
            (λ _. finish_running-Accounted _ _)
            (λ _.
              finish_starting-Accounted (record i { status = record i.status { namespace = ns } })
                _)
    ]

    reconcile_live-Accounted :
        (i : ClawInstance) (t : Trace) → AllPaths Accounted Accounted (reconcile_live r l i) t
    unfolding reconcile_live
    reconcile_live-Accounted i t =
        AllPaths-bind Accounted Anything Accounted _ _ _ (ensure_finalizer-Accounted i t) λ i₁ t₁ _.
          AllPaths-bind Accounted Anything Accounted _ _ _
            (advance_phase-Accounted "" phase_pending i₁ t₁)
            λ i₂ t₂ _.
              AllPaths-bind Accounted Anything Accounted _ _ _
                (advance_phase-Accounted phase_pending phase_creating i₂ t₂)
                λ i₃ t₃ _.
                  AllPaths-bind Accounted Anything Accounted
                    (reconcile_resources r l i₃ (namespace_name i₃.name)) _ _
                    (reconcile_resources-Accounted i₃ t₃) λ _ t₄ _. check_ready-Accounted i₃ _ t₄

    -- The end of a deletion, where the namespace is gone or going.
    saved-Accounted :
        (i j : ClawInstance) (a : Result ClawInstance) (t : Trace)
        → Occurs (get_instance namespace name) (ok i) t
        → deleting i ≡ true
        → AllPaths Accounted Accounted
            (must a >>= λ _. Prog.return done)
            (event (update_instance j) a ∷ t)
    saved-Accounted i j (ok stored) t read d = inr (inl (i, inr read, d, inr (j, stored, inl refl)))
    saved-Accounted i j (err e) t read d = inl refl

    forgiven-Accounted :
        (b : Bool) (n : String) (e : Error) (f : Unit → Prog Outcome Outcome) (t : Trace)
        → AllPaths Accounted Accounted (f tt) (event (get_namespace n) (err e) ∷ t)
        → AllPaths Accounted Accounted
            (must (if b then ok tt else err e) >>= f)
            (event (get_namespace n) (err e) ∷ t)
    forgiven-Accounted true n e f t k = k
    forgiven-Accounted false n e f t k = inl refl

    reconcile_deletion-Accounted :
        (i : ClawInstance) (t : Trace)
        → Occurs (get_instance namespace name) (ok i) t
        → deleting i ≡ true
        → AllPaths Accounted Accounted (reconcile_deletion r l i) t
    unfolding reconcile_deletion delete_user_namespace
    reconcile_deletion-Accounted i t read d =
        AllPaths-if Accounted Accounted (l.contains_finalizer i.finalizers finalizer_name) _ _ _
          (λ _. elim [
            | err e ↦ inl refl
            | ok i₁ ↦ elim [
              | err e ↦
                  forgiven-Accounted (is_not_found e) _ e _ _
                    (λ saved. saved-Accounted i _ saved _ (inr (inr read)) d)
              | ok ns ↦ elim [
                | err e ↦ inl refl
                | ok u ↦ λ saved. saved-Accounted i _ saved _ (inr (inr (inr read))) d
              ]
            ]
          ])
          (λ absent. inr (inl (i, read, d, inl absent)))

    missing-Accounted :
        (b : Bool) (e : Error)
        → is_not_found e ≡ b
        → Accounted (if b then done else error e) (event (get_instance namespace name) (err e) ∷ [])
    missing-Accounted true e h = inl (e, h, inl refl)
    missing-Accounted false e h = inl refl

    -- The result of every run of `Reconcile` tells what happened. It ends without error only if the
    -- instance was not found, or it is being deleted and had no finalizer or was stored again, or a
    -- status with the phase Running was stored; it asks to be called again, after 5 seconds, only if
    -- a status with the phase Starting was stored; it returns an error only if this answered its
    -- last call, or came of an application and was recorded, in a stored status with the phase
    -- Failed and in a warning; and it panics only if an application did.
    pub reconcile-Accounted :
        (o : Oracle)
        → Accounted
            (run o (reconcile r l namespace name) []).0
            (run o (reconcile r l namespace name) []).1
    unfolding reconcile
    reconcile-Accounted o = AllPaths-run Accounted (reconcile r l namespace name) o [] (elim [
      | err e ↦ missing-Accounted (is_not_found e) e refl
      | ok i ↦
          AllPaths-if Accounted Accounted (deleting i) (reconcile_deletion r l i)
            (reconcile_live r l i) _ (λ d. reconcile_deletion-Accounted i _ (inl refl) d)
            (λ _. reconcile_live-Accounted i _)
    ])

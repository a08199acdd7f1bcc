-- ===== src/Operator/Rule/Runs.antt =====
-- The rule holds of every run of `Reconcile`.
use clawbake.Base.{
  String, Bool, true, false, [], some, ◌≡◌, refl, inl, inr, leb, arith, ◌==◌, string_eq, not,
  if◌then◌else◌, eq_iff,
}
use clawbake.Api.{
  Error, Result, ok, err, is_not_found, ClawInstance, phase_pending, phase_creating, phase_running,
}
use clawbake.Effects.{
  Call, Applied, applied, failed, panicked, update_status, notify_ready, Trace, Prog, return, ◌>>=◌,
  ◌>>◌, Oracle, run,
}
use clawbake.Effects.Paths.{
  event-path, AllPaths, AllPaths-bind, AllPaths-if, AllPaths-run, Every, Ends,
}
use clawbake.Operator.{Reconciler, Libraries, finalizer_name, namespace_name}
use clawbake.Operator.Reconcile.{
  Outcome, done, must, set_phase, deleting, checked, delete_user_namespace, reconcile_deletion,
  ensure_finalizer, advance_phase, reconcile_resources, finish_running, notify_if, finish_starting,
  check_ready, reconcile_live, reconcile, ready_condition,
}
use clawbake.Operator.Rule.{last_seen, ResourcesApplied, later, Secured, Rules}

module _ (r : Reconciler) (l : Libraries) (J : Call → Trace → Type 0) (rules : Rules r l J) where
  abbrev Q : Outcome → Trace → Type 0
  Q = Ends J

  -- The instance at hand is the one last returned.
  abbrev At : ClawInstance → Trace → Type 0
  At i t = Every J t × (last_seen t ≡ some i)

  abbrev AllApplied : ClawInstance → Unit {0} → Trace → Type 0
  AllApplied i _ t = Every J t × (last_seen t ≡ some i) × ResourcesApplied r l i t

  -- A failed step ends the function; whatever would follow is not run.
  checked-Every :
      {B : Type 0} (S : B → Trace → Type 0) (f : Unit → Prog Outcome B) (i : ClawInstance)
      (reason : String) (a : Applied) (t : Trace)
      → Every J t
      → (a ≡ applied → AllPaths Q S (f tt) t)
      → AllPaths Q S (checked r l i reason a >>= f) t
  unfolding checked ready_condition
  checked-Every S f i reason applied t h k = k refl
  checked-Every S f i reason (failed e) t h k = elim [
    | ok i' ↦ λ _. (rules.recording _ _ _ _ _, (rules.failing _ _ refl, h))
    | err e' ↦ (rules.failing _ _ refl, h)
  ]
  checked-Every S f i reason panicked t h k = h

  reconcile_resources-Every :
      (i : ClawInstance) (t : Trace)
      → At i t
      → AllPaths Q (AllApplied i) (reconcile_resources r l i (namespace_name i.name)) t
  unfolding reconcile_resources
  reconcile_resources-Every i t (h, s) = λ a.
      checked-Every (AllApplied i) _ i _ a _ (rules.applying_namespace i _, h)
        λ a₁. λ b.
          checked-Every (AllApplied i) _ i _ b _
            (rules.applying_pvc i _, (rules.applying_namespace i _, h))
            λ b₁. λ c.
              checked-Every (AllApplied i) _ i _ c _
                (
                  rules.applying_deployment i _,
                  (rules.applying_pvc i _, (rules.applying_namespace i _, h)),
                )
                λ c₁. λ d.
                  checked-Every (AllApplied i) _ i _ d _
                    (
                      rules.applying_service i _,
                      (
                        rules.applying_deployment i _,
                        (rules.applying_pvc i _, (rules.applying_namespace i _, h)),
                      ),
                    )
                    λ d₁. λ e.
                      checked-Every (AllApplied i) _ i _ e _
                        (
                          rules.applying_network_policy i _,
                          (
                            rules.applying_service i _,
                            (
                              rules.applying_deployment i _,
                              (rules.applying_pvc i _, (rules.applying_namespace i _, h)),
                            ),
                          ),
                        )
                        λ e₁. (
                          (
                            rules.applying_network_policy i _,
                            (
                              rules.applying_service i _,
                              (
                                rules.applying_deployment i _,
                                (rules.applying_pvc i _, (rules.applying_namespace i _, h)),
                              ),
                            ),
                          ),
                          s,
                          record {
                            namespace = inr (inr (inr (inr (inl (event-path _ a₁)))));
                            pvc = inr (inr (inr (inl (event-path _ b₁))));
                            deployment = inr (inr (inl (event-path _ c₁)));
                            service = inr (inl (event-path _ d₁));
                            network_policy = inl (event-path _ e₁);
                          },
                        )

  ensure_finalizer-Every :
      (i : ClawInstance) (t : Trace) → At i t → AllPaths Q At (ensure_finalizer r l i) t
  unfolding ensure_finalizer
  ensure_finalizer-Every i t (h, s) =
      AllPaths-if Q At (not (l.contains_finalizer i.finalizers finalizer_name)) _ _ _
        (λ _. elim [ err e ↦ (rules.finalize i t, h) | ok i' ↦ ((rules.finalize i t, h), refl) ])
        (λ _. (h, s))

  advance_phase-Every :
      (from to : String)
      → ((i : ClawInstance) (t : Trace) → J (update_status (set_phase to i)) t)
      → (i : ClawInstance) (t : Trace) → At i t
      → AllPaths Q At (advance_phase r l from to i) t
  unfolding advance_phase
  advance_phase-Every from to rule i t (h, s) =
      AllPaths-if Q At (i.status.phase == from) _ _ _
        (λ _. elim [ err e ↦ (rule i t, h) | ok i' ↦ ((rule i t, h), refl) ]) (λ _. (h, s))

  notify_if-Every :
      (b : Bool) (i : ClawInstance) (t : Trace)
      → (b ≡ true → J (notify_ready i.name i.spec.user_id) t)
      → Every J t
      → AllPaths Q Q (notify_if r l b i) t
  unfolding notify_if
  notify_if-Every true i t n h = λ _. (n refl, h)
  notify_if-Every false i t n h = h

  finish_running-Every :
      (i k : ClawInstance) (t : Trace)
      → Every J t
      → last_seen t ≡ some k
      → k.status.phase ≡ i.status.phase
      → Secured r l t
      → AllPaths Q Q (finish_running r l i) t
  unfolding finish_running ready_condition
  finish_running-Every i k t h s same secured = elim [
    | err e ↦ (rules.running _ _ refl secured, h)
    | ok i' ↦ λ u.
        notify_if-Every _ i' _
          (λ n. rules.notifying _ _ _ (record {
            before = k;
            written = _;
            stored = i';
            rest = t;
            shape = refl;
            running = refl;
            seen_before = s;
            not_before = ground (arith, eq_iff i.status.phase phase_running);
            name_stored = refl;
            user_stored = refl;
          }))
          (rules.recording _ _ _ _ _, (rules.running _ _ refl secured, h))
  ]

  finish_starting-Every :
      (i : ClawInstance) (t : Trace) → Every J t → AllPaths Q Q (finish_starting r l i) t
  unfolding finish_starting ready_condition
  finish_starting-Every i t h = elim [
    | err e ↦ (rules.starting _ _ refl, h)
    | ok i' ↦ (rules.starting _ _ refl, h)
  ]

  check_ready-Every :
      (i : ClawInstance) (t : Trace)
      → AllApplied i tt t
      → AllPaths Q Q (check_ready r l i (namespace_name i.name)) t
  unfolding check_ready
  check_ready-Every i t (h, s, all) = elim [
    | err e ↦ (rules.checking _ _, h)
    | ok d ↦
        AllPaths-if Q Q (leb 1 d.ready_replicas) _ _ _
          (λ ready.
            finish_running-Every _ i _ (rules.checking _ _, h) s refl
              (i, later r l all, (d, inl refl, ground arith)))
          (λ _.
            finish_starting-Every
              (record i { status = record i.status { namespace = namespace_name i.name } }) _
              (rules.checking _ _, h))
  ]

  reconcile_live-Every :
      (i : ClawInstance) (t : Trace) → At i t → AllPaths Q Q (reconcile_live r l i) t
  unfolding reconcile_live
  reconcile_live-Every i t h = AllPaths-bind Q At Q _ _ _ (ensure_finalizer-Every i t h) λ i₁ t₁ h₁.
      AllPaths-bind Q At Q _ _ _ (advance_phase-Every "" phase_pending rules.pending i₁ t₁ h₁)
        λ i₂ t₂ h₂.
          AllPaths-bind Q At Q _ _ _
            (advance_phase-Every phase_pending phase_creating rules.creating i₂ t₂ h₂)
            λ i₃ t₃ h₃.
              AllPaths-bind Q (AllApplied i₃) Q
                (reconcile_resources r l i₃ (namespace_name i₃.name)) _ _
                (reconcile_resources-Every i₃ t₃ h₃) λ _ t₄ h₄. check_ready-Every i₃ t₄ h₄

  must-Every :
      {A B : Type 0} (a : Result A) (f : A → Prog Outcome B) (S : B → Trace → Type 0) (t : Trace)
      → Every J t
      → ((x : A) → a ≡ ok x → AllPaths Q S (f x) t)
      → AllPaths Q S (must a >>= f) t
  must-Every (ok a) f S t h k = k a refl
  must-Every (err e) f S t h k = h

  forgiven :
      (e : Error) (u : Unit {0})
      → (if is_not_found e then ok tt else err e) ≡ ok u
      → is_not_found e ≡ true
  forgiven e u p = ground arith

  saved-Every :
      (a : Result ClawInstance) (t : Trace) → Every J t → AllPaths Q Q (must a >> return done) t
  saved-Every (ok i) t h = h
  saved-Every (err e) t h = h

  reconcile_deletion-Every :
      (i : ClawInstance) (t : Trace)
      → deleting i ≡ true
      → Every J t
      → AllPaths Q Q (reconcile_deletion r l i) t
  unfolding reconcile_deletion delete_user_namespace
  reconcile_deletion-Every i t d h =
      AllPaths-if Q Q (l.contains_finalizer i.finalizers finalizer_name) _ _ _
        (λ _. elim [
          | err e ↦ (rules.terminating i _ d, h)
          | ok i₁ ↦ elim [
            | ok ns ↦ λ answer.
                must-Every answer _ Q _
                  (
                    rules.drop_namespace _ _,
                    (rules.find_namespace _ _, (rules.terminating i _ d, h)),
                  )
                  λ u gone saved. saved-Every saved _ (
                    rules.unfinalize i₁ _ (inr (ns, inr (inl refl), inl (event-path _ gone))),
                    (
                      rules.drop_namespace _ _,
                      (rules.find_namespace _ _, (rules.terminating i _ d, h)),
                    ),
                  )
            | err e ↦
                must-Every (if is_not_found e then ok tt else err e) _ Q _
                  (rules.find_namespace _ _, (rules.terminating i _ d, h))
                  λ u gone saved. saved-Every saved _ (
                    rules.unfinalize i₁ _ (inl (e, forgiven e u gone, inl refl)),
                    (rules.find_namespace _ _, (rules.terminating i _ d, h)),
                  )
          ]
        ])
        (λ _. h)

  pub reconcile-Every :
      (namespace name : String) (o : Oracle) → Every J (run o (reconcile r l namespace name) []).1
  unfolding reconcile
  reconcile-Every namespace name o = AllPaths-run Q (reconcile r l namespace name) o [] (elim [
    | err e ↦ (rules.read namespace name [], tt)
    | ok i ↦
        AllPaths-if Q Q (deleting i) (reconcile_deletion r l i) (reconcile_live r l i) _
          (λ d. reconcile_deletion-Every i _ d (rules.read namespace name [], tt))
          (λ _. reconcile_live-Every i _ ((rules.read namespace name [], tt), refl))
  ])

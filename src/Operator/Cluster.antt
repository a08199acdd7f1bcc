-- ===== src/Operator/Cluster.antt =====
-- Runs of `Reconcile` of internal/operator/controller.go against a cluster that stores what it is
-- given: one ClawInstance, whose status is a subresource, and the names of the namespaces there are. A
-- namespace that is deleted is gone at once.
pub mod Steps
pub mod Prepared
pub mod Convergence
pub mod Running
pub mod Settling
pub mod Ends
use clawbake.Base.{
  ℕ, String, List, [], ◌∷◌, Bool, true, false, ◌&&◌, ◌⊎◌, inl, inr, ◌≡◌, refl, sym, subst, ap, ◌∙◌,
  Option, none, some, is_empty, contains, filter, not, string_eq, ◌==◌, if◌then◌else◌,
}
use clawbake.Api.{Error, Kind, Result, ok, err, ClawInstance}
use clawbake.Kube.{Deployment}
use clawbake.Effects.{
  Call, Response, get_instance, update_instance, update_status, get_namespace, delete_namespace,
  get_deployment, apply_namespace, notify_ready, Prog, pure, return, ask, ◌>>=◌,
}

-- `deployments` is what the cluster says of the deployment of a namespace and a name; `notified` the
-- notifications so far.
pub record Cluster : Type 0 where
  pub stored : Option ClawInstance
  pub namespaces : List String
  pub deployments : String → String → Deployment
  pub notified : List (String × String)

abbrev pub absent : Error
absent = record { kind = Kind.not_found; message = "not found" }

-- The instance is found under its namespace and name.
abbrev pub stored_at : String → String → Option ClawInstance → Result ClawInstance
stored_at namespace name none = err absent
stored_at namespace name (some i) =
    if i.namespace == namespace && i.name == name then ok i else err absent

abbrev pub without : String → List String → List String
without n ns = filter (λ m. not (m == n)) ns

abbrev pub added : String → List String → List String
added n ns = if contains n ns then ns else n ∷ ns

abbrev pub unless_deleted : Option ℕ → ClawInstance → Option ClawInstance
unless_deleted none i = some i
unless_deleted (some t) i = if is_empty i.finalizers then none else some i

-- An update leaves the status; an instance that is being deleted goes with its last finalizer.
abbrev pub after_update : ClawInstance → Option ClawInstance
after_update i = unless_deleted i.deletion_timestamp i

abbrev pub updated : ClawInstance → Option ClawInstance → Result ClawInstance × Option ClawInstance
updated j none = (err absent, none)
updated j (some i) = let k : ClawInstance = record j { status = i.status } in (ok k, after_update k)

abbrev pub status_updated :
    ClawInstance → Option ClawInstance → Result ClawInstance × Option ClawInstance
status_updated j none = (err absent, none)
status_updated j (some i) = let k : ClawInstance = record i { status = j.status } in (ok k, some k)

abbrev pub storing :
    Cluster → Result ClawInstance × Option ClawInstance → Result ClawInstance × Cluster
storing s stored = (stored.0, record s { stored = stored.1 })

-- The answer to a call; `others` answers what the cluster does not store.
abbrev pub serve : ((c : Call) → Response c) → Cluster → (c : Call) → Response c × Cluster
serve others s (get_instance namespace name) = (stored_at namespace name s.stored, s)
serve others s (update_instance j) = storing s (updated j s.stored)
serve others s (update_status j) = storing s (status_updated j s.stored)
serve others s (get_namespace n) =
    (if contains n s.namespaces then ok (record { name = n; labels = [] }) else err absent, s)
serve others s (delete_namespace n) = (ok tt, record s { namespaces = without n.name s.namespaces })
serve others s (get_deployment namespace name) = (ok (s.deployments namespace name), s)
serve others s (apply_namespace n f) =
    (others (apply_namespace n f), record s { namespaces = added n s.namespaces })
serve others s (notify_ready name user) = (tt, record s { notified = (name, user) ∷ s.notified })
serve others s c = (others c, s)

abbrev pub run_in :
    {R A : Type 0} → ((c : Call) → Response c) → Cluster → Prog R A → (R ⊎ A) × Cluster
run_in others s (pure a) = (inr a, s)
run_in others s (return r) = (inl r, s)
run_in others s (ask c k) = let (r, s') = serve others s c in run_in others s' (k r)

-- The program goes on with a value, in a state.
abbrev pub GoesOn :
    {R A : Type 0} → ((c : Call) → Response c) → Cluster → Prog R A → A → Cluster → Type 0
GoesOn {R} {A} others s m a s' = run_in others s m ≡ (inr a, s')

abbrev value_or : {R A : Type 0} → A → R ⊎ A → A
value_or d (inr a) = a
value_or d (inl r) = d

pub run_in-bind :
    {R A B : Type 0} (others : (c : Call) → Response c) (m : Prog R A) (f : A → Prog R B)
    (s s' : Cluster) (a : A)
    → GoesOn others s m a s'
    → run_in others s (m >>= f) ≡ run_in others s' (f a)
run_in-bind others (pure b) f s s' a h = ap (λ p. run_in others p.1 (f (value_or b p.0))) h
run_in-bind others (return r) f s s' a h = cc
run_in-bind others (ask c k) f s s' a h =
    run_in-bind others (k (serve others s c).0) f (serve others s c).1 s' a h

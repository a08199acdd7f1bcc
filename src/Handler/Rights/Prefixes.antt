-- ===== src/Handler/Rights/Prefixes.antt =====
-- The prefixes that the handlers share: the read of one instance, and what follows it.
use clawbake.Base.{String, ◌∷◌, ◌≡◌, refl, inl, inr, string_eq}
use clawbake.Api.{Result, ok, err, ClawInstance}
use clawbake.Database.{User}
use clawbake.Http.{Reply, http_error}
use clawbake.Effects.{Call, Response, get_instance, delete_instance, Trace, Prog, ◌>>=◌, block}
use clawbake.Effects.Paths.{event, event-path, AllPaths, AllPaths-bind}
use clawbake.Handler.{Config, Check, pass, fail, check, or_fail, visible, k8s_delete_instance}
use clawbake.Handler.Rights.{Checked, Allowed, Shown}
use clawbake.Handler.Rights.Steps.{
  or_fail-eq-pass, Bland, or_fail-Bland, visible-Mine, visible-Bland,
}

module _ (h : Config) (u : User) (Keeps : Trace → Type 0)
    (step : (c : Call) (r : Response c) (t : Trace)
      → Allowed h u c t
      → Keeps t
      → Keeps (event c r ∷ t)) where
  -- On every path, every call is allowed and the reply is one that may be shown; a value without a
  -- reply satisfies `Q`.
  abbrev pub GoodTo : {A : Type 0} → (A → Trace → Type 0) → Prog Reply A → Trace → Type 0
  GoodTo Q m t = AllPaths (λ reply s. Keeps s × Shown h u reply s) Q m t

  -- Every path ends in a reply.
  abbrev pub Good : {A : Type 0} → Prog Reply A → Trace → Type 0
  Good m t = GoodTo (λ _ _. ⊥) m t

  pub check-GoodTo :
      {A B : Type 0} (Q : B → Trace → Type 0) (x : Check A) (f : A → Prog Reply B) (t : Trace)
      → Keeps t
      → Bland h u x
      → ((a : A) → x ≡ pass a → GoodTo Q (f a) t)
      → GoodTo Q (check x >>= f) t
  check-GoodTo Q (pass a) f t k b next = next a refl
  check-GoodTo Q (fail reply) f t k b next = (k, b t)

  pub check-last :
      {A : Type 0} (Q : A → Trace → Type 0) (x : Check A) (t : Trace)
      → Keeps t
      → Bland h u x
      → ((a : A) → x ≡ pass a → Q a t)
      → GoodTo Q (check x) t
  check-last Q (pass a) t k b next = next a refl
  check-last Q (fail reply) t k b next = (k, b t)

  pub check-Good :
      {A B : Type 0} (x : Check A) (f : A → Prog Reply B) (t : Trace)
      → Keeps t
      → Bland h u x
      → ((a : A) → x ≡ pass a → Good (f a) t)
      → Good (check x >>= f) t
  check-Good x f t k b next = check-GoodTo (λ _ _. ⊥) x f t k b next

  pub bind-Good :
      {A B : Type 0} (S : A → Trace → Type 0) (m : Prog Reply A) (f : A → Prog Reply B) (t : Trace)
      → GoodTo S m t
      → ((a : A) (s : Trace) → S a s → Good (f a) s)
      → Good (m >>= f) t
  bind-Good S m f t good next =
      AllPaths-bind (λ reply s. Keeps s × Shown h u reply s) S (λ _ _. ⊥) m f t good next

  -- The prefix of the handlers of one instance: it is read, and shown to the user.
  pub fetch-Good :
      {B : Type 0} (id : String) (f : ClawInstance → Unit → Prog Reply B) (t : Trace)
      → Keeps t
      → ((i : ClawInstance) (s : Trace) → Checked h u id i s → Keeps s → Good (f i tt) s)
      → (got : Result ClawInstance)
      → Good
          (check (or_fail (http_error 404 "instance not found") got) >>= λ i.
            check (visible u i) >>= f i)
          (event (get_instance h.kube_namespace id) got ∷ t)
  fetch-Good id f t k next got =
      check-Good (or_fail _ got) _ _ (step (get_instance h.kube_namespace id) got t refl k)
        (or_fail-Bland h u (http_error 404 "instance not found") (λ _. tt) got)
        (λ i found.
          check-Good (visible u i) (f i) _ (step (get_instance h.kube_namespace id) got t refl k)
            (visible-Bland h u i)
            (λ _ seen.
              next i _
                (
                  inl (
                      event-path (get_instance h.kube_namespace id)
                        (or_fail-eq-pass _ got i found)),
                  visible-Mine h u i seen,
                )
                (step (get_instance h.kube_namespace id) got t refl k)))

  -- The second read and the deletion of an instance that was shown to the user.
  pub k8s_delete_instance-Good :
      {B : Type 0} (id : String) (i : ClawInstance) (f : Result Unit → Prog Reply B) (t : Trace)
      → Checked h u id i t
      → Keeps t
      → ((r : Result Unit) (s : Trace) → Keeps s → Good (f r) s)
      → Good (block (k8s_delete_instance h.kube_namespace id) >>= f) t
  unfolding k8s_delete_instance
  k8s_delete_instance-Good id i f t (read, mine) k next = elim [
    | ok j ↦ λ r. next r _ (
        step (delete_instance j) r _ (id, i, (inr read, mine), inl refl)
          (step (get_instance h.kube_namespace id) (ok j) t refl k))
    | err e ↦ next (err e) _ (step (get_instance h.kube_namespace id) (err e) t refl k)
  ]

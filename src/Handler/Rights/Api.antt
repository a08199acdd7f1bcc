-- ===== src/Handler/Rights/Api.antt =====
-- The handlers of internal/handler/instance.go keep to the rights of the user.
use clawbake.Base.{String, ◌∷◌, refl, inl, inr, Option, Text}
use clawbake.Api.{Error, ok, err, ClawInstance}
use clawbake.Database.{User}
use clawbake.Http.{json_instance, Request, Reply, http_error}
use clawbake.Effects.{
  Call, Response, get_instance, list_instances, create_instance, get_defaults, random_hex, Trace,
  Prog, return, ◌>>=◌,
}
use clawbake.Effects.Paths.{event, event-path, Occurs}
use clawbake.Auth.{with_user}
use clawbake.Handler.{Config, or_fail, absent_or_fail}
use clawbake.Handler.Instances.{
  token_of, instance_of, create_from_defaults, list_instances_handler, create_instance_handler,
  get_instance_handler, delete_instance_handler, created_or_fail, read_body,
}
use clawbake.Jsonutil.Template.{Values}
use clawbake.Handler.Rights.{Harmless, Allowed}
use clawbake.Handler.Rights.Steps.{
  read_body-Bland, created_or_fail-eq-pass, listed-Mine, absent_or_fail-Bland, absent-Occurs,
  substitute_values-Bland, override_config-Bland, created_or_fail-Bland, or_fail-Bland,
}
use clawbake.Handler.Rights.Prefixes.{
  Good, check-Good, GoodTo, check-GoodTo, check-last, bind-Good, fetch-Good,
  k8s_delete_instance-Good,
}

module _ (h : Config) (u : User) (Keeps : Trace → Type 0)
    (step : (c : Call) (r : Response c) (t : Trace)
      → Allowed h u c t
      → Keeps t
      → Keeps (event c r ∷ t))
    (request : Request) where
  pub get_instance_handler-Good :
      (t : Trace) → Keeps t → Good h u Keeps step (get_instance_handler h (with_user u request)) t
  unfolding get_instance_handler
  get_instance_handler-Good t k =
      fetch-Good h u Keeps step request.id_param _ t k
        (λ i s seen kept. (kept, inl (request.id_param, seen)))

  pub delete_instance_handler-Good :
      (t : Trace)
      → Keeps t
      → Good h u Keeps step (delete_instance_handler h (with_user u request)) t
  unfolding delete_instance_handler
  delete_instance_handler-Good t k =
      fetch-Good h u Keeps step request.id_param _ t k (λ i s seen kept.
        k8s_delete_instance-Good h u Keeps step request.id_param i _ s seen kept (λ r s' kept'.
          check-Good h u Keeps step (or_fail _ r) _ s' kept'
            (or_fail-Bland h u (http_error 500 "failed to delete instance") (λ _. tt) r)
            (λ _ _. (kept', tt))))

  pub list_instances_handler-Good :
      (t : Trace) → Keeps t → Good h u Keeps step (list_instances_handler h (with_user u request)) t
  unfolding list_instances_handler
  list_instances_handler-Good t k answer =
      let k' = step (list_instances h.kube_namespace) answer t refl k in
      check-Good h u Keeps step (or_fail _ answer) _ _ k'
        (or_fail-Bland h u (http_error 500 "failed to list instances") (λ _. tt) answer)
        (λ is _. (k', listed-Mine h u is))

  -- The instance is the answer of the creation.
  abbrev pub Created : ClawInstance → Trace → Type 0
  Created i s = Keeps s × ((j : ClawInstance) × Occurs (create_instance j) (ok i) s)

  create_from_defaults-Created :
      (float_text : Text → Option Text) (label : String) (values : Text → Values) (over : Text)
      (conflict : Reply) (t : Trace)
      → Harmless h u conflict
      → (e : Error) × Occurs (get_instance h.kube_namespace u.id) (err e) t
      → Keeps t
      → GoodTo h u Keeps step Created
          (create_from_defaults h float_text label values over conflict u)
          t
  unfolding create_from_defaults instance_of
  create_from_defaults-Created float_text label values over conflict t harmless (e, absent) k got =
      let k₁ = step get_defaults got t tt k in
      check-GoodTo h u Keeps step Created (or_fail _ got) _ _ k₁
        (or_fail-Bland h u (http_error 500 "failed to load defaults") (λ _. tt) got)
        (λ defaults _.
          check-GoodTo h u Keeps step Created _ _ _ k₁
            (substitute_values-Bland h u label defaults.gateway_config
              (values defaults.gateway_config))
            (λ substituted _.
              check-GoodTo h u Keeps step Created _ _ _ k₁
                (override_config-Bland h u float_text substituted over)
                (λ config _ random answer.
                  let j = instance_of h.kube_namespace u defaults (token_of random) config in
                  let k₂ = step (random_hex 32) random _ tt k₁ in
                  let k₃ =
                    step (create_instance j) answer _ (refl, refl, refl, (e, inr (inr absent)))
                      k₂ in
                  check-last h u Keeps step Created (created_or_fail conflict answer) _ k₃
                    (created_or_fail-Bland h u conflict harmless answer)
                    (λ i created. (
                      k₃,
                      (
                        j,
                        inl (
                            event-path (create_instance j)
                              (created_or_fail-eq-pass conflict answer i created)),
                      ),
                    )))))

  pub create_from_defaults-Good :
      (float_text : Text → Option Text) (label : String) (values : Text → Values) (over : Text)
      (conflict : Reply) (f : ClawInstance → Prog Reply Reply) (t : Trace)
      → Harmless h u conflict
      → (e : Error) × Occurs (get_instance h.kube_namespace u.id) (err e) t
      → Keeps t
      → ((i : ClawInstance) (s : Trace) → Created i s → Good h u Keeps step (f i) s)
      → Good h u Keeps step (create_from_defaults h float_text label values over conflict u >>= f) t
  create_from_defaults-Good float_text label values over conflict f t harmless absent k next =
      bind-Good h u Keeps step Created
        (create_from_defaults h float_text label values over conflict u) f t
        (create_from_defaults-Created float_text label values over conflict t harmless absent k)
        next

  pub create_instance_handler-Good :
      (float_text : Text → Option Text) (t : Trace)
      → Keeps t
      → Good h u Keeps step (create_instance_handler h float_text (with_user u request)) t
  unfolding create_instance_handler
  create_instance_handler-Good float_text t k existing =
      let k₁ = step (get_instance h.kube_namespace u.id) existing t refl k in
      check-Good h u Keeps step (absent_or_fail _ existing) _ _ k₁
        (absent_or_fail-Bland h u (http_error 409 "instance already exists") (λ _. tt) existing)
        (λ _ absent.
          check-Good h u Keeps step (read_body request) _ _ k₁ (read_body-Bland h u request)
            (λ body _.
              create_from_defaults-Good float_text "missing required placeholder values: "
                (λ _. body.placeholder_values) body.gateway_config_override
                (http_error 409 "instance already exists") (λ i. return (json_instance 201 i)) _
                (λ _. tt)
                (absent-Occurs h.kube_namespace u.id (http_error 409 "instance already exists")
                  existing t absent)
                k₁ (λ i s created. (created.0, inr created.1))))

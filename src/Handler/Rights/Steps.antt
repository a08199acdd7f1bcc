-- ===== src/Handler/Rights/Steps.antt =====
-- How the rights are kept along the steps of a handler.
use clawbake.Base.{
  String, List, [], ◌∷◌, Bool, true, false, not, ◌&&◌, ◌≡◌, refl, inl, inr, Option, none, some,
  Text, All, is_empty, string_eq, ◌==◌, ==_sound, arith, if◌then◌else◌, Bool-cases, All-filter,
}
use clawbake.Api.{Result, ok, err, Error, is_already_exists, ClawInstance}
use clawbake.Database.{User}
use clawbake.Http.{Request, CreateInstanceRequest, Reply, http_error}
use clawbake.Effects.{get_instance, Trace}
use clawbake.Effects.Paths.{event, Occurs}
use clawbake.Handler.{
  Config, Check, pass, fail, or_fail, absent_or_fail, is_admin, visible, admin_or_home,
}
use clawbake.Handler.Instances.{own, created_or_fail, bound_body, read_body}
use clawbake.Handler.Instances.Configure.{
  substitute_values, override_config, checked_config, merged_config,
}
use clawbake.Jsonutil.Json.{valid}
use clawbake.Jsonutil.Template.{
  Values, Outcome, extract_placeholders, missing_names, substitute_placeholders,
}
use clawbake.Jsonutil.Merge.{Merged, merge_json, Validity, validate_template}
use clawbake.Handler.Admin.{valid_or_fail, validity_or_fail, check_defaults}
use clawbake.Handler.Rights.{Mine, Harmless, Shown, Usable}

pub or_fail-eq-pass :
    {A : Type 0} (reply : Reply) (got : Result A) (a : A) → or_fail reply got ≡ pass a → got ≡ ok a
or_fail-eq-pass reply (ok b) a e = cc
or_fail-eq-pass reply (err _) a e = cc

pub absent-Occurs :
    (namespace id : String) (reply : Reply) (got : Result ClawInstance) (t : Trace)
    → absent_or_fail reply got ≡ pass tt
    → (e : Error) × Occurs
        (get_instance namespace id)
        (err e)
        (event (get_instance namespace id) got ∷ t)
absent-Occurs namespace id reply (ok i) t e = cc
absent-Occurs namespace id reply (err e) t _ = (e, inl refl)

pub created_or_fail-eq-pass :
    (conflict : Reply) (got : Result ClawInstance) (i : ClawInstance)
    → created_or_fail conflict got ≡ pass i
    → got ≡ ok i
created_or_fail-eq-pass conflict (ok j) i e = cc
created_or_fail-eq-pass conflict (err _) i e = cc

pub valid_or_fail-eq-pass : (config : Text) → valid_or_fail config ≡ pass tt → valid config ≡ true
valid_or_fail-eq-pass config e = ground (arith, e)

validity_or_fail-eq-pass : (v : Validity) → validity_or_fail v ≡ pass tt → v ≡ Validity.accepted
validity_or_fail-eq-pass Validity.accepted e = refl
validity_or_fail-eq-pass (Validity.not_substituted m) e = cc
validity_or_fail-eq-pass Validity.not_json e = cc

pub check_defaults-Usable : (config : Text) → check_defaults config ≡ pass tt → Usable config
unfolding check_defaults
check_defaults-Usable config e = elim (Bool-cases (is_empty (extract_placeholders config))) [
  | inl plain ↦ inl (valid_or_fail-eq-pass config (ground (arith, e, plain)))
  | inr template ↦
      inr (
        template,
        validity_or_fail-eq-pass (validate_template config) (ground (arith, e, template)),
      )
]

module _ (h : Config) (u : User) where
  -- Where a check ends the handler, its reply is harmless.
  abbrev pub Bland : {A : Type 0} → Check A → Type 0
  Bland (pass a) = Unit
  Bland (fail reply) = Harmless h u reply

  pub or_fail-Bland :
      {A : Type 0} (reply : Reply)
      → Harmless h u reply
      → (got : Result A) → Bland (or_fail reply got)
  or_fail-Bland reply harmless (ok a) = tt
  or_fail-Bland reply harmless (err e) = harmless

  pub absent_or_fail-Bland :
      {A : Type 0} (reply : Reply)
      → Harmless h u reply
      → (got : Result A) → Bland (absent_or_fail reply got)
  absent_or_fail-Bland reply harmless (ok a) = harmless
  absent_or_fail-Bland reply harmless (err e) = tt

  pub if-Bland :
      {A : Type 0} (b : Bool) (x y : Check A) → Bland x → Bland y → Bland (if b then x else y)
  if-Bland true x y p q = p
  if-Bland false x y p q = q

  checked_config-Bland : (o : Outcome) → Bland (checked_config o)
  checked_config-Bland (Outcome.failed m) = λ _. tt
  checked_config-Bland (Outcome.done out) = if-Bland (not (valid out)) _ _ (λ _. tt) tt

  merged_config-Bland : (m : Merged) → Bland (merged_config m)
  merged_config-Bland (Merged.merged out) = tt
  merged_config-Bland Merged.invalid_base = λ _. tt
  merged_config-Bland Merged.invalid_override = λ _. tt
  merged_config-Bland Merged.panicked = λ _. tt

  if-Harmless :
      (b : Bool) (x y : Reply) → Harmless h u x → Harmless h u y → Harmless h u (if b then x else y)
  if-Harmless true x y p q = p
  if-Harmless false x y p q = q

  pub visible-Mine : (i : ClawInstance) → visible u i ≡ pass tt → Mine h u i
  unfolding visible
  visible-Mine i e = elim (Bool-cases (is_admin u)) [
    | inl admin ↦ inl (==_sound u.role "admin" admin)
    | inr other ↦ elim (Bool-cases (i.spec.user_id == u.id)) [
      | inl own ↦ inr (==_sound i.spec.user_id u.id own)
      | inr foreign ↦ absurd (ground (arith, e, other, foreign))
    ]
  ]

  pub visible-Bland : (i : ClawInstance) → Bland (visible u i)
  unfolding visible
  visible-Bland i = if-Bland (not (is_admin u) && not (i.spec.user_id == u.id)) _ _ (λ _. tt) tt

  pub admin_or_home-Bland : Bland (admin_or_home u)
  unfolding admin_or_home
  admin_or_home-Bland = if-Bland (not (is_admin u)) _ _ (λ _. tt) tt

  pub admin_or_home-eq-pass : admin_or_home u ≡ pass tt → u.role ≡ "admin"
  unfolding admin_or_home
  admin_or_home-eq-pass e = elim (Bool-cases (is_admin u)) [
    | inl admin ↦ ==_sound u.role "admin" admin
    | inr other ↦ absurd (ground (arith, e, other))
  ]

  own-Mine : (is : List ClawInstance) → All (Mine h u) (own u is)
  own-Mine =
      All-filter (Mine h u) (λ i. i.spec.user_id == u.id)
        (λ i e. inr (==_sound i.spec.user_id u.id e))

  All-admin : (is : List ClawInstance) → u.role ≡ "admin" → All (Mine h u) is
  All-admin [] e = tt
  All-admin (i ∷ is) e = (inl e, All-admin is e)

  by_role :
      (b : Bool)
      → is_admin u ≡ b
      → (is : List ClawInstance) → All (Mine h u) (if not b then own u is else is)
  by_role true e is = All-admin is (==_sound u.role "admin" e)
  by_role false e is = own-Mine is

  -- The list that is shown: all of it to an administrator, else the user's own.
  pub listed-Mine :
      (is : List ClawInstance) → All (Mine h u) (if not (is_admin u) then own u is else is)
  listed-Mine = by_role (is_admin u) refl

  pub substitute_values-Bland :
      (label : String) (config : Text) (values : Values)
      → Bland (substitute_values label config values)
  unfolding substitute_values
  substitute_values-Bland label config values =
      if-Bland (not (is_empty (extract_placeholders config))) _ _
        (if-Bland (not (is_empty (missing_names values (extract_placeholders config)))) _ _
          (λ _. tt) (checked_config-Bland (substitute_placeholders config values)))
        tt

  pub override_config-Bland :
      (float_text : Text → Option Text) (config over : Text)
      → Bland (override_config float_text config over)
  unfolding override_config
  override_config-Bland float_text config over =
      if-Bland (not (is_empty over)) _ _
        (if-Bland (not (valid over)) _ _ (λ _. tt)
          (merged_config-Bland (merge_json float_text config over)))
        tt

  pub created_or_fail-Bland :
      (conflict : Reply)
      → Harmless h u conflict
      → (got : Result ClawInstance) → Bland (created_or_fail conflict got)
  created_or_fail-Bland conflict harmless (ok i) = tt
  created_or_fail-Bland conflict harmless (err e) =
      if-Harmless (is_already_exists e) conflict (http_error 500 "failed to create instance")
        harmless (λ _. tt)

  pub if-Shown :
      (t : Trace) (b : Bool) (x y : Reply)
      → Shown h u x t
      → Shown h u y t
      → Shown h u (if b then x else y) t
  if-Shown t true x y p q = p
  if-Shown t false x y p q = q

  pub valid_or_fail-Bland : (config : Text) → Bland (valid_or_fail config)
  valid_or_fail-Bland config = if-Bland (not (valid config)) _ _ (λ _. tt) tt

  validity_or_fail-Bland : (v : Validity) → Bland (validity_or_fail v)
  validity_or_fail-Bland Validity.accepted = tt
  validity_or_fail-Bland (Validity.not_substituted m) = λ _. tt
  validity_or_fail-Bland Validity.not_json = λ _. tt

  pub check_defaults-Bland : (config : Text) → Bland (check_defaults config)
  unfolding check_defaults
  check_defaults-Bland config =
      if-Bland (not (is_empty (extract_placeholders config))) _ _
        (validity_or_fail-Bland (validate_template config)) (valid_or_fail-Bland config)

  bound_body-Bland : (body : Option CreateInstanceRequest) → Bland (bound_body body)
  bound_body-Bland (some body) = tt
  bound_body-Bland none = λ _. tt

  pub read_body-Bland : (request : Request) → Bland (read_body request)
  read_body-Bland request = if-Bland request.has_body _ _ (bound_body-Bland request.create_body) tt

-- ===== src/Handler/Instances/Configure/Results.antt =====
-- What a configuration that passes the checks of the creation is.
use clawbake.Base.{
  String, true, Option, Text, ◌≡◌, ◌⊎◌, sym, ◌∙◌, ap, inl, inr, arith, is_empty, Bool-cases,
}
use clawbake.Handler.{Check, pass}
use clawbake.Handler.Instances.Configure.{
  checked_config, substitute_values, merged_config, override_config,
}
use clawbake.Jsonutil.Json.{valid}
use clawbake.Jsonutil.Template.{
  Values, Outcome, extract_placeholders, missing_names, substitute_placeholders,
}
use clawbake.Jsonutil.Merge.{Merged, merge_json}

pass-injective : {A : Type 0} {a b : A} → Check.pass a ≡ pass b → a ≡ b
pass-injective h = cc

checked_config-eq-pass :
    (o : Outcome) (out : Text)
    → checked_config o ≡ pass out
    → (o ≡ Outcome.done out) × (valid out ≡ true)
checked_config-eq-pass (Outcome.failed m) out h = cc
checked_config-eq-pass (Outcome.done t) out h = elim (Bool-cases (valid t)) [
  | inl good ↦ moved t out good (pass-injective (ground (arith, h, good)))
  | inr bad ↦ absurd (ground (arith, h, bad))
]
  where
    moved :
        (t out : Text)
        → valid t ≡ true
        → t ≡ out
        → (Outcome.done t ≡ Outcome.done out) × (valid out ≡ true)
    moved t out good same = (ap Outcome.done same, ap valid (sym same) ∙ good)

-- The template without placeholders, or the valid document that the substitution gives.
abbrev pub Substituted : Text → Values → Text → Type 0
Substituted template values base =
    ((is_empty (extract_placeholders template) ≡ true) × (base ≡ template))
    ⊎ ((substitute_placeholders template values ≡ Outcome.done base) × (valid base ≡ true))

substitute_values-Substituted :
    (label : String) (template : Text) (values : Values) (base : Text)
    → substitute_values label template values ≡ pass base
    → Substituted template values base
unfolding substitute_values
substitute_values-Substituted label template values base h =
    elim (Bool-cases (is_empty (extract_placeholders template))) [
      | inl plain ↦ inl (plain, pass-injective (ground (arith, h, plain)))
      | inr some_names ↦
          elim (Bool-cases (is_empty (missing_names values (extract_placeholders template)))) [
            | inl complete ↦ inr (
                checked_config-eq-pass (substitute_placeholders template values) base
                  (ground (arith, h, some_names, complete)))
            | inr incomplete ↦ absurd (ground (arith, h, some_names, incomplete))
          ]
    ]

merged_config-eq-pass :
    (m : Merged) (out : Text) → merged_config m ≡ pass out → m ≡ Merged.merged out
merged_config-eq-pass (Merged.merged t) out h = cc
merged_config-eq-pass Merged.invalid_base out h = cc
merged_config-eq-pass Merged.invalid_override out h = cc
merged_config-eq-pass Merged.panicked out h = cc

module _ (float_text : Text → Option Text) where
  -- The base where there is no override, or what the merge with a valid override gives.
  abbrev pub Overridden : Text → Text → Text → Type 0
  Overridden base over out =
      ((is_empty over ≡ true) × (out ≡ base))
      ⊎ ((valid over ≡ true) × (merge_json float_text base over ≡ Merged.merged out))

  override_config-Overridden :
      (base over out : Text)
      → override_config float_text base over ≡ pass out
      → Overridden base over out
  unfolding override_config
  override_config-Overridden base over out h = elim (Bool-cases (is_empty over)) [
    | inl empty ↦ inl (empty, sym (pass-injective (ground (arith, h, empty))))
    | inr given ↦ elim (Bool-cases (valid over)) [
      | inl good ↦ inr (
        good,
        merged_config-eq-pass (merge_json float_text base over) out
            (ground (arith, h, given, good)),
      )
      | inr bad ↦ absurd (ground (arith, h, given, bad))
    ]
  ]

  -- Where both checks of a creation pass: the base is the template itself, which then has no
  -- placeholders, or the result of the substitution, which then is a valid document; and the
  -- configuration is the base itself, if there is no override, or the merge of the base with the
  -- override, which then is a valid document.
  pub created_config-Overridden :
      (label : String) (template : Text) (values : Values) (base over out : Text)
      → substitute_values label template values ≡ pass base
      → override_config float_text base over ≡ pass out
      → Substituted template values base × Overridden base over out
  created_config-Overridden label template values base over out h k = (
    substitute_values-Substituted label template values base h,
    override_config-Overridden base over out k,
  )

-- ===== src/Jsonutil/Merge/Documents.antt =====
-- What `ValidateTemplate` of internal/jsonutil accepts, against the grammar of documents.
use clawbake.Base.{
  zero, List, [], ◌∷◌, true, not, ◌≡◌, ◌↔◌, refl, sym, ap, ◌∙◌, ◌⊎◌, inl, inr, if_elim,
  if◌then◌else◌, Text, arith, is_empty, contains, lookup, All-of-contains, text_eq, nat_eq,
}
use clawbake.Jsonutil.Json.{Json}
use clawbake.Jsonutil.Json.Grammar.{IsDocument}
use clawbake.Jsonutil.Json.Reading.{valid_iff}
use clawbake.Jsonutil.Merge.{accepted, not_json, dummy_values, check_result, validate_template}
use clawbake.Jsonutil.Template.{
  Outcome, extract_placeholders, pieces, captures, has_value, render, substitute_placeholders,
}
use clawbake.Jsonutil.Template.Names.{contains-extract_placeholders}
use clawbake.Jsonutil.Template.Rendering.{Covered, substitute_placeholders_iff}

has_dummy :
    (names : List Text) (n : Text)
    → contains n names ≡ true
    → has_value (dummy_values names) n ≡ true
unfolding lookup
has_dummy [] n h = cc
has_dummy (m ∷ ms) n h = ground (arith, h, has_dummy ms n)

dummies_cover : (t : Text) → Covered t (dummy_values (extract_placeholders t))
dummies_cover t =
    All-of-contains _ (captures (pieces zero t))
      (λ n p. has_dummy (extract_placeholders t) n (contains-extract_placeholders n t ∙ p))

-- The template with the dummy value in place of every placeholder.
abbrev pub filled_in : Text → Text
filled_in t = render (dummy_values (extract_placeholders t)) (pieces zero t)

checked : (t : Text) → (check_result (Outcome.done t) ≡ accepted) ↔ ((v : Json) × IsDocument t v)
checked t = (
  (λ h. (valid_iff t).0 (ground (arith, h))),
  (λ d. ap (λ b. if not b then not_json else accepted) ((valid_iff t).1 d)),
)

-- `ValidateTemplate` accepts a template exactly if it has no placeholder, or is a document of the
-- grammar once every placeholder is filled in.
pub validate_template_accepts_iff :
    (t : Text)
    → (validate_template t ≡ accepted)
      ↔ ((is_empty (extract_placeholders t) ≡ true) ⊎ ((v : Json) × IsDocument (filled_in t) v))
unfolding validate_template
validate_template_accepts_iff t =
    if_elim
      (λ o.
        (o ≡ accepted)
        ↔ ((is_empty (extract_placeholders t) ≡ true) ⊎ ((v : Json) × IsDocument (filled_in t) v)))
      (is_empty (extract_placeholders t)) accepted _ (λ e. ((λ h. inl e), (λ h. refl)))
      (λ e. (
        (λ h. inr ((checked (filled_in t)).0 (sym (ap check_result filled) ∙ h))),
        elim [
          | inl plain ↦ absurd (cc (plain, e))
          | inr d ↦ ap check_result filled ∙ (checked (filled_in t)).1 d
        ],
      ))
  where
    filled :
        substitute_placeholders t (dummy_values (extract_placeholders t))
        ≡ Outcome.done (filled_in t)
    filled =
        (substitute_placeholders_iff t (dummy_values (extract_placeholders t)) (filled_in t)).1
          (dummies_cover t, refl)

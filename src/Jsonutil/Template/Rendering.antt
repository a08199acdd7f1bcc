-- ===== src/Jsonutil/Template/Rendering.antt =====
-- `SubstitutePlaceholders`: when it succeeds, and what it then returns.
use mathlib.Core.List.{append_assoc}
use clawbake.Base.{
  zero, List, [], ◌∷◌, ◌++◌, Bool, true, false, not, some, ◌≡◌, ◌↔◌, ap, sym, ◌∙◌, refl, Text,
  contains, All, All-contains, All-of-contains, subst, lookup, is_empty, nat_eq, text_eq, ==_refl,
  arith, if◌then◌else◌,
}
use clawbake.Jsonutil.Strings.{encode_body, read_literal}
use clawbake.Jsonutil.Strings.RoundTrip.{read_literal-encode_body}
use clawbake.Jsonutil.Template.{
  Piece, literal, placeholder, pieces, captures, extract_placeholders, Values, done, failed,
  has_value, missing_names, value_of, render, substitute_placeholders,
}
use clawbake.Jsonutil.Template.Pieces.{unparse, unparse-pieces}
use clawbake.Jsonutil.Template.Names.{contains-extract_placeholders}

-- Every placeholder of the template has a value.
abbrev pub Covered : Text → Values → Type 0
Covered template values = All (λ n. has_value values n ≡ true) (captures (pieces zero template))

no_missing :
    (values : Values) (names : List Text)
    → ((n : Text) → contains n names ≡ true → has_value values n ≡ true)
    → is_empty (missing_names values names) ≡ true
unfolding missing_names
no_missing values [] h = refl
no_missing values (m ∷ ms) h =
    rw (h m (rw (==_refl m) refl)) (no_missing values ms (λ n p. h n (ground arith)))

all_present :
    (values : Values) (names : List Text) (n : Text)
    → is_empty (missing_names values names) ≡ true
    → contains n names ≡ true
    → has_value values n ≡ true
unfolding missing_names
all_present values [] n h p = cc
all_present values (m ∷ ms) n h p = ground (arith, text_eq.decides m n, all_present values ms n)

succeeded :
    (b : Bool) (message : Text) {x out : Text}
    → (if not b then failed message else done x) ≡ done out
    → (b ≡ true) × (x ≡ out)
succeeded true message h = (refl, ground arith)
succeeded false message h = cc

-- A substitution succeeds exactly if every placeholder of the template has a value, and then its
-- result is the template with each placeholder replaced by the encoded value.
pub substitute_placeholders_iff :
    (template : Text) (values : Values) (out : Text)
    → (substitute_placeholders template values ≡ done out)
      ↔ (Covered template values × (render values (pieces zero template) ≡ out))
unfolding substitute_placeholders
substitute_placeholders_iff template values out = (
  (λ h.
      let (e, same) =
        succeeded (is_empty (missing_names values (extract_placeholders template))) _ h in
      (covered e, same)),
  (λ c.
      rw
        (no_missing values (extract_placeholders template) (λ n p.
          All-contains (λ n. has_value values n ≡ true) (captures (pieces zero template)) n c.0
            (sym (contains-extract_placeholders n template) ∙ p)))
        (ap done c.1)),
)
  where
    covered :
        is_empty (missing_names values (extract_placeholders template)) ≡ true
        → Covered template values
    covered e =
        All-of-contains (λ n. has_value values n ≡ true) (captures (pieces zero template))
          (λ n p.
            all_present values (extract_placeholders template) n e
              (contains-extract_placeholders n template ∙ p))

render-unparse :
    (values : Values) (ps : List Piece) → captures ps ≡ [] → render values ps ≡ unparse ps
unfolding render captures
render-unparse values [] h = refl
render-unparse values (literal c ∷ ps) h = ap (λ t. c ∷ t) (render-unparse values ps h)
render-unparse values (placeholder n ∷ ps) h = cc

render-append :
    (values : Values) (ps qs : List Piece)
    → render values (ps ++ qs) ≡ render values ps ++ render values qs
unfolding render
render-append values [] qs = refl
render-append values (literal c ∷ ps) qs = ap (λ t. c ∷ t) (render-append values ps qs)
render-append values (placeholder n ∷ ps) qs =
    rw (render-append values ps qs)
      (sym (append_assoc (encode_body (value_of values n)) (render values ps) (render values qs)))

-- A template with no placeholder is returned as it is, whatever the values.
substitute_without_placeholders :
    (template : Text) (values : Values)
    → captures (pieces zero template) ≡ []
    → substitute_placeholders template values ≡ done template
substitute_without_placeholders template values h =
    (substitute_placeholders_iff template values template).1 (
      subst (All (λ n. has_value values n ≡ true)) (sym h) tt,
      render-unparse values (pieces zero template) h ∙ unparse-pieces template,
    )

-- Where a placeholder stands between quotes, the literal in the result reads back as the value that
-- was given for it, and what follows the literal is the rest of the template: a value cannot leave
-- its quotes.
pub quoted_value_reads_back :
    (template : Text) (values : Values) (before after : List Piece) (n v out : Text)
    → pieces zero template ≡ before ++ (literal b'"' ∷ placeholder n ∷ literal b'"' ∷ after)
    → lookup n values ≡ some v
    → substitute_placeholders template values ≡ done out
    → (rest : Text) × (out ≡ render values before ++ (b'"' ∷ rest))
      × (read_literal rest ≡ some (v, render values after))
unfolding render
quoted_value_reads_back template values before after n v out shape found h = (
  encode_body v ++ (b'"' ∷ render values after),
  sym ((substitute_placeholders_iff template values out).0 h).1
      ∙ ap (render values) shape
      ∙ render-append values before _
      ∙ quoted,
  read_literal-encode_body v (render values after),
)
  where
    value : value_of values n ≡ v
    value = rw (found, value_of)

    quoted :
        render values before ++ render values (literal b'"' ∷ placeholder n ∷ literal b'"' ∷ after)
        ≡ render values before ++ (b'"' ∷ (encode_body v ++ (b'"' ∷ render values after)))
    quoted =
        ap (λ w. render values before ++ (b'"' ∷ (encode_body w ++ (b'"' ∷ render values after))))
          value

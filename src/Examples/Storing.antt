-- ===== src/Examples/Storing.antt =====
-- A configuration that is stored, where every number is written as 0.
use clawbake.Base.{
  ℕ, [], ◌∷◌, true, Bool-cases, ◌||◌, inl, inr, ◌≡◌, refl, sym, subst, Option, some, Text, codes,
  nat_eq, ◌==◌, ==_sound, arith, is_empty,
}
use clawbake.Handler.{pass}
use clawbake.Handler.Instances.Configure.{override_config}
use clawbake.Handler.Instances.Configure.Stored.{created_config_is_a_document}
use clawbake.Jsonutil.Strings.{
  encode_char, short_escape, needs_hex, encode_body, read_literal, scan_literal, step, unescape,
  hex_value, combine,
}
use clawbake.Jsonutil.Json.{Json, number, parse, valid, start, skip_space, read_atom}
use clawbake.Jsonutil.Json.Grammar.{IsDocument, atom}
use clawbake.Jsonutil.Merge.{merge_value, deep_merge, marshal, unmarshal_map, merge_json, decode}
use clawbake.Jsonutil.Merge.Written.{Written}
use clawbake.Jsonutil.Template.{
  extract_placeholders, pieces, match_at, span_name, captures, first_seen, sort, insert_sorted,
  text_leb,
}
use clawbake.Examples.Configuring.{template, the_values, rendered, the_override, values_put_in}

abbrev zeros : Text → Option Text
zeros t = some (codes "0")

abbrev ReadsZero : ℕ → Text → Type 0
ReadsZero c t = read_atom (b'0' ∷ c ∷ t) ≡ some (number (codes "0"), c ∷ t)

before_comma : (t : Text) → ReadsZero b',' t
unfolding read_atom
before_comma [] = refl
before_comma (d ∷ t) = refl

before_bracket : (t : Text) → ReadsZero b']' t
unfolding read_atom
before_bracket [] = refl
before_bracket (d ∷ t) = refl

before_brace : (t : Text) → ReadsZero b'}' t
unfolding read_atom
before_brace [] = refl
before_brace (d ∷ t) = refl

zero_read : (c : ℕ) (t : Text) → (c == b',' || c == b']' || c == b'}') ≡ true → ReadsZero c t
zero_read c t h = elim (Bool-cases (c == b',')) [
  | inl e ↦ subst (λ d. ReadsZero d t) (sym (==_sound c b',' e)) (before_comma t)
  | inr a ↦ elim (Bool-cases (c == b']')) [
    | inl e ↦ subst (λ d. ReadsZero d t) (sym (==_sound c b']' e)) (before_bracket t)
    | inr b ↦
        subst (λ d. ReadsZero d t) (sym (==_sound c b'}' (ground (arith, h, a, b))))
          (before_brace t)
  ]
]

zero-Written : Written (codes "0")
unfolding start skip_space read_atom
zero-Written [] d = (number (codes "0"), atom _ (codes "0") [] (number (codes "0")) refl refl)
zero-Written (c ∷ t) d =
    (number (codes "0"), atom _ (b'0' ∷ c ∷ t) (c ∷ t) (number (codes "0")) refl (zero_read c t d))

abbrev stored : Text
stored = codes "{\"k\":\"a\\\"b\",\"x\":[0]}"

merged_in : override_config zeros rendered the_override ≡ pass stored
unfolding override_config merge_json unmarshal_map decode parse read_literal scan_literal step
    unescape hex_value combine valid deep_merge merge_value marshal encode_body encode_char
    short_escape needs_hex text_leb
merged_in = refl

has_placeholder : is_empty (extract_placeholders template) ≡ true → valid template ≡ true
unfolding extract_placeholders pieces match_at span_name captures first_seen sort insert_sorted
    text_leb
has_placeholder h = cc

created_config_is_a_document_example : (v : Json) × IsDocument stored v
created_config_is_a_document_example =
    created_config_is_a_document zeros "missing: " template the_values rendered the_override stored
      (λ l l' e. subst Written {x = codes "0"} (cc) zero-Written) has_placeholder values_put_in
      merged_in

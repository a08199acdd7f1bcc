-- ===== src/Examples/Configuring.antt =====
-- Templates and documents.
use clawbake.Base.{
  contains, none, if◌then◌else◌, ◌==◌, text_eq, is_empty, true, ◌⊎◌, zero, [], ◌∷◌, List, ◌++◌, ◌≡◌,
  ◌↔◌, inl, inr, refl, some, Option, Text, codes, lookup, text_eq,
}
use clawbake.Jsonutil.Strings.{
  encode_char, short_escape, needs_hex, encode_body, read_literal, scan_literal, step, unescape,
  hex_value, combine,
}
use clawbake.Jsonutil.Json.{Fields, number, object, end, field, parse, valid}
use clawbake.Handler.{pass}
use clawbake.Handler.Instances.Configure.{substitute_values, override_config}
use clawbake.Jsonutil.Template.{
  Piece, literal, placeholder, pieces, captures, extract_placeholders, Values, done, render,
  substitute_placeholders, match_at, span_name, first_seen, sort, insert_sorted, text_leb,
  missing_names,
}
use clawbake.Jsonutil.Template.Names.{IsStrict, extract_placeholders_lists}
use clawbake.Jsonutil.Template.Rendering.{
  Covered, substitute_placeholders_iff, quoted_value_reads_back,
}
use clawbake.Jsonutil.Json.{Json}
use clawbake.Jsonutil.Json.Grammar.{IsDocument}
use clawbake.Jsonutil.Merge.{accepted, validate_template}
use clawbake.Jsonutil.Merge.Documents.{filled_in, validate_template_accepts_iff}
use clawbake.Jsonutil.Merge.{
  merge_value, deep_merge, marshal, panicked, invalid_override, unmarshal_map, merge_json, decode,
}
use clawbake.Jsonutil.Merge.Lookup.{override_wins, kept_by_deep_merge, at_path}
use clawbake.Jsonutil.Merge.Results.{IsPanic, merge_json-panics_iff}

abbrev pub template : Text
template = codes "{\"k\":\"{{KEY}}\"}"

abbrev pub the_values : Values
the_values = (codes "KEY", codes "a\"b") ∷ []

abbrev pub rendered : Text
rendered = codes "{\"k\":\"a\\\"b\"}"

abbrev float_text : Text → Option Text
float_text t = some t

substitutes : substitute_placeholders template the_values ≡ done rendered
unfolding substitute_placeholders extract_placeholders pieces match_at span_name first_seen sort
    insert_sorted text_leb missing_names lookup render encode_body captures encode_char short_escape
    needs_hex
substitutes = refl

substitute_placeholders_iff_example :
    (substitute_placeholders template the_values ≡ done rendered)
    ↔ (Covered template the_values × (render the_values (pieces zero template) ≡ rendered))
substitute_placeholders_iff_example = substitute_placeholders_iff template the_values rendered

no_captures : captures (pieces zero (codes "{{key}}")) ≡ []
unfolding pieces match_at span_name captures
no_captures = refl

abbrev pieces_before : List Piece
pieces_before = literal b'{' ∷ literal b'"' ∷ literal b'k' ∷ literal b'"' ∷ literal b':' ∷ []

shape :
    pieces zero template
    ≡ pieces_before ++ (literal b'"' ∷ placeholder (codes "KEY") ∷ literal b'"' ∷ literal b'}' ∷ [])
unfolding pieces match_at span_name
shape = refl

found : lookup (codes "KEY") the_values ≡ some (codes "a\"b")
unfolding lookup
found = refl

quoted_value_reads_back_example :
    (rest : Text) × (rendered ≡ render the_values pieces_before ++ (b'"' ∷ rest))
    × (read_literal rest ≡ some (codes "a\"b", render the_values (literal b'}' ∷ [])))
quoted_value_reads_back_example =
    quoted_value_reads_back template the_values pieces_before (literal b'}' ∷ []) (codes "KEY")
      (codes "a\"b") rendered shape found substitutes

-- {"a":{"x":1,"y":2},"b":3} and {"a":{"y":4}}
abbrev inner_base : Fields
inner_base = field (codes "x") (number (codes "1")) (field (codes "y") (number (codes "2")) end)

abbrev inner_over : Fields
inner_over = field (codes "y") (number (codes "4")) end

abbrev base : Fields
base = field (codes "a") (object inner_base) (field (codes "b") (number (codes "3")) end)

abbrev over : Fields
over = field (codes "a") (object inner_over) end

override_wins_example :
    at_path (codes "a" ∷ codes "y" ∷ []) (object (deep_merge base over)) ≡ some (number (codes "4"))
override_wins_example =
    override_wins (codes "a" ∷ codes "y" ∷ []) base over (number (codes "4"))
      ((refl, tt), ((refl, tt), tt)) refl (λ leaf. leaf)

kept_by_deep_merge_example :
    at_path (codes "a" ∷ codes "x" ∷ []) (object (deep_merge base over))
    ≡ at_path (codes "a" ∷ codes "x" ∷ []) (object base)
kept_by_deep_merge_example =
    kept_by_deep_merge (codes "a" ∷ codes "x" ∷ []) base over ((refl, tt), ((refl, tt), tt))
      (inr (inner_base, inner_over, refl, refl, inl refl))

merge_json-panics_iff_example :
    (merge_json float_text (codes "null") (codes "{\"a\":1}") ≡ panicked)
    ↔ IsPanic float_text
        (unmarshal_map float_text (codes "null"))
        (unmarshal_map float_text (codes "{\"a\":1}"))
merge_json-panics_iff_example = merge_json-panics_iff float_text (codes "null") (codes "{\"a\":1}")

-- A base that is `null` makes the merge panic.
panics : merge_json float_text (codes "null") (codes "{\"a\":1}") ≡ panicked
unfolding merge_json unmarshal_map decode parse read_literal scan_literal step unescape hex_value
    combine
panics = refl

base_read : unmarshal_map float_text (codes "{\"a\":{\"x\":1,\"y\":2},\"b\":3}") ≡ some (some base)
unfolding unmarshal_map decode parse read_literal scan_literal step unescape hex_value combine
base_read = refl

over_read : unmarshal_map float_text (codes "{\"a\":{\"y\":4}}") ≡ some (some over)
unfolding unmarshal_map decode parse read_literal scan_literal step unescape hex_value combine
over_read = refl

abbrev pub the_override : Text
the_override = codes "{\"x\":[1]}"

abbrev configured : Text
configured = codes "{\"k\":\"a\\\"b\",\"x\":[1]}"

pub values_put_in : substitute_values "missing: " template the_values ≡ pass rendered
unfolding substitute_values substitute_placeholders extract_placeholders pieces match_at span_name
    first_seen sort insert_sorted text_leb missing_names lookup render encode_body captures
    encode_char short_escape needs_hex valid parse read_literal scan_literal step unescape hex_value
    combine
values_put_in = refl

override_merged : override_config float_text rendered the_override ≡ pass configured
unfolding override_config merge_json unmarshal_map decode parse read_literal scan_literal step
    unescape hex_value combine valid deep_merge merge_value marshal encode_body encode_char
    short_escape needs_hex text_leb
override_merged = refl

-- A float64 that holds every number but one.
abbrev bounded_text : Text → Option Text
bounded_text t = if t == codes "1e999" then none else some t

-- A number out of range is refused, also where a later field of its key would replace it.
range_checked :
    merge_json bounded_text (codes "null") (codes "{\"a\":1e999,\"a\":1}") ≡ invalid_override
unfolding merge_json unmarshal_map decode parse read_literal scan_literal step unescape hex_value
    combine
range_checked = refl

validate_template_accepts_iff_example : (validate_template template ≡ accepted) ↔ (
    (is_empty (extract_placeholders template) ≡ true)
    ⊎ ((v : Json) × IsDocument (filled_in template) v))
validate_template_accepts_iff_example = validate_template_accepts_iff template

extract_placeholders_lists_example :
    ((n : Text)
      → contains n (extract_placeholders template) ≡ contains n (captures (pieces zero template)))
    × IsStrict (extract_placeholders template)
extract_placeholders_lists_example = extract_placeholders_lists template

-- ===== src/Jsonutil/Json/Grammar/Completeness.antt =====
-- The reader of documents against the grammar: from a derivation to a run.
use clawbake.Base.{◌+◌, ◌≤◌, ◌≡◌, ap, ◌∙◌, none, some, Text, length, arith, nat_eq}
use clawbake.Jsonutil.Json.{
  Json, string, array, object, Items, nil, item, Fields, end, field, opens_object, opens_array,
  opens_string, other, read_atom, closing_brace, closing_bracket, closed_or, rest_or, and_read,
  with_string, read_value, read_items, read_fields,
}
use clawbake.Jsonutil.Json.Grammar.{
  IsValue, IsItems, IsFields, empty_object, full_object, empty_array, full_array, literal, atom,
  last_item, more_items, last_field, more_fields,
}
use clawbake.Jsonutil.Json.Grammar.Lexemes.{started, read_atom-Leaves, read_literal-Leaves}
use clawbake.Jsonutil.Strings.{read_literal}
use clawbake.Jsonutil.Json.Grammar.Beginnings.{
  fields-unclosed, items-unclosed, bracket_no_comma, brace_no_comma,
}
use clawbake.Jsonutil.Json.Grammar.Fuel.{
  Taken, eaten, value_by_start, object-Taken, array-Taken, left_by, items-Taken, fields-Taken,
}

items-unclosed_of :
    (t : Text) (vs : Items) (rest : Text) → IsItems t vs rest → closing_bracket t ≡ none
items-unclosed_of t _ rest (last_item _ r _ v h c) = items-unclosed t v r h
items-unclosed_of t _ rest (more_items _ r more _ v vs h c hs) = items-unclosed t v r h

fields-unclosed_of :
    (t : Text) (fs : Fields) (rest : Text) → IsFields t fs rest → closing_brace t ≡ none
fields-unclosed_of t _ rest (last_field _ k colon r _ v key h c) = fields-unclosed t (k, colon) key
fields-unclosed_of t _ rest (more_fields _ k colon r more _ v fs key h c hs) =
    fields-unclosed t (k, colon) key

mutual
  pub IsValue-Taken :
      (t : Text) (v : Json) (rest : Text) → IsValue t v rest → Taken read_value t v rest
  IsValue-Taken t _ rest' (empty_object _ rest _ e c) =
      let here : length rest + 1 ≤ length t = started t (opens_object rest) e in
      value_by_start t (opens_object rest) (object end) rest' e
        (omega (arith, eaten b'}' rest rest' c, here))
        (λ m le. ap (λ o. closed_or (object end) object o (read_fields m rest)) c)
  IsValue-Taken t _ rest' (full_object _ rest _ fs e h) =
      object-Taken t rest rest' fs e (fields-unclosed_of rest fs rest' h)
        (IsFields-Taken rest fs rest' h)
  IsValue-Taken t _ rest' (empty_array _ rest _ e c) =
      let here : length rest + 1 ≤ length t = started t (opens_array rest) e in
      value_by_start t (opens_array rest) (array nil) rest' e
        (omega (arith, eaten b']' rest rest' c, here))
        (λ m le. ap (λ o. closed_or (array nil) array o (read_items m rest)) c)
  IsValue-Taken t _ rest' (full_array _ rest _ vs e h) =
      array-Taken t rest rest' vs e (items-unclosed_of rest vs rest' h)
        (IsItems-Taken rest vs rest' h)
  IsValue-Taken t _ rest' (literal _ rest _ s e c) =
      let here : length rest + 1 ≤ length t = started t (opens_string rest) e in
      value_by_start t (opens_string rest) (string s) rest' e
        (omega (
          arith,
          here,
          left_by (length rest) (read_literal rest) s rest' c (read_literal-Leaves rest),
        ))
        (λ m le. ap with_string c)
  IsValue-Taken t v rest' (atom _ rest _ _ e c) =
      let here : length rest ≤ length t = started t (other rest) e in
      value_by_start t (other rest) v rest' e
        (omega
          (arith, here, left_by (length rest) (read_atom rest) v rest' c (read_atom-Leaves rest)))
        (λ m le. c)

  IsItems-Taken :
      (t : Text) (vs : Items) (rest : Text) → IsItems t vs rest → Taken read_items t vs rest
  IsItems-Taken t _ rest' (last_item _ rest _ v h c) =
      items-Taken t rest v (item v nil) rest' (IsValue-Taken t v rest h) (eaten b']' rest rest' c)
        (λ m le.
          ap
            (λ o.
              rest_or (item v) (item v nil) o (closing_bracket rest)
                (and_read (λ r. read_items m r) o))
            (bracket_no_comma rest rest' c)
          ∙ ap (λ o. rest_or (item v) (item v nil) none o none) c)
  IsItems-Taken t _ rest' (more_items _ rest more _ v vs h c hs) =
      let tail = IsItems-Taken more vs rest' hs in
      let behind = eaten b',' rest more c in
      items-Taken t rest v (item v vs) rest' (IsValue-Taken t v rest h)
        (omega (arith, behind, tail.0))
        (λ m le.
          ap
            (λ o.
              rest_or (item v) (item v nil) o (closing_bracket rest)
                (and_read (λ r. read_items m r) o))
            c
          ∙ ap (λ o. rest_or (item v) (item v nil) (some more) (closing_bracket rest) o)
              (tail.1 m (omega (arith, le, behind))))

  IsFields-Taken :
      (t : Text) (fs : Fields) (rest : Text) → IsFields t fs rest → Taken read_fields t fs rest
  IsFields-Taken t _ rest' (last_field _ k colon rest _ v key h c) =
      fields-Taken t k colon rest v (field k v end) rest' key (IsValue-Taken colon v rest h)
        (eaten b'}' rest rest' c)
        (λ m le.
          ap
            (λ o.
              rest_or (field k v) (field k v end) o (closing_brace rest)
                (and_read (λ r. read_fields m r) o))
            (brace_no_comma rest rest' c)
          ∙ ap (λ o. rest_or (field k v) (field k v end) none o none) c)
  IsFields-Taken t _ rest' (more_fields _ k colon rest more _ v fs key h c hs) =
      let tail = IsFields-Taken more fs rest' hs in
      let behind = eaten b',' rest more c in
      fields-Taken t k colon rest v (field k v fs) rest' key (IsValue-Taken colon v rest h)
        (omega (arith, behind, tail.0))
        (λ m le.
          ap
            (λ o.
              rest_or (field k v) (field k v end) o (closing_brace rest)
                (and_read (λ r. read_fields m r) o))
            c
          ∙ ap (λ o. rest_or (field k v) (field k v end) (some more) (closing_brace rest) o)
              (tail.1 m (omega (arith, le, behind))))

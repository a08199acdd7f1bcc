-- ===== src/Jsonutil/Json/Reading.antt =====
-- The reader of documents against the grammar.
use clawbake.Base.{
  ℕ, suc, ◌≤◌, Bool, true, false, Bool-cases, ◌≡◌, ◌↔◌, sym, ap, ◌∙◌, inl, inr, Option, none, some,
  Option-cases, if◌then◌else◌, Text, length, arith, is_empty,
}
use clawbake.Jsonutil.Json.{Json, skip_space, at_end, read_value, parse, valid}
use clawbake.Jsonutil.Json.Grammar.{IsDocument}
use clawbake.Jsonutil.Json.Grammar.Soundness.{read_value-IsValue}
use clawbake.Jsonutil.Json.Grammar.Completeness.{IsValue-Taken}

at_end-some :
    (o : Option (Json × Text)) (v : Json)
    → at_end o ≡ some v
    → (rest : Text) × (o ≡ some (v, rest)) × (is_empty (skip_space rest) ≡ true)
at_end-some none v h = absurd (cc)
at_end-some (some (w, rest)) v h = elim (Bool-cases (is_empty (skip_space rest))) [
  | inl e ↦ (rest, ground (arith, h, e), e)
  | inr e ↦ absurd (ground (arith, h, e))
]

-- What any fuel reads, every fuel from the length of the text on reads.
read_value-settled :
    (n m : ℕ) (t : Text) (v : Json) (rest : Text)
    → read_value n t ≡ some (v, rest)
    → length t ≤ m
    → read_value m t ≡ some (v, rest)
read_value-settled n m t v rest h le =
    (IsValue-Taken t v rest (read_value-IsValue n t v rest h)).1 m (omega (arith, le))

-- More fuel than the text has characters changes nothing.
read_value-enough :
    (n m : ℕ) (t : Text) → length t ≤ n → length t ≤ m → read_value n t ≡ read_value m t
read_value-enough n m t hn hm = elim (Option-cases (read_value n t)) [
  | inl nothing ↦ elim (Option-cases (read_value m t)) [
    | inl e ↦ nothing ∙ sym e
    | inr ((v, rest), e) ↦ absurd (cc (nothing, read_value-settled m n t v rest e hn))
  ]
  | inr ((v, rest), e) ↦ e ∙ sym (read_value-settled n m t v rest e hm)
]

pub parse_iff : (t : Text) (v : Json) → (parse t ≡ some v) ↔ IsDocument t v
unfolding parse
parse_iff t v = (reads, read)
  where
    reads : at_end (read_value (suc (length t)) t) ≡ some v → IsDocument t v
    reads h =
        let (rest, e, ends) = at_end-some (read_value (suc (length t)) t) v h in
        (rest, read_value-IsValue (suc (length t)) t v rest e, ends)

    read : IsDocument t v → at_end (read_value (suc (length t)) t) ≡ some v
    read (rest, value, ends) =
        ap at_end ((IsValue-Taken t v rest value).1 (suc (length t)) (omega arith))
        ∙ ap (λ b. if b then some v else none) ends

pub valid_iff : (t : Text) → (valid t ≡ true) ↔ ((v : Json) × IsDocument t v)
unfolding valid
valid_iff t = (documents, accepts)
  where
    documents : valid t ≡ true → (v : Json) × IsDocument t v
    documents h = elim (Option-cases (parse t)) [
      | inl e ↦ absurd (cc (h, ap (λ o. elim o as (λ _. Bool) [ none ↦ false | some v ↦ true ]) e))
      | inr (v, e) ↦ (v, (parse_iff t v).0 e)
    ]

    accepts : ((v : Json) × IsDocument t v) → valid t ≡ true
    accepts (v, d) =
        ap (λ (o : Option Json). elim o as (λ _. Bool) [ none ↦ false | some v ↦ true ])
          ((parse_iff t v).1 d)

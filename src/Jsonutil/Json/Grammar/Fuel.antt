-- ===== src/Jsonutil/Json/Grammar/Fuel.antt =====
-- The fuel that each step of the reader needs: what the text that it takes has characters.
use clawbake.Base.{
  ℕ, zero, suc, ◌+◌, ◌≤◌, [], ◌∷◌, ◌≡◌, subst, ap, ◌∙◌, Option, none, some, Text, length, arith,
  nat_eq,
}
use clawbake.Base.Options.{◌>>=◌}
use clawbake.Jsonutil.Json.{
  Json, array, object, Items, nil, item, Fields, end, field, Start, opens_object, opens_array,
  start, skip_space, eat, read_key, closing_brace, closing_bracket, comma, closed_or, rest_or,
  and_read, from_start, read_value, read_items, read_fields,
}
use clawbake.Jsonutil.Json.Grammar.Sizes.{Left, Leaves, eaten-Left}
use clawbake.Jsonutil.Json.Grammar.Lexemes.{started, read_key-Leaves}

-- A reader takes something, and with as much fuel as it takes characters it reads this.
abbrev pub Taken : {A : Type 0} → (ℕ → Text → Option (A × Text)) → Text → A → Text → Type 0
Taken read t a rest =
    (length rest + 1 ≤ length t)
    × ((m : ℕ) → length t ≤ m + length rest → read m t ≡ some (a, rest))

pub eaten :
    (p : ℕ) (t rest : Text) → eat (p ∷ []) (skip_space t) ≡ some rest → length rest + 1 ≤ length t
eaten p t rest e = subst (Left 1 (length t)) e (eaten-Left p t)

-- With one unit of fuel for the value, the rest goes to the reader behind its start.
pub value_by_start :
    (t : Text) (s : Start) (v : Json) (rest : Text)
    → start (skip_space t) ≡ s
    → length rest + 1 ≤ length t
    → ((m : ℕ)
        → length t ≤ suc m + length rest
        → from_start (read_fields m) (read_items m) s ≡ some (v, rest))
    → Taken read_value t v rest
unfolding read_value
value_by_start t s v rest e size reads = (size, fueled)
  where
    fueled : (m : ℕ) → length t ≤ m + length rest → read_value m t ≡ some (v, rest)
    fueled zero le = absurd (omega (arith, le, size))
    fueled (suc m) le = ap (from_start (read_fields m) (read_items m)) e ∙ reads m le

-- A bracket, what is between, and the closing bracket that is there or not.
pub object-Taken :
    (t rest rest' : Text) (fs : Fields)
    → start (skip_space t) ≡ opens_object rest
    → closing_brace rest ≡ none
    → Taken read_fields rest fs rest'
    → Taken read_value t (object fs) rest'
object-Taken t rest rest' fs e unclosed (size, reads) =
    let here : length rest + 1 ≤ length t = started t (opens_object rest) e in
    value_by_start t (opens_object rest) (object fs) rest' e (omega (arith, size, here)) λ m le.
      ap (λ c. closed_or (object end) object c (read_fields m rest)) unclosed
      ∙ ap (λ o. closed_or (object end) object none o) (reads m (omega (arith, le, here)))

pub array-Taken :
    (t rest rest' : Text) (vs : Items)
    → start (skip_space t) ≡ opens_array rest
    → closing_bracket rest ≡ none
    → Taken read_items rest vs rest'
    → Taken read_value t (array vs) rest'
array-Taken t rest rest' vs e unclosed (size, reads) =
    let here : length rest + 1 ≤ length t = started t (opens_array rest) e in
    value_by_start t (opens_array rest) (array vs) rest' e (omega (arith, size, here)) λ m le.
      ap (λ c. closed_or (array nil) array c (read_items m rest)) unclosed
      ∙ ap (λ o. closed_or (array nil) array none o) (reads m (omega (arith, le, here)))

pub left_by :
    {A : Type 0} (n : ℕ) (o : Option (A × Text)) (a : A) (rest : Text)
    → o ≡ some (a, rest)
    → Leaves 1 n o
    → length rest + 1 ≤ n
left_by n o a rest e h = subst (Leaves 1 n) e h

-- A value with the element readers behind it.
pub items-Taken :
    (t rest : Text) (v : Json) (vs : Items) (rest' : Text)
    → Taken read_value t v rest
    → length rest' + 1 ≤ length rest
    → ((m : ℕ)
        → length rest ≤ m + length rest'
        → rest_or
            (item v)
            (item v nil)
            (comma rest)
            (closing_bracket rest)
            (and_read (λ r. read_items m r) (comma rest))
          ≡ some (vs, rest'))
    → Taken read_items t vs rest'
unfolding read_value
items-Taken t rest v vs rest' (size, reads) shorter behind = (omega (arith, size, shorter), fueled)
  where
    fueled : (m : ℕ) → length t ≤ m + length rest' → read_items m t ≡ some (vs, rest')
    fueled zero le = absurd (omega (arith, le, size, shorter))
    fueled (suc m) le =
        ap
          (λ (o : Option (Json × Text)). o >>= λ w.
            rest_or (item w.0) (item w.0 nil) (comma w.1) (closing_bracket w.1)
              (and_read (λ r. read_items m r) (comma w.1)))
          (reads m (omega (arith, le, shorter)))
        ∙ behind m (omega (arith, le, size))

pub fields-Taken :
    (t k colon rest : Text) (v : Json) (fs : Fields) (rest' : Text)
    → read_key t ≡ some (k, colon)
    → Taken read_value colon v rest
    → length rest' + 1 ≤ length rest
    → ((m : ℕ)
        → length rest ≤ m + length rest'
        → rest_or
            (field k v)
            (field k v end)
            (comma rest)
            (closing_brace rest)
            (and_read (λ r. read_fields m r) (comma rest))
          ≡ some (fs, rest'))
    → Taken read_fields t fs rest'
unfolding read_value
fields-Taken t k colon rest v fs rest' key (size, reads) shorter behind =
    (omega (arith, size, shorter, keyed), fueled)
  where
    keyed : length colon + 1 ≤ length t
    keyed = left_by (length t) (read_key t) k colon key (read_key-Leaves t)

    fueled : (m : ℕ) → length t ≤ m + length rest' → read_fields m t ≡ some (fs, rest')
    fueled zero le = absurd (omega (arith, le, size, shorter, keyed))
    fueled (suc m) le =
        ap
          (λ (o : Option (Text × Text)). o >>= λ w. read_value m w.1 >>= λ u.
            rest_or (field w.0 u.0) (field w.0 u.0 end) (comma u.1) (closing_brace u.1)
              (and_read (λ r. read_fields m r) (comma u.1)))
          key
        ∙ ap
            (λ (o : Option (Json × Text)). o >>= λ u.
              rest_or (field k u.0) (field k u.0 end) (comma u.1) (closing_brace u.1)
                (and_read (λ r. read_fields m r) (comma u.1)))
            (reads m (omega (arith, le, shorter, keyed)))
        ∙ behind m (omega (arith, le, size, keyed))

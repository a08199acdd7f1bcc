-- ===== src/Jsonutil/Json/Grammar/Soundness.antt =====
-- The reader of documents against the grammar: from a run to a derivation.
use clawbake.Base.{
  ℕ, zero, suc, ◌≡◌, refl, sym, subst, ap, ◌∙◌, Option, none, some, ◌⊎◌, inl, inr, Text,
}
use clawbake.Base.Options.{◌>>=◌}
use clawbake.Jsonutil.Json.{
  Json, string, array, object, Items, nil, item, Fields, end, field, Start, opens_object,
  opens_array, opens_string, other, start, skip_space, read_key, closing_brace, closing_bracket,
  comma, closed_or, rest_or, and_read, with_string, from_start, read_value, read_items, read_fields,
}
use clawbake.Jsonutil.Json.Grammar.{
  IsValue, IsItems, IsFields, empty_object, full_object, empty_array, full_array, literal, atom,
  last_item, more_items, last_field, more_fields,
}
use clawbake.Jsonutil.Strings.{read_literal}

pub bind-some :
    {A B : Type 0} (o : Option A) (f : A → Option B) (b : B)
    → (o >>= f) ≡ some b
    → (a : A) × (o ≡ some a) × (f a ≡ some b)
bind-some none f b h = absurd (cc)
bind-some (some a) f b h = (a, refl, h)

closed_or-some :
    {A : Type 0} (empty : Json) (full : A → Json) (close : Option Text) (read : Option (A × Text))
    (v : Json) (rest : Text)
    → closed_or empty full close read ≡ some (v, rest)
    → ((close ≡ some rest) × (empty ≡ v)) ⊎ ((a : A) × (read ≡ some (a, rest)) × (full a ≡ v))
closed_or-some empty full (some r) read v rest h = inl (cc, cc)
closed_or-some empty full none none v rest h = absurd (cc)
closed_or-some empty full none (some (a, r)) v rest h = inr (a, cc, cc)

rest_or-some :
    {A : Type 0} (add : A → A) (last : A) (behind close : Option Text) (more : Option (A × Text))
    (a : A) (rest : Text)
    → rest_or add last behind close more ≡ some (a, rest)
    → ((close ≡ some rest) × (last ≡ a))
      ⊎ ((t : Text) × (b : A) × (behind ≡ some t) × (more ≡ some (b, rest)) × (add b ≡ a))
rest_or-some add last none none more a rest h = absurd (cc)
rest_or-some add last none (some r) more a rest h = inl (cc, cc)
rest_or-some add last (some t) close none a rest h = absurd (cc)
rest_or-some add last (some t) close (some (b, r)) a rest h = inr (t, b, refl, cc, cc)

with_string-some :
    (o : Option (Text × Text)) (v : Json) (rest : Text)
    → with_string o ≡ some (v, rest)
    → (s : Text) × (o ≡ some (s, rest)) × (string s ≡ v)
with_string-some none v rest h = absurd (cc)
with_string-some (some (s, r)) v rest h = (s, cc, cc)

-- Behind a start, where the readers of fields and of items keep to the grammar.
from_start-IsValue :
    (fields : Text → Option (Fields × Text)) (items : Text → Option (Items × Text))
    → ((t : Text) (fs : Fields) (rest : Text) → fields t ≡ some (fs, rest) → IsFields t fs rest)
    → ((t : Text) (vs : Items) (rest : Text) → items t ≡ some (vs, rest) → IsItems t vs rest)
    → (s : Start) (t : Text) (v : Json) (rest : Text) → start (skip_space t) ≡ s
    → from_start fields items s ≡ some (v, rest)
    → IsValue t v rest
from_start-IsValue fields items hf hi (opens_object r) t v rest e h =
    elim (closed_or-some (object end) object (closing_brace r) (fields r) v rest h) [
      | inl (c, same) ↦ subst (λ w. IsValue t w rest) same (empty_object t r rest e c)
      | inr (fs, c, same) ↦
          subst (λ w. IsValue t w rest) same (full_object t r rest fs e (hf r fs rest c))
    ]
from_start-IsValue fields items hf hi (opens_array r) t v rest e h =
    elim (closed_or-some (array nil) array (closing_bracket r) (items r) v rest h) [
      | inl (c, same) ↦ subst (λ w. IsValue t w rest) same (empty_array t r rest e c)
      | inr (vs, c, same) ↦
          subst (λ w. IsValue t w rest) same (full_array t r rest vs e (hi r vs rest c))
    ]
from_start-IsValue fields items hf hi (opens_string r) t v rest e h =
    let (s, c, same) = with_string-some (read_literal r) v rest h in
    subst (λ w. IsValue t w rest) same (literal t r rest s e c)
from_start-IsValue fields items hf hi (other r) t v rest e h = atom t r rest v e h

and_read-some :
    {A : Type 0} (read : Text → Option (A × Text)) (o : Option Text) (t : Text)
    → o ≡ some t
    → and_read read o ≡ read t
and_read-some read o t e = ap (and_read read) e

mutual
  unfolding read_value

  pub read_value-IsValue :
      (n : ℕ) (t : Text) (v : Json) (rest : Text)
      → read_value n t ≡ some (v, rest)
      → IsValue t v rest
  read_value-IsValue zero t v rest h = absurd (cc)
  read_value-IsValue (suc n) t v rest h =
      from_start-IsValue (λ r. read_fields n r) (λ r. read_items n r)
        (λ u fs r e. read_fields-IsFields n u fs r e) (λ u vs r e. read_items-IsItems n u vs r e)
        (start (skip_space t)) t v rest refl h

  read_items-IsItems :
      (n : ℕ) (t : Text) (vs : Items) (rest : Text)
      → read_items n t ≡ some (vs, rest)
      → IsItems t vs rest
  read_items-IsItems zero t vs rest h = absurd (cc)
  read_items-IsItems (suc n) t vs rest h =
      let ((v, r), e, h') = bind-some (read_value n t) _ (vs, rest) h in
      let here = read_value-IsValue n t v r e in
      elim (rest_or-some (item v) (item v nil) (comma r) (closing_bracket r)
        (and_read (λ u. read_items n u) (comma r)) vs rest h') [
          | inl (c, same) ↦ subst (λ w. IsItems t w rest) same (last_item t r rest v here c)
          | inr (more, ws, c, e', same) ↦
              subst (λ w. IsItems t w rest) same
                (more_items t r more rest v ws here c (
                  read_items-IsItems n more ws rest
                    (sym (and_read-some (λ u. read_items n u) (comma r) more c) ∙ e')))
        ]

  read_fields-IsFields :
      (n : ℕ) (t : Text) (fs : Fields) (rest : Text)
      → read_fields n t ≡ some (fs, rest)
      → IsFields t fs rest
  read_fields-IsFields zero t fs rest h = absurd (cc)
  read_fields-IsFields (suc n) t fs rest h =
      let ((k, colon), ek, hk) = bind-some (read_key t) _ (fs, rest) h in
      let ((v, r), e, h') = bind-some (read_value n colon) _ (fs, rest) hk in
      let here = read_value-IsValue n colon v r e in
      elim (rest_or-some (field k v) (field k v end) (comma r) (closing_brace r)
        (and_read (λ u. read_fields n u) (comma r)) fs rest h') [
          | inl (c, same) ↦
              subst (λ w. IsFields t w rest) same (last_field t k colon r rest v ek here c)
          | inr (more, gs, c, e', same) ↦
              subst (λ w. IsFields t w rest) same
                (more_fields t k colon r more rest v gs ek here c (
                  read_fields-IsFields n more gs rest
                    (sym (and_read-some (λ u. read_fields n u) (comma r) more c) ∙ e')))
        ]

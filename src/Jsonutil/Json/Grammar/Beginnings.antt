-- ===== src/Jsonutil/Json/Grammar/Beginnings.antt =====
-- Which characters a value, the elements and the fields do not begin with.
use clawbake.Base.{
  ℕ, [], ◌∷◌, Bool-cases, ◌≡◌, refl, sym, ap, ◌∙◌, ◌⊎◌, inl, inr, Option, none, some, if◌then◌else◌,
  Text, ◌==◌, nat_eq, ==_sound,
}
use clawbake.Base.Options.{◌>>=◌}
use clawbake.Jsonutil.Json.{
  Json, other, start, skip_space, eat, read_atom, read_key, closing_brace, closing_bracket, comma,
}
use clawbake.Jsonutil.Json.Grammar.{
  IsValue, empty_object, full_object, empty_array, full_array, literal, atom,
}
use clawbake.Jsonutil.Strings.{read_literal}

-- Where there is a key or a value, there is no closing bracket.
begins : (p : ℕ) (u : Text) → (eat (p ∷ []) u ≡ none) ⊎ ((w : Text) × (u ≡ p ∷ w))
unfolding eat
begins p [] = inl refl
begins p (c ∷ t) = elim (Bool-cases (c == p)) [
  | inl e ↦ inr (t, ap (λ d. d ∷ t) (==_sound c p e))
  | inr e ↦ inl (ap (λ b. if b then some t else none) e)
]

no_key : (w : Text) → eat (b'"' ∷ []) (b'}' ∷ w) ≡ none
unfolding eat
no_key w = refl

pub fields-unclosed : (t : Text) (x : Text × Text) → read_key t ≡ some x → closing_brace t ≡ none
unfolding read_key
fields-unclosed t x h = elim (begins b'}' (skip_space t)) [
  | inl e ↦ e
  | inr (w, e) ↦
      let nothing = ap (λ u. eat (b'"' ∷ []) u) e ∙ no_key w in
      absurd (
        cc (
          sym (
            ap
              (λ (o : Option Text). o >>= λ quote. read_literal quote >>= λ key.
                eat (b':' ∷ []) (skip_space key.1) >>= λ colon. some (key.0, colon))
              nothing)
          ∙ h))
]

bracket_starts : (w : Text) → start (b']' ∷ w) ≡ other (b']' ∷ w)
unfolding start
bracket_starts w = refl

bracket_is_no_atom : (w : Text) → read_atom (b']' ∷ w) ≡ none
unfolding read_atom
bracket_is_no_atom w = refl

bracket_is_no_value :
    (t : Text) (v : Json) (rest w : Text)
    → IsValue t v rest
    → start (skip_space t) ≡ other (b']' ∷ w)
    → ⊥
bracket_is_no_value t _ rest w (empty_object _ r _ e c) s = cc
bracket_is_no_value t _ rest w (full_object _ r _ fs e c) s = cc
bracket_is_no_value t _ rest w (empty_array _ r _ e c) s = cc
bracket_is_no_value t _ rest w (full_array _ r _ vs e c) s = cc
bracket_is_no_value t _ rest w (literal _ r _ u e c) s = cc
bracket_is_no_value t v rest w (atom _ r _ _ e c) s = cc (bracket_is_no_atom w)

pub items-unclosed :
    (t : Text) (v : Json) (rest : Text) → IsValue t v rest → closing_bracket t ≡ none
items-unclosed t v rest h = elim (begins b']' (skip_space t)) [
  | inl e ↦ e
  | inr (w, e) ↦ absurd (bracket_is_no_value t v rest w h (ap start e ∙ bracket_starts w))
]

-- A text does not begin with two characters.
apart :
    (p q : ℕ) (u r : Text)
    → ((w : Text) → eat (q ∷ []) (p ∷ w) ≡ none)
    → eat (q ∷ []) u ≡ some r
    → eat (p ∷ []) u ≡ none
apart p q u r differ h = elim (begins p u) [
  | inl e ↦ e
  | inr (w, e) ↦ absurd (cc (sym h ∙ ap (eat (q ∷ [])) e ∙ differ w))
]

pub bracket_no_comma : (t rest : Text) → closing_bracket t ≡ some rest → comma t ≡ none
unfolding eat
bracket_no_comma t rest h = apart b',' b']' (skip_space t) rest (λ w. refl) h

pub brace_no_comma : (t rest : Text) → closing_brace t ≡ some rest → comma t ≡ none
unfolding eat
brace_no_comma t rest h = apart b',' b'}' (skip_space t) rest (λ w. refl) h

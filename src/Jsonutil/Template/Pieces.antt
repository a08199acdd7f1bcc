-- ===== src/Jsonutil/Template/Pieces.antt =====
-- Cutting a template at its placeholders loses nothing.
use clawbake.Base.{
  ℕ, zero, suc, ◌+◌, List, [], ◌∷◌, ◌++◌, true, Option, none, some, ◌≡◌, ap, sym, ◌∙◌, refl, inl,
  inr, Text, length, length-append, drop, nat_eq, ◌==◌, ◌&&◌, Option-cases, arith, if◌then◌else◌,
}
use mathlib.Core.List.{append_assoc}
use clawbake.Jsonutil.Template.{
  is_upper, span_name, closes, closed, match_at, Piece, literal, placeholder, pieces,
}

abbrev pub source : Piece → Text
source (literal c) = c ∷ []
source (placeholder n) = b'{' ∷ b'{' ∷ (n ++ (b'}' ∷ b'}' ∷ []))

-- The text that pieces stand for.
abbrev pub unparse : List Piece → Text
unparse [] = []
unparse (p ∷ ps) = source p ++ unparse ps

span_name-append : (t : Text) → (span_name t).0 ++ (span_name t).1 ≡ t
unfolding span_name
span_name-append [] = refl
span_name-append (c ∷ t) = ground (arith, span_name-append t)

closes-shape : (t : Text) → closes t ≡ true → (rest : Text) × (t ≡ b'}' ∷ b'}' ∷ rest)
closes-shape [] h = cc
closes-shape (a ∷ []) h = cc
closes-shape (a ∷ b ∷ t) h = (t, ground arith)

closed-shape :
    (c : ℕ) (name rest n : Text)
    → closed c (name, rest) ≡ some n
    → (n ≡ c ∷ name) × (closes rest ≡ true)
closed-shape c name rest n h = ground arith

open_braces :
    (a b c : ℕ) (o : Option Text) (n : Text)
    → (if a == b'{' && b == b'{' && is_upper c then o else none) ≡ some n
    → (a ≡ b'{') × (b ≡ b'{') × (o ≡ some n)
open_braces a b c o n h = ground arith

-- A match spells the two braces, the name and the two closing braces.
match_at-shape :
    (t n : Text) → match_at t ≡ some n → (rest : Text) × (t ≡ source (placeholder n) ++ rest)
unfolding match_at
match_at-shape (a ∷ b ∷ c ∷ t) n h =
    let (ha, hb, hc) = open_braces a b c (closed c (span_name t)) n h in
    let (hn, closing) = closed-shape c (span_name t).0 (span_name t).1 n hc in
    let (rest, shape) = closes-shape (span_name t).1 closing in
    (
      rest,
      rw (ha, hb, hn, append_assoc)
          (ap (λ u. b'{' ∷ b'{' ∷ c ∷ u)
            (sym (span_name-append t) ∙ ap (λ u. (span_name t).0 ++ u) shape)),
    )
match_at-shape _ n h = cc

drop-append : (k : ℕ) (s rest : Text) → k ≡ length s → drop k (s ++ rest) ≡ rest
drop-append zero [] rest e = refl
drop-append (suc k) [] rest e = absurd (omega arith)
drop-append zero (c ∷ s) rest e = absurd (omega arith)
drop-append (suc k) (c ∷ s) rest e = drop-append k s rest (omega arith)

-- Of a match, the characters behind the first are as many as `pieces` passes.
match_at-rest :
    (c : ℕ) (t n : Text)
    → match_at (c ∷ t) ≡ some n
    → c ∷ t ≡ source (placeholder n) ++ drop (length n + 3) t
match_at-rest c t n h =
    let (rest, shape) = match_at-shape (c ∷ t) n h in
    let tail : t ≡ (b'{' ∷ (n ++ (b'}' ∷ b'}' ∷ []))) ++ rest = ap (drop 1) shape in
    let dropped : drop (length n + 3) t ≡ rest =
      ap (drop (length n + 3)) tail
      ∙ drop-append (length n + 3) (b'{' ∷ (n ++ (b'}' ∷ b'}' ∷ []))) rest
          (omega (arith, length-append {0} n (b'}' ∷ b'}' ∷ []))) in
    rw dropped shape

pieces-literal :
    (c : ℕ) (t : Text) → match_at (c ∷ t) ≡ none → pieces zero (c ∷ t) ≡ literal c ∷ pieces zero t
unfolding pieces
pieces-literal c t e = rw (e, pieces)

pieces-placeholder :
    (c : ℕ) (t n : Text)
    → match_at (c ∷ t) ≡ some n
    → pieces zero (c ∷ t) ≡ placeholder n ∷ pieces (length n + 3) t
unfolding pieces
pieces-placeholder c t n e = rw (e, pieces)

unparse-pieces_from : (k : ℕ) (t : Text) → unparse (pieces k t) ≡ drop k t
unfolding pieces
unparse-pieces_from zero [] = refl
unparse-pieces_from (suc k) [] = refl
unparse-pieces_from (suc k) (c ∷ t) = unparse-pieces_from k t
unparse-pieces_from zero (c ∷ t) = elim (Option-cases (match_at (c ∷ t))) [
  | inl e ↦ ap unparse (pieces-literal c t e) ∙ ap (λ u. c ∷ u) (unparse-pieces_from zero t)
  | inr (n, e) ↦
      ap unparse (pieces-placeholder c t n e)
      ∙ ap (λ u. source (placeholder n) ++ u) (unparse-pieces_from (length n + 3) t)
      ∙ sym (match_at-rest c t n e)
]

-- The pieces of a template spell the template: no character is lost, moved or read twice.
pub unparse-pieces : (t : Text) → unparse (pieces zero t) ≡ t
unparse-pieces t = unparse-pieces_from zero t

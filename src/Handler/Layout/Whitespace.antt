-- ===== src/Handler/Layout/Whitespace.antt =====
-- What the layout of a document changes.
use clawbake.Base.{
  ℕ, zero, suc, [], ◌∷◌, ◌++◌, ◌+◌, ◌-◌, ap, Bool, true, false, Text, nat_eq, arith, ◌≡◌, refl, sym,
  ◌∙◌, inl, inr, if◌then◌else◌, Bool-cases,
}
use clawbake.Jsonutil.Json.{is_space, valid}
use clawbake.Handler.Layout.{
  Place, outside, inside, escaped, next_place, strip, Indentation, spaces, newline, before, behind,
  depth_at, advance, trailing, indent, start, pretty_json,
}

strip-newline : (d : ℕ) (t : Text) → strip outside (newline d ++ t) ≡ strip outside t
unfolding strip
strip-newline d t = blanks d
  where
    blanks : (d : ℕ) → strip outside (spaces d ++ t) ≡ strip outside t
    blanks zero = refl
    blanks (suc d) = blanks d

strip-before :
    (n : Indentation) (c : ℕ) (t : Text) → strip outside (before n c ++ t) ≡ strip outside t
strip-before n c t = ground (arith, strip-newline (n.depth - 1) t, strip-newline (n.depth + 1) t)

strip-behind :
    (n : Indentation) (c : ℕ) (t : Text)
    → strip (next_place outside c) (behind n c ++ t) ≡ strip (next_place outside c) t
unfolding strip
strip-behind n c t = ground (arith, strip-newline (depth_at n c) t)

strip-blank : (c : ℕ) (t : Text) → is_space c ≡ true → strip outside (c ∷ t) ≡ strip outside t
unfolding strip
strip-blank c t h = ground arith

strip-sign :
    (c : ℕ) (t : Text)
    → is_space c ≡ false
    → strip outside (c ∷ t) ≡ c ∷ strip (next_place outside c) t
unfolding strip
strip-sign c t h = rw h

indent-blank :
    (n : Indentation) (c : ℕ) (t : Text)
    → is_space c ≡ true
    → indent n outside (c ∷ t) ≡ (if trailing n then c ∷ indent n outside t else indent n outside t)
unfolding indent
indent-blank n c t h = rw h

indent-sign :
    (n : Indentation) (c : ℕ) (t : Text)
    → is_space c ≡ false
    → indent n outside (c ∷ t)
      ≡ before n c ++ (c ∷ (behind n c ++ indent (advance n c) (next_place outside c) t))
unfolding indent
indent-sign n c t h = rw h

strip-trailing :
    (b : Bool) (c : ℕ) (t : Text)
    → is_space c ≡ true
    → strip outside (if b then c ∷ t else t) ≡ strip outside t
strip-trailing true c t h = strip-blank c t h
strip-trailing false c t h = refl

strip-indent : (n : Indentation) (p : Place) (t : Text) → strip p (indent n p t) ≡ strip p t
unfolding strip indent
strip-indent n p [] = refl
strip-indent n inside (c ∷ t) = ap (λ r. c ∷ r) (strip-indent n (next_place inside c) t)
strip-indent n escaped (c ∷ t) = ap (λ r. c ∷ r) (strip-indent n inside t)
strip-indent n outside (c ∷ t) = elim (Bool-cases (is_space c)) [
  | inl blank ↦
      ap (strip outside) (indent-blank n c t blank)
      ∙ strip-trailing (trailing n) c (indent n outside t) blank
      ∙ strip-indent n outside t
      ∙ sym (strip-blank c t blank)
  | inr sign ↦
      let rest = indent (advance n c) (next_place outside c) t in
      ap (strip outside) (indent-sign n c t sign)
      ∙ strip-before n c (c ∷ (behind n c ++ rest))
      ∙ strip-sign c (behind n c ++ rest) sign
      ∙ ap (λ r. c ∷ r)
          (strip-behind n c rest ∙ strip-indent (advance n c) (next_place outside c) t)
      ∙ sym (strip-sign c t sign)
]

-- For every text, what `prettyJSON` gives has the same characters as the text, in the same order,
-- but for white space outside of strings.
pub pretty_json_keeps_the_document : (s : Text) → strip outside (pretty_json s) ≡ strip outside s
unfolding pretty_json
pretty_json_keeps_the_document s = elim (Bool-cases (valid s)) [
  | inl good ↦ rw good (strip-indent start outside s)
  | inr bad ↦ rw bad refl
]

-- ===== src/Jsonutil/Strings/RoundTrip.antt =====
-- What is written for a string is read back, whatever follows.
use Prim.Native.Nat.{◌/◌}
use clawbake.Base.{
  ℕ, ◌+◌, ◌*◌, ◌%◌, ◌<◌, List, [], ◌∷◌, ◌++◌, Bool, true, false, Option, none, some, ◌≡◌, ap, ◌∙◌,
  refl, Text, nat_eq, ◌||◌, arith, map,
}
use mathlib.Core.List.{append_assoc}
use clawbake.Jsonutil.Strings.{
  hex_digit, hex4, short_escape, needs_hex, encode_as, is_high, is_low, encode_char, encode_body,
  Element, char, code_unit, Mode, plain, escaped, hex, hex_value, unescape, go, emit, hex_step,
  prepend, step, scan_literal, combine, read_literal,
}

hex_value-hex_digit : (n : ℕ) → n < 16 → hex_value (hex_digit n) ≡ some n
unfolding hex_value hex_digit
hex_value-hex_digit n h = ground arith

-- How the reader sees a character that was written.
abbrev element_as : Option ℕ → Bool → ℕ → Element
element_as (some e) _ c = char c
element_as none true c = code_unit c
element_as none false c = char c

abbrev element_of : ℕ → Element
element_of c = element_as (short_escape c) (needs_hex c) c

step-short_escape : (c e : ℕ) → short_escape c ≡ some e → step escaped e ≡ emit (char c)
unfolding step short_escape unescape
step-short_escape c e h = ground arith

needs_hex-lt : (c : ℕ) → needs_hex c ≡ true → c < 65536
unfolding needs_hex
needs_hex-lt c h = ground arith

step-plain : (c : ℕ) → short_escape c ≡ none → needs_hex c ≡ false → step plain c ≡ emit (char c)
unfolding step short_escape needs_hex
step-plain c h k = ground arith

four_digits :
    (c : ℕ)
    → c < 65536
    → (((0 * 16 + c / 4096 % 16) * 16 + c / 256 % 16) * 16 + c / 16 % 16) * 16 + c % 16 ≡ c
four_digits c h = omega arith

step_hex :
    (left value n : ℕ) → n < 16 → step (hex left value) (hex_digit n) ≡ hex_step left value (some n)
unfolding step
step_hex left value n h = rw (hex_value-hex_digit n h)

scan_go :
    (m n : Mode) (c : ℕ) (t : Text) → step m c ≡ go n → scan_literal m (c ∷ t) ≡ scan_literal n t
unfolding scan_literal
scan_go m n c t e = rw (e, scan_literal)

scan_emit :
    (m : Mode) (e : Element) (c : ℕ) (t : Text)
    → step m c ≡ emit e
    → scan_literal m (c ∷ t) ≡ prepend e (scan_literal plain t)
unfolding scan_literal
scan_emit m e c t p = rw (p, scan_literal)

scan-hex4 :
    (c : ℕ) (t : Text)
    → c < 65536
    → scan_literal (hex 3 0) (hex4 c ++ t) ≡ prepend (code_unit c) (scan_literal plain t)
unfolding hex4
scan-hex4 c t h =
    scan_go _ _ _ _ (step_hex 3 0 (c / 4096 % 16) (omega arith))
    ∙ scan_go _ _ _ _ (step_hex 2 _ (c / 256 % 16) (omega arith))
    ∙ scan_go _ _ _ _ (step_hex 1 _ (c / 16 % 16) (omega arith))
    ∙ scan_emit _ _ _ _ (step_hex 0 _ (c % 16) (omega arith))
    ∙ ap (λ n. prepend (code_unit n) (scan_literal plain t)) (four_digits c h)

step_backslash : step plain b'\\' ≡ go escaped
unfolding step
step_backslash = refl

step_u : step escaped b'u' ≡ go (hex 3 0)
unfolding step
step_u = refl

scan-encode_as :
    (s : Option ℕ) (n : Bool) (c : ℕ) (t : Text)
    → short_escape c ≡ s
    → needs_hex c ≡ n
    → scan_literal plain (encode_as s n c ++ t) ≡ prepend (element_as s n c) (scan_literal plain t)
scan-encode_as (some e) n c t p q =
    scan_go _ _ _ _ step_backslash ∙ scan_emit _ _ _ _ (step-short_escape c e p)
scan-encode_as none true c t p q =
    scan_go _ _ _ _ step_backslash ∙ scan_go _ _ _ _ step_u ∙ scan-hex4 c t (needs_hex-lt c q)
scan-encode_as none false c t p q = scan_emit _ _ _ _ (step-plain c p q)

scan-encode_body :
    (s rest : Text)
    → scan_literal plain (encode_body s ++ (b'"' ∷ rest)) ≡ some (map element_of s, rest)
unfolding encode_body encode_char
scan-encode_body [] rest = unfold scan_literal step in refl
scan-encode_body (c ∷ s) rest =
    ap (scan_literal plain) (append_assoc (encode_char c) (encode_body s) (b'"' ∷ rest))
    ∙ scan-encode_as (short_escape c) (needs_hex c) c _ refl refl
    ∙ ap (prepend (element_of c)) (scan-encode_body s rest)

-- No character that is written as \u is a surrogate.
not_surrogate : (c : ℕ) → needs_hex c ≡ true → (is_high c || is_low c) ≡ false
unfolding needs_hex
not_surrogate c h = ground arith

combine-code_unit :
    (h : ℕ) (es : List Element)
    → (is_high h || is_low h) ≡ false
    → combine (code_unit h ∷ es) ≡ h ∷ combine es
unfolding combine
combine-code_unit h [] q = rw q
combine-code_unit h (char c ∷ es) q = rw q
combine-code_unit h (code_unit u ∷ es) q = ground arith

combine-element_as :
    (s : Option ℕ) (n : Bool) (c : ℕ) (es : List Element)
    → needs_hex c ≡ n
    → combine (element_as s n c ∷ es) ≡ c ∷ combine es
combine-element_as (some e) n c es q = unfold combine in refl
combine-element_as none true c es q = combine-code_unit c es (not_surrogate c q)
combine-element_as none false c es q = unfold combine in refl

combine-element_of : (s : Text) → combine (map element_of s) ≡ s
combine-element_of [] = unfold combine in refl
combine-element_of (c ∷ s) =
    combine-element_as (short_escape c) (needs_hex c) c (map element_of s) refl
    ∙ ap (λ t. c ∷ t) (combine-element_of s)

-- Whatever text follows, reading the literal that `Marshal` writes for a string gives the string
-- back and stops at the literal's own closing quote: no character of the string can end it early.
pub read_literal-encode_body :
    (s rest : Text) → read_literal (encode_body s ++ (b'"' ∷ rest)) ≡ some (s, rest)
unfolding read_literal
read_literal-encode_body s rest =
    rw (scan-encode_body s rest, read_literal) (ap (λ u. some (u, rest)) (combine-element_of s))

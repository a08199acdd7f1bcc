-- ===== src/Jsonutil/Json/Grammar/Sizes.antt =====
-- How much of the text the readers of lexemes take.
use clawbake.Base.{
  ℕ, suc, ◌+◌, ◌≤◌, [], ◌∷◌, ◌||◌, ◌≡◌, refl, Option, none, some, if_elim, Text, length, arith,
  is_empty, ◌==◌, string_eq, nat_eq,
}
use clawbake.Base.Options.{◌>>=◌}
use clawbake.Jsonutil.Json.{
  skip_space, is_space, eat, span_digits, nonempty, read_integer, read_fraction, read_mark,
  after_mark, read_exponent, is_digit,
}

-- If there is a text, it is at least so much shorter than a length.
abbrev pub Left : ℕ → ℕ → Option Text → Type 0
Left k n none = Unit
Left k n (some rest) = length rest + k ≤ n

-- If something is read, the text behind it is at least so much shorter than a length.
abbrev pub Leaves : {A : Type 0} → ℕ → ℕ → Option (A × Text) → Type 0
Leaves k n none = Unit
Leaves k n (some (a, rest)) = length rest + k ≤ n

pub Leaves-bind :
    {A B : Type 0} (j k n : ℕ) (o : Option (A × Text)) (f : A × Text → Option (B × Text))
    → Leaves j n o
    → ((a : A) (rest : Text) → length rest + j ≤ n → Leaves k n (f (a, rest)))
    → Leaves k n (o >>= f)
Leaves-bind j k n none f h g = tt
Leaves-bind j k n (some (a, rest)) f h g = g a rest h

pub skip_space-size : (t : Text) → length (skip_space t) ≤ length t
unfolding skip_space
skip_space-size [] = omega arith
skip_space-size (c ∷ t) =
    if_elim (λ u. length u ≤ suc (length t)) (is_space c) (skip_space t) (c ∷ t)
      (λ _. omega (arith, skip_space-size t)) (λ _. omega arith)

pub eat-Left : (ps t : Text) → Left (length ps) (length t) (eat ps t)
unfolding eat
eat-Left [] t = omega arith
eat-Left (p ∷ ps) [] = tt
eat-Left (p ∷ ps) (c ∷ t) =
    if_elim (Left (suc (length ps)) (suc (length t))) (c == p) (eat ps t) none
      (λ _. one_more (eat ps t) (eat-Left ps t)) (λ _. tt)
  where
    one_more :
        (o : Option Text)
        → Left (length ps) (length t) o
        → Left (suc (length ps)) (suc (length t)) o
    one_more none h = tt
    one_more (some r) h = omega (arith, h)

-- Behind white space.
pub eaten-Left : (p : ℕ) (t : Text) → Left 1 (length t) (eat (p ∷ []) (skip_space t))
eaten-Left p t = weaken (eat (p ∷ []) (skip_space t)) (eat-Left (p ∷ []) (skip_space t))
  where
    weaken : (o : Option Text) → Left 1 (length (skip_space t)) o → Left 1 (length t) o
    weaken none h = tt
    weaken (some r) h = omega (arith, h, skip_space-size t)

span_digits-size : (t : Text) → length (span_digits t).0 + length (span_digits t).1 ≡ length t
unfolding span_digits
span_digits-size [] = refl
span_digits-size (c ∷ t) =
    if_elim (λ (p : Text × Text). length p.0 + length p.1 ≡ suc (length t)) (is_digit c)
      (c ∷ (span_digits t).0, (span_digits t).1) ([], c ∷ t)
      (λ _. omega (arith, span_digits-size t)) (λ _. omega arith)

nonempty-Leaves : (n : ℕ) (p : Text × Text) → length p.0 + length p.1 ≤ n → Leaves 1 n (nonempty p)
nonempty-Leaves n ([], rest) h = tt
nonempty-Leaves n (c ∷ ds, rest) h = omega (arith, h)

digits-Leaves : (t : Text) → Leaves 1 (length t) (nonempty (span_digits t))
digits-Leaves t = nonempty-Leaves (length t) (span_digits t) (omega (arith, span_digits-size t))

pub read_integer-Leaves : (t : Text) → Leaves 1 (length t) (read_integer t)
unfolding read_integer
read_integer-Leaves t = either (eat (b'0' ∷ []) t) (eat-Left (b'0' ∷ []) t)
  where
    either :
        (o : Option Text)
        → Left 1 (length t) o
        → Leaves 1 (length t) (elim o as (λ _. Option (Text × Text)) [
          | some rest ↦ some (b'0' ∷ [], rest)
          | none ↦ nonempty (span_digits t)
        ])
    either none h = digits-Leaves t
    either (some rest) h = h

pub read_fraction-Leaves : (t : Text) → Leaves 0 (length t) (read_fraction t)
unfolding read_fraction
read_fraction-Leaves t = either (eat (b'.' ∷ []) t) (eat-Left (b'.' ∷ []) t)
  where
    either :
        (o : Option Text)
        → Left 1 (length t) o
        → Leaves 0 (length t) (elim o as (λ _. Option (Text × Text)) [
          | none ↦ some ([], t)
          | some rest ↦ do (ds, rest') ← nonempty (span_digits rest); some (b'.' ∷ ds, rest')
        ])
    either none h = omega arith
    either (some rest) h =
        Leaves-bind 1 0 (length t) (nonempty (span_digits rest)) _
          (weaken (nonempty (span_digits rest)) (digits-Leaves rest))
          (λ ds rest' k. omega (arith, k))
      where
        weaken : (o : Option (Text × Text)) → Leaves 1 (length rest) o → Leaves 1 (length t) o
        weaken none k = tt
        weaken (some (ds, r)) k = omega (arith, k, h)

read_mark-size : (t : Text) → length (read_mark t).1 ≤ length t
unfolding read_mark
read_mark-size [] = omega arith
read_mark-size (c ∷ []) =
    if_elim (λ (p : Text × Text). length p.1 ≤ 1) (c == b'e' || c == b'E') (c ∷ [], []) ([], c ∷ [])
      (λ _. omega arith) (λ _. omega arith)
read_mark-size (c ∷ d ∷ t) =
    if_elim (λ (p : Text × Text). length p.1 ≤ suc (suc (length t))) (c == b'e' || c == b'E') _
      ([], c ∷ d ∷ t)
      (λ _.
        if_elim (λ (p : Text × Text). length p.1 ≤ suc (suc (length t))) (d == b'+' || d == b'-')
          (c ∷ d ∷ [], t) (c ∷ [], d ∷ t) (λ _. omega arith) (λ _. omega arith))
      (λ _. omega arith)

after_mark-Leaves :
    (n : ℕ) (mark : Text) (o : Option (Text × Text)) → Leaves 1 n o → Leaves 0 n (after_mark mark o)
after_mark-Leaves n mark none h = tt
after_mark-Leaves n mark (some (ds, rest)) h = omega (arith, h)

pub Leaves-longer :
    {A : Type 0} (k m n : ℕ) (o : Option (A × Text)) → m ≤ n → Leaves k m o → Leaves k n o
Leaves-longer k m n none le h = tt
Leaves-longer k m n (some (a, rest)) le h = omega (arith, le, h)

pub read_exponent-Leaves : (t : Text) → Leaves 0 (length t) (read_exponent t)
unfolding read_exponent
read_exponent-Leaves t =
    if_elim (Leaves 0 (length t)) (is_empty (read_mark t).0) (some ([], t)) _ (λ _. omega arith)
      (λ _. after_mark-Leaves (length t) (read_mark t).0 (nonempty (span_digits (read_mark t).1)) (
        Leaves-longer 1 (length (read_mark t).1) (length t) _ (read_mark-size t)
          (digits-Leaves (read_mark t).1)))

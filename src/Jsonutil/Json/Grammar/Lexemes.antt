-- ===== src/Jsonutil/Json/Grammar/Lexemes.antt =====
-- How much of the text a number, a literal, a string, a key and the start of a value take.
use clawbake.Base.{
  ℕ, suc, ◌+◌, ◌≤◌, List, [], ◌∷◌, ◌++◌, true, false, ◌≡◌, subst, Option, none, some, if_elim, Text,
  length, codes, arith, ◌==◌, nat_eq,
}
use clawbake.Base.Options.{◌>>=◌}
use clawbake.Jsonutil.Json.{
  Json, null, boolean, Start, opens_object, opens_array, opens_string, other, start, skip_space,
  eat, read_integer, read_fraction, read_exponent, read_number, read_atom, read_key,
}
use clawbake.Jsonutil.Json.Grammar.Sizes.{
  Left, Leaves, Leaves-bind, Leaves-longer, eat-Left, eaten-Left, skip_space-size,
  read_integer-Leaves, read_fraction-Leaves, read_exponent-Leaves,
}
use clawbake.Jsonutil.Strings.{
  Element, Mode, plain, Step, step, close, go, emit, refuse, prepend, scan_literal, combine,
  read_literal,
}

read_digits-Leaves :
    (n : ℕ) (sign t : Text)
    → length t ≤ n
    → Leaves 1 n (
        read_integer t >>= λ integer. read_fraction integer.1 >>= λ fraction.
        read_exponent fraction.1 >>= λ exponent.
        some (sign ++ (integer.0 ++ (fraction.0 ++ exponent.0)), exponent.1))
read_digits-Leaves n sign t le =
    Leaves-bind 1 1 n (read_integer t) _ (Leaves-longer 1 (length t) n _ le (read_integer-Leaves t))
      (λ whole r h.
        behind (read_fraction r)
          (λ f. read_exponent f.1 >>= λ e. some (sign ++ (whole ++ (f.0 ++ e.0)), e.1)) (length r) h
          (read_fraction-Leaves r)
          (λ fraction u k.
            behind (read_exponent u) (λ e. some (sign ++ (whole ++ (fraction ++ e.0)), e.1))
              (length u) (omega (arith, k, h)) (read_exponent-Leaves u)
              (λ exponent w j. omega (arith, k, h, j))))
  where
    behind :
        (o : Option (Text × Text)) (f : Text × Text → Option (Text × Text)) (m : ℕ)
        → m + 1 ≤ n
        → Leaves 0 m o
        → ((a : Text) (rest : Text) → length rest ≤ m → Leaves 1 n (f (a, rest)))
        → Leaves 1 n (o >>= f)
    behind none f m l h g = tt
    behind (some (a, rest)) f m l h g = g a rest (omega (arith, h))

read_number-Leaves : (t : Text) → Leaves 1 (length t) (read_number t)
unfolding read_number
read_number-Leaves t = either (eat (b'-' ∷ []) t) (eat-Left (b'-' ∷ []) t)
  where
    either :
        (o : Option Text)
        → Left 1 (length t) o
        → Leaves 1 (length t) (
            let minus : Text × Text = elim o as (λ _. Text × Text) [
              | some rest ↦ (b'-' ∷ [], rest)
              | none ↦ ([], t)
            ] in
            read_integer minus.1 >>= λ integer. read_fraction integer.1 >>= λ fraction.
            read_exponent fraction.1 >>= λ exponent.
            some (minus.0 ++ (integer.0 ++ (fraction.0 ++ exponent.0)), exponent.1))
    either none h = read_digits-Leaves (length t) [] t (omega arith)
    either (some rest) h = read_digits-Leaves (length t) (b'-' ∷ []) rest (omega (arith, h))

-- The text of a literal, or else.
word_or-Leaves :
    (p : ℕ) (ps t : Text) (v : Json) (o : Option (Json × Text))
    → Leaves 1 (length t) o
    → Leaves 1 (length t) (elim (eat (p ∷ ps) t) as (λ _. Option (Json × Text)) [
      | some rest ↦ some (v, rest)
      | none ↦ o
    ])
word_or-Leaves p ps t v o h = either (eat (p ∷ ps) t) (eat-Left (p ∷ ps) t)
  where
    either :
        (e : Option Text)
        → Left (suc (length ps)) (length t) e
        → Leaves 1
            (length t)
            (elim e as (λ _. Option (Json × Text)) [ some rest ↦ some (v, rest) | none ↦ o ])
    either none l = h
    either (some rest) l = omega (arith, l)

pub read_atom-Leaves : (t : Text) → Leaves 1 (length t) (read_atom t)
unfolding read_atom
read_atom-Leaves t = word_or-Leaves b'n' (codes "ull") t null _ (
    word_or-Leaves b't' (codes "rue") t (boolean true) _ (
      word_or-Leaves b'f' (codes "alse") t (boolean false) _
        (Leaves-bind 1 1 (length t) (read_number t) _ (read_number-Leaves t) (λ l rest h. h))))

scan_literal-Leaves : (mode : Mode) (t : Text) → Leaves 1 (length t) (scan_literal mode t)
unfolding scan_literal
scan_literal-Leaves mode [] = tt
scan_literal-Leaves mode (c ∷ t) = by_step (λ next. scan_literal-Leaves next t) (step mode c)
  where
    prepended :
        (e : Element) (o : Option (List Element × Text))
        → Leaves 1 (length t) o
        → Leaves 1 (suc (length t)) (prepend e o)
    prepended e none h = tt
    prepended e (some (es, rest)) h = omega (arith, h)

    by_step :
        ((next : Mode) → Leaves 1 (length t) (scan_literal next t))
        → (s : Step)
        → Leaves 1 (suc (length t)) (elim s as (λ _. Option (List Element × Text)) [
          | close ↦ some ([], t)
          | go next ↦ scan_literal next t
          | emit e ↦ prepend e (scan_literal plain t)
          | refuse ↦ none
        ])
    by_step h close = omega arith
    by_step h (go next) = Leaves-longer 1 (length t) (suc (length t)) _ (omega arith) (h next)
    by_step h (emit e) = prepended e (scan_literal plain t) (h plain)
    by_step h refuse = tt

pub read_literal-Leaves : (t : Text) → Leaves 1 (length t) (read_literal t)
unfolding read_literal
read_literal-Leaves t = either (scan_literal plain t) (scan_literal-Leaves plain t)
  where
    either :
        (o : Option (List Element × Text))
        → Leaves 1 (length t) o
        → Leaves 1 (length t) (elim o as (λ _. Option (Text × Text)) [
          | none ↦ none
          | some (es, rest) ↦ some (combine es, rest)
        ])
    either none h = tt
    either (some (es, rest)) h = h

pub read_key-Leaves : (t : Text) → Leaves 1 (length t) (read_key t)
unfolding read_key
read_key-Leaves t = quoted (eat (b'"' ∷ []) (skip_space t)) (eaten-Left b'"' t)
  where
    coloned :
        (k : Text) (n : ℕ) (o : Option Text)
        → Left 1 n o
        → n ≤ length t
        → Leaves 1 (length t) (o >>= λ colon. some (k, colon))
    coloned k n none h le = tt
    coloned k n (some colon) h le = omega (arith, h, le)

    quoted :
        (o : Option Text)
        → Left 1 (length t) o
        → Leaves 1 (length t) (
            o >>= λ quote. read_literal quote >>= λ key.
            eat (b':' ∷ []) (skip_space key.1) >>= λ colon. some (key.0, colon))
    quoted none h = tt
    quoted (some quote) h =
        Leaves-bind 1 1 (length t) (read_literal quote) _
          (Leaves-longer 1 (length quote) (length t) _ (omega (arith, h))
            (read_literal-Leaves quote))
          (λ k rest l.
            coloned k (length rest) (eat (b':' ∷ []) (skip_space rest)) (eaten-Left b':' rest)
              (omega (arith, l)))

-- A start takes a character, unless it is that of an atom.
abbrev pub Behind : ℕ → Start → Type 0
Behind n (opens_object rest) = length rest + 1 ≤ n
Behind n (opens_array rest) = length rest + 1 ≤ n
Behind n (opens_string rest) = length rest + 1 ≤ n
Behind n (other rest) = length rest ≤ n

start-Behind : (t : Text) → Behind (length t) (start t)
unfolding start
start-Behind [] = omega arith
start-Behind (c ∷ t) =
    if_elim (Behind (suc (length t))) (c == b'{') (opens_object t) _ (λ _. omega arith)
      (λ _.
        if_elim (Behind (suc (length t))) (c == b'[') (opens_array t) _ (λ _. omega arith)
          (λ _.
            if_elim (Behind (suc (length t))) (c == b'"') (opens_string t) (other (c ∷ t))
              (λ _. omega arith) (λ _. omega arith)))

-- What follows a start, read off its equation.
pub started : (t : Text) (s : Start) → start (skip_space t) ≡ s → Behind (length t) s
started t s e =
    subst (Behind (length t)) e (farther (start (skip_space t)) (start-Behind (skip_space t)))
  where
    farther : (u : Start) → Behind (length (skip_space t)) u → Behind (length t) u
    farther (opens_object rest) h = omega (arith, h, skip_space-size t)
    farther (opens_array rest) h = omega (arith, h, skip_space-size t)
    farther (opens_string rest) h = omega (arith, h, skip_space-size t)
    farther (other rest) h = omega (arith, h, skip_space-size t)

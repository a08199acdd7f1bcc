-- ===== src/Jsonutil/Template/Names.antt =====
-- `ExtractPlaceholders`: the names of the template, each once and in order.
use clawbake.Base.{
  zero, List, [], ◌∷◌, ◌++◌, Bool, true, false, ◌||◌, ◌≡◌, ◌∙◌, refl, inl, inr, Text, contains,
  contains-append, nat_eq, text_eq, ◌==◌, Bool-cases, arith, if◌then◌else◌,
}
use clawbake.Jsonutil.Template.{
  pieces, captures, first_seen, text_leb, insert_sorted, sort, extract_placeholders,
}

contains-insert_sorted :
    (n x : Text) (xs : List Text) → contains n (insert_sorted x xs) ≡ (x == n || contains n xs)
unfolding insert_sorted
contains-insert_sorted n x [] = refl
contains-insert_sorted n x (y ∷ ys) = ground (arith, contains-insert_sorted n x ys)

contains-sort : (n : Text) (xs : List Text) → contains n (sort xs) ≡ contains n xs
unfolding sort
contains-sort n [] = refl
contains-sort n (x ∷ xs) = ground (arith, contains-insert_sorted n x (sort xs), contains-sort n xs)

contains-first_seen :
    (n : Text) (names ms : List Text)
    → contains n (first_seen names ms) ≡ (contains n names || contains n ms)
unfolding first_seen
contains-first_seen n names [] = ground arith
contains-first_seen n names (m ∷ ms) = ground (
  arith,
  contains-first_seen n (if contains m names then names else names ++ m ∷ []) ms,
  contains-append n names (m ∷ []),
  text_eq.decides m n,
)

-- A name is extracted exactly if the template has a placeholder of that name.
pub contains-extract_placeholders :
    (n template : Text)
    → contains n (extract_placeholders template) ≡ contains n (captures (pieces zero template))
unfolding extract_placeholders
contains-extract_placeholders n template =
    contains-sort n _ ∙ contains-first_seen n [] (captures (pieces zero template))

-- Each name is strictly below the next one.
abbrev pub Below : Text → List Text → Type 0
Below x [] = Unit
Below x (y ∷ ys) = (text_leb x y ≡ true) × ((x == y) ≡ false)

abbrev pub IsStrict : List Text → Type 0
IsStrict [] = Unit
IsStrict (x ∷ xs) = Below x xs × IsStrict xs

text_leb_total : (s t : Text) → text_leb s t ≡ false → text_leb t s ≡ true
unfolding text_leb
text_leb_total [] t h = ground arith
text_leb_total (a ∷ s) [] h = ground arith
text_leb_total (a ∷ s) (b ∷ t) h = ground (arith, text_leb_total s t)

Below-insert_sorted :
    (y x : Text) (xs : List Text)
    → Below y xs
    → text_leb y x ≡ true
    → (y == x) ≡ false
    → Below y (insert_sorted x xs)
unfolding insert_sorted
Below-insert_sorted y x [] b h k = (h, k)
Below-insert_sorted y x (z ∷ zs) b h k = ground arith

insert_sorted-IsStrict_cons :
    (x y : Text) (ys : List Text)
    → contains x (y ∷ ys) ≡ false
    → IsStrict (y ∷ ys)
    → (contains x ys ≡ false → IsStrict ys → IsStrict (insert_sorted x ys))
    → IsStrict (insert_sorted x (y ∷ ys))
unfolding insert_sorted
insert_sorted-IsStrict_cons x y ys c s ih = elim (Bool-cases (text_leb x y)) [
  | inl h ↦ rw (h, insert_sorted) ((h, ground (arith, text_eq.decides x y, text_eq.decides y x)), s)
  | inr h ↦
      rw (h, insert_sorted)
        (
          Below-insert_sorted y x ys s.0 (text_leb_total x y h) (ground arith),
          ih (ground arith) s.1,
        )
]

insert_sorted-IsStrict :
    (x : Text) (xs : List Text)
    → contains x xs ≡ false
    → IsStrict xs
    → IsStrict (insert_sorted x xs)
insert_sorted-IsStrict x [] c s = unfold insert_sorted in (tt, tt)
insert_sorted-IsStrict x (y ∷ ys) c s =
    insert_sorted-IsStrict_cons x y ys c s (insert_sorted-IsStrict x ys)

abbrev IsDistinct : List Text → Type 0
IsDistinct [] = Unit
IsDistinct (x ∷ xs) = (contains x xs ≡ false) × IsDistinct xs

sort-IsStrict : (xs : List Text) → IsDistinct xs → IsStrict (sort xs)
unfolding sort
sort-IsStrict [] d = tt
sort-IsStrict (x ∷ xs) d =
    insert_sorted-IsStrict x (sort xs) (contains-sort x xs ∙ d.0) (sort-IsStrict xs d.1)

IsDistinct-concat :
    (xs : List Text) (x : Text) → IsDistinct xs → contains x xs ≡ false → IsDistinct (xs ++ x ∷ [])
IsDistinct-concat [] x d h = (refl, tt)
IsDistinct-concat (y ∷ xs) x d h = (
  ground (arith, contains-append y xs (x ∷ []), text_eq.decides y x, text_eq.decides x y),
  IsDistinct-concat xs x d.1 (ground arith),
)

first_seen-IsDistinct : (names ms : List Text) → IsDistinct names → IsDistinct (first_seen names ms)
unfolding first_seen
first_seen-IsDistinct names [] d = d
first_seen-IsDistinct names (m ∷ ms) d =
    first_seen-IsDistinct (if contains m names then names else names ++ m ∷ []) ms
      (keep (contains m names) refl)
  where
    keep : (b : Bool) → contains m names ≡ b → IsDistinct (if b then names else names ++ m ∷ [])
    keep true p = d
    keep false p = IsDistinct-concat names m d p

-- For every template: a name is among the extracted ones exactly if the template has a placeholder of
-- that name; and the extracted names are in strictly ascending order, so none is listed twice.
pub extract_placeholders_lists :
    (template : Text)
    → ((n : Text)
        → contains n (extract_placeholders template) ≡ contains n (captures (pieces zero template)))
      × IsStrict (extract_placeholders template)
unfolding extract_placeholders
extract_placeholders_lists template = (
  (λ n. contains-extract_placeholders n template),
  sort-IsStrict (first_seen [] (captures (pieces zero template)))
      (first_seen-IsDistinct [] (captures (pieces zero template)) tt),
)

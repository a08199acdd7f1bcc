-- ===== src/Jsonutil/Template.antt =====
-- internal/jsonutil/template.go, but for `ValidateTemplate`.
pub mod Pieces
pub mod Names
pub mod Rendering
use clawbake.Base.{
  ℕ, zero, suc, ◌+◌, List, [], ◌∷◌, ◌++◌, Bool, true, false, not, ◌&&◌, ◌||◌, Option, none, some,
  Text, codes, join, length, is_empty, filter, contains, lookup, nat_eq, text_eq, ◌==◌, leb, ltb,
  if◌then◌else◌,
}
use clawbake.Jsonutil.Strings.{encode_body}

abbrev pub is_upper : ℕ → Bool
is_upper c = leb b'A' c && leb c b'Z'

abbrev pub is_name_char : ℕ → Bool
is_name_char c = is_upper c || (leb b'0' c && leb c b'9') || c == b'_'

-- The longest prefix of name characters, and what follows it.
unfoldable pub span_name : Text → Text × Text
span_name [] = ([], [])
span_name (c ∷ t) =
    let (name, rest) = span_name t in if is_name_char c then (c ∷ name, rest) else ([], c ∷ t)

abbrev pub closes : Text → Bool
closes (a ∷ b ∷ _) = a == b'}' && b == b'}'
closes _ = false

abbrev pub closed : ℕ → Text × Text → Option Text
closed c (name, rest) = if closes rest then some (c ∷ name) else none

-- The name that `placeholderRe` captures if it matches at the start of the text. A name character
-- is never a brace, so the greedy match is the only one.
unfoldable pub match_at : Text → Option Text
match_at (a ∷ b ∷ c ∷ t) =
    if a == b'{' && b == b'{' && is_upper c then closed c (span_name t) else none
match_at _ = none

pub data Piece : Type 0 where
  literal : ℕ → Piece
  placeholder : Text → Piece

-- The successive matches of `placeholderRe` and the characters between them. The number counts the
-- characters of a match that are still to be passed.
unfoldable pub pieces : ℕ → Text → List Piece
pieces skip [] = []
pieces (suc skip) (c ∷ t) = pieces skip t
pieces zero (c ∷ t) = elim (match_at (c ∷ t)) [
  | none ↦ literal c ∷ pieces zero t
  | some name ↦ placeholder name ∷ pieces (length name + 3) t
]

unfoldable pub captures : List Piece → List Text
captures [] = []
captures (literal c ∷ ps) = captures ps
captures (placeholder n ∷ ps) = n ∷ captures ps

-- The loop over the matches: `seen` holds the names that were appended.
unfoldable pub first_seen : List Text → List Text → List Text
first_seen names [] = names
first_seen names (m ∷ ms) = first_seen (if contains m names then names else names ++ m ∷ []) ms

unfoldable pub text_leb : Text → Text → Bool
text_leb [] _ = true
text_leb (a ∷ s) [] = false
text_leb (a ∷ s) (b ∷ t) = let rest = text_leb s t in if ltb a b then true else a == b && rest

unfoldable pub insert_sorted : Text → List Text → List Text
insert_sorted x [] = x ∷ []
insert_sorted x (y ∷ ys) = if text_leb x y then x ∷ y ∷ ys else y ∷ insert_sorted x ys

-- sort.Strings
unfoldable pub sort : List Text → List Text
sort [] = []
sort (x ∷ xs) = insert_sorted x (sort xs)

-- `ExtractPlaceholders`
unfoldable pub extract_placeholders : Text → List Text
extract_placeholders template = sort (first_seen [] (captures (pieces zero template)))

-- A Go map from names to values.
abbrev pub Values : Type 0
Values = List (Text × Text)

pub data Outcome : Type 0 where
  done : Text → Outcome
  failed : Text → Outcome

abbrev pub has_value : Values → Text → Bool
has_value values name = elim (lookup name values) [ none ↦ false | some v ↦ true ]

-- The names that have no value, in order.
unfoldable pub missing_names : Values → List Text → List Text
missing_names values names = filter (λ name. not (has_value values name)) names

abbrev pub value_of : Values → Text → Text
value_of values name = elim (lookup name values) [ none ↦ [] | some v ↦ v ]

-- The callback of `ReplaceAllStringFunc`, at each match.
unfoldable pub render : Values → List Piece → Text
render values [] = []
render values (literal c ∷ ps) = c ∷ render values ps
render values (placeholder n ∷ ps) = encode_body (value_of values n) ++ render values ps

abbrev pub missing_message : List Text → Text
missing_message missing = codes "missing required placeholder values: " ++ join missing (codes ", ")

-- `SubstitutePlaceholders`
unfoldable pub substitute_placeholders : Text → Values → Outcome
substitute_placeholders template values =
    let missing = missing_names values (extract_placeholders template) in
    if not (is_empty missing)
    then failed (missing_message missing)
    else done (render values (pieces zero template))

-- ===== src/Jsonutil/Json.antt =====
-- encoding/json as internal/jsonutil and the handlers use it: documents, `Valid`, `Unmarshal`,
-- `Marshal` and `Compact`. A number is kept as its literal; that it passes through a float64 is
-- the parameter `float_text` of the functions below. The limit of 10000 on the depth of a document
-- is not modelled.
mod Tests
pub mod Grammar
pub mod Reading
use clawbake.Base.{
  ℕ, zero, suc, ◌+◌, List, [], ◌∷◌, ◌++◌, Bool, true, false, not, ◌&&◌, ◌||◌, Option, none, some,
  Text, codes, join, map, length, is_empty, nat_eq, text_eq, ◌==◌, leb, ltb, if◌then◌else◌,
}
use clawbake.Base.Options.{◌>>=◌}
use clawbake.Jsonutil.Strings.{encode_body, read_literal}

mutual
  pub data Json : Type 0 where
    null : Json
    boolean : Bool → Json
    number : Text → Json
    string : Text → Json
    array : Items → Json
    object : Fields → Json

  pub data Items : Type 0 where
    nil : Items
    item : Json → Items → Items

  -- The fields of a text, in which a key can stand twice; or a Go map, in which none does.
  pub data Fields : Type 0 where
    end : Fields
    field : Text → Json → Fields → Fields

abbrev pub find : Text → Fields → Option Json
find k end = none
find k (field j v fs) = if j == k then some v else find k fs

abbrev pub put : Text → Json → Fields → Fields
put k v end = field k v end
put k v (field j w fs) = if j == k then field k v fs else field j w (put k v fs)

abbrev pub is_space : ℕ → Bool
is_space c = c == b' ' || c == 10 || c == 13 || c == 9

unfoldable pub skip_space : Text → Text
skip_space [] = []
skip_space (c ∷ t) = let rest = skip_space t in if is_space c then rest else c ∷ t

abbrev pub is_digit : ℕ → Bool
is_digit c = leb b'0' c && leb c b'9'

unfoldable pub span_digits : Text → Text × Text
span_digits [] = ([], [])
span_digits (c ∷ t) =
    let (ds, rest) = span_digits t in if is_digit c then (c ∷ ds, rest) else ([], c ∷ t)

-- The text behind a given start.
unfoldable pub eat : Text → Text → Option Text
eat [] t = some t
eat (p ∷ ps) [] = none
eat (p ∷ ps) (c ∷ t) = let rest = eat ps t in if c == p then rest else none

abbrev pub nonempty : Text × Text → Option (Text × Text)
nonempty ([], rest) = none
nonempty (c ∷ ds, rest) = some (c ∷ ds, rest)

-- `0`, or digits that do not begin with it.
unfoldable pub read_integer : Text → Option (Text × Text)
unfolding span_digits eat
read_integer t = elim (eat (b'0' ∷ []) t) [
  | some rest ↦ some (b'0' ∷ [], rest)
  | none ↦ nonempty (span_digits t)
]

unfoldable pub read_fraction : Text → Option (Text × Text)
unfolding span_digits eat
read_fraction t = elim (eat (b'.' ∷ []) t) [
  | none ↦ some ([], t)
  | some rest ↦ do (ds, rest') ← nonempty (span_digits rest); some (b'.' ∷ ds, rest')
]

-- An `e` or `E`, and a sign if there is one.
unfoldable pub read_mark : Text → Text × Text
read_mark [] = ([], [])
read_mark (c ∷ []) = if c == b'e' || c == b'E' then (c ∷ [], []) else ([], c ∷ [])
read_mark (c ∷ d ∷ t) =
    if c == b'e' || c == b'E'
    then (if d == b'+' || d == b'-' then (c ∷ d ∷ [], t) else (c ∷ [], d ∷ t))
    else ([], c ∷ d ∷ t)

abbrev pub after_mark : Text → Option (Text × Text) → Option (Text × Text)
after_mark mark none = none
after_mark mark (some (ds, rest)) = some (mark ++ ds, rest)

unfoldable pub read_exponent : Text → Option (Text × Text)
unfolding read_mark span_digits
read_exponent t =
    let (mark, rest) = read_mark t in
    if is_empty mark then some ([], t) else after_mark mark (nonempty (span_digits rest))

unfoldable pub read_number : Text → Option (Text × Text)
unfolding read_integer read_fraction read_exponent eat
read_number t = do
  let minus : Text × Text = elim (eat (b'-' ∷ []) t) [
    | some rest ↦ (b'-' ∷ [], rest)
    | none ↦ ([], t)
  ]
  integer ← read_integer minus.1
  fraction ← read_fraction integer.1
  exponent ← read_exponent fraction.1
  some (minus.0 ++ (integer.0 ++ (fraction.0 ++ exponent.0)), exponent.1)

-- What a document may begin with.
pub data Start : Type 0 where
  opens_object : Text → Start
  opens_array : Text → Start
  opens_string : Text → Start
  other : Text → Start

unfoldable pub start : Text → Start
start [] = other []
start (c ∷ t) =
    if c == b'{'
    then opens_object t
    else if c == b'['
    then opens_array t
    else if c == b'"'
    then opens_string t
    else other (c ∷ t)

-- Literals and numbers.
unfoldable pub read_atom : Text → Option (Json × Text)
unfolding eat read_number
read_atom t = elim (eat (codes "null") t) [
  | some rest ↦ some (null, rest)
  | none ↦ elim (eat (codes "true") t) [
    | some rest ↦ some (boolean true, rest)
    | none ↦ elim (eat (codes "false") t) [
      | some rest ↦ some (boolean false, rest)
      | none ↦ do (literal, rest) ← read_number t; some (number literal, rest)
    ]
  ]
]

abbrev pub closing_brace : Text → Option Text
closing_brace t = eat (b'}' ∷ []) (skip_space t)

abbrev pub closing_bracket : Text → Option Text
closing_bracket t = eat (b']' ∷ []) (skip_space t)

abbrev pub comma : Text → Option Text
comma t = eat (b',' ∷ []) (skip_space t)

-- The key of a field and its colon.
unfoldable pub read_key : Text → Option (Text × Text)
unfolding eat skip_space read_literal
read_key t = do
  quote ← eat (b'"' ∷ []) (skip_space t)
  key ← read_literal quote
  colon ← eat (b':' ∷ []) (skip_space key.1)
  some (key.0, colon)

-- Behind an opening bracket: its closing one, or what the reader finds.
abbrev pub closed_or :
    {A : Type 0} → Json → (A → Json) → Option Text → Option (A × Text) → Option (Json × Text)
closed_or empty full (some rest) read = some (empty, rest)
closed_or empty full none none = none
closed_or empty full none (some (a, rest)) = some (full a, rest)

-- Behind an element: the closing bracket, or a comma and more elements.
abbrev pub rest_or :
    {A : Type 0} → (A → A) → A → Option Text → Option Text → Option (A × Text) → Option (A × Text)
rest_or add last none none more = none
rest_or add last none (some rest) more = some (last, rest)
rest_or add last (some behind) close none = none
rest_or add last (some behind) close (some (bs, rest)) = some (add bs, rest)

abbrev pub and_read : {A : Type 0} → (Text → Option (A × Text)) → Option Text → Option (A × Text)
and_read read none = none
and_read read (some t) = read t

abbrev pub with_string : Option (Text × Text) → Option (Json × Text)
with_string none = none
with_string (some (s, rest)) = some (string s, rest)

abbrev pub from_start :
    (Text → Option (Fields × Text)) → (Text → Option (Items × Text)) → Start → Option (Json × Text)
from_start fields items (opens_object rest) =
    closed_or (object end) object (closing_brace rest) (fields rest)
from_start fields items (opens_array rest) =
    closed_or (array nil) array (closing_bracket rest) (items rest)
from_start fields items (opens_string rest) = with_string (read_literal rest)
from_start fields items (other rest) = read_atom rest

-- One unit of fuel for each value, element and field that is read.
unfoldable mutual
  unfolding skip_space eat start read_atom read_literal read_key

  pub read_value : ℕ → Text → Option (Json × Text)
  read_value zero t = none
  read_value (suc fuel) t =
      from_start (λ rest. read_fields fuel rest) (λ rest. read_items fuel rest)
        (start (skip_space t))

  pub read_items : ℕ → Text → Option (Items × Text)
  read_items zero t = none
  read_items (suc fuel) t = do
    v ← read_value fuel t
    rest_or (item v.0) (item v.0 nil) (comma v.1) (closing_bracket v.1)
        (and_read (λ rest. read_items fuel rest) (comma v.1))

  pub read_fields : ℕ → Text → Option (Fields × Text)
  read_fields zero t = none
  read_fields (suc fuel) t = do
    key ← read_key t
    v ← read_value fuel key.1
    rest_or (field key.0 v.0) (field key.0 v.0 end) (comma v.1) (closing_brace v.1)
        (and_read (λ rest. read_fields fuel rest) (comma v.1))

abbrev pub at_end : Option (Json × Text) → Option Json
at_end none = none
at_end (some (v, rest)) = if is_empty (skip_space rest) then some v else none

-- A document and nothing behind it. A text has no more values than characters.
unfoldable pub parse : Text → Option Json
unfolding read_value skip_space
parse t = at_end (read_value (suc (length t)) t)

-- json.Valid
unfoldable pub valid : Text → Bool
unfolding parse
valid t = elim (parse t) [ none ↦ false | some v ↦ true ]

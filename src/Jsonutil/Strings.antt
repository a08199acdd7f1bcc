-- ===== src/Jsonutil/Strings.antt =====
-- String literals of encoding/json: what `Marshal` writes for a string, and how a literal is read.
-- A text is a list of code points, so the replacement of invalid UTF-8 does not arise.
pub mod RoundTrip
use Prim.Native.Nat.{◌/◌}
use clawbake.Base.{
  ℕ, zero, suc, ◌+◌, ◌-◌, ◌*◌, ◌%◌, List, [], ◌∷◌, ◌++◌, Bool, true, false, ◌&&◌, ◌||◌, Option,
  none, some, Text, nat_eq, ◌==◌, ltb, leb, if◌then◌else◌,
}

-- The lower case digit of a number below 16.
unfoldable pub hex_digit : ℕ → ℕ
hex_digit n = if ltb n 10 then b'0' + n else b'a' + (n - 10)

unfoldable pub hex4 : ℕ → Text
hex4 n =
    hex_digit (n / 4096 % 16)
    ∷ hex_digit (n / 256 % 16)
    ∷ hex_digit (n / 16 % 16)
    ∷ hex_digit (n % 16)
    ∷ []

-- Written as a backslash and a letter.
unfoldable pub short_escape : ℕ → Option ℕ
short_escape c =
    if c == b'"' || c == b'\\'
    then some c
    else if c == 8
    then some b'b'
    else if c == 12
    then some b'f'
    else if c == 10
    then some b'n'
    else if c == 13
    then some b'r'
    else if c == 9
    then some b't'
    else none

-- The other control characters, the characters of HTML, and U+2028 and U+2029.
unfoldable pub needs_hex : ℕ → Bool
needs_hex c = ltb c 32 || c == b'<' || c == b'>' || c == b'&' || c == 0x2028 || c == 0x2029

-- From the short escape of the character, if it has one, and whether it is to be written as \u.
abbrev pub encode_as : Option ℕ → Bool → ℕ → Text
encode_as (some e) _ c = b'\\' ∷ e ∷ []
encode_as none true c = b'\\' ∷ b'u' ∷ hex4 c
encode_as none false c = c ∷ []

unfoldable pub encode_char : ℕ → Text
encode_char c = encode_as (short_escape c) (needs_hex c) c

-- What `Marshal` writes for a string, without the quotes round it.
unfoldable pub encode_body : Text → Text
encode_body [] = []
encode_body (c ∷ t) = encode_char c ++ encode_body t

-- A literal is read character by character. An element is a character that stood as it is or behind
-- a backslash, or the code unit of a \u escape.
pub data Element : Type 0 where
  char : ℕ → Element
  code_unit : ℕ → Element

-- Between elements; behind a backslash; behind \u, with the digits still to come and their value.
pub data Mode : Type 0 where
  plain : Mode
  escaped : Mode
  hex : ℕ → ℕ → Mode

unfoldable pub hex_value : ℕ → Option ℕ
hex_value c =
    if leb b'0' c && leb c b'9'
    then some (c - b'0')
    else if leb b'a' c && leb c b'f'
    then some (c - b'a' + 10)
    else if leb b'A' c && leb c b'F'
    then some (c - b'A' + 10)
    else none

unfoldable pub unescape : ℕ → Option ℕ
unescape c =
    if c == b'"' || c == b'\\' || c == b'/'
    then some c
    else if c == b'b'
    then some 8
    else if c == b'f'
    then some 12
    else if c == b'n'
    then some 10
    else if c == b'r'
    then some 13
    else if c == b't'
    then some 9
    else none

-- What a character does: it ends the literal, goes on in a mode, perhaps with an element, or is
-- refused.
pub data Step : Type 0 where
  close : Step
  go : Mode → Step
  emit : Element → Step
  refuse : Step

abbrev emit_or_refuse : Option ℕ → Step
emit_or_refuse none = refuse
emit_or_refuse (some c) = emit (char c)

abbrev pub hex_step : ℕ → ℕ → Option ℕ → Step
hex_step left value none = refuse
hex_step zero value (some d) = emit (code_unit (value * 16 + d))
hex_step (suc left) value (some d) = go (hex left (value * 16 + d))

unfoldable pub step : Mode → ℕ → Step
step plain c =
    if c == b'"'
    then close
    else if c == b'\\'
    then go escaped
    else if ltb c 32
    then refuse
    else emit (char c)
step escaped c = if c == b'u' then go (hex 3 0) else emit_or_refuse (unescape c)
step (hex left value) c = hex_step left value (hex_value c)

abbrev pub prepend : Element → Option (List Element × Text) → Option (List Element × Text)
prepend e none = none
prepend e (some (es, rest)) = some (e ∷ es, rest)

-- Reads up to the closing quote, behind the opening one: the elements and the text that follows.
unfoldable pub scan_literal : Mode → Text → Option (List Element × Text)
scan_literal mode [] = none
scan_literal mode (c ∷ t) = elim (step mode c) [
  | close ↦ some ([], t)
  | go next ↦ scan_literal next t
  | emit e ↦ prepend e (scan_literal plain t)
  | refuse ↦ none
]

abbrev pub is_high : ℕ → Bool
is_high u = leb 0xd800 u && ltb u 0xdc00

abbrev pub is_low : ℕ → Bool
is_low u = leb 0xdc00 u && ltb u 0xe000

-- A surrogate pair is one code point; a lone surrogate becomes U+FFFD.
unfoldable pub combine : List Element → Text
combine [] = []
combine (char c ∷ es) = c ∷ combine es
combine (code_unit h ∷ code_unit u ∷ es) =
    let paired = (0x10000 + (h - 0xd800) * 1024 + (u - 0xdc00)) ∷ combine es in
    let apart = (if is_high h || is_low h then 0xfffd else h) ∷ combine (code_unit u ∷ es) in
    if is_high h && is_low u then paired else apart
combine (code_unit h ∷ es) = (if is_high h || is_low h then 0xfffd else h) ∷ combine es

unfoldable pub read_literal : Text → Option (Text × Text)
read_literal t = elim (scan_literal plain t) [
  | none ↦ none
  | some (es, rest) ↦ some (combine es, rest)
]

-- ===== src/Handler/Layout.antt =====
-- `prettyJSON` and `compactJSON` of internal/handler/pages.go: json.Indent and json.Compact on the
-- documents that they accept, where white space outside the strings is all that changes.
pub mod Whitespace
use clawbake.Base.{
  ℕ, zero, suc, ◌-◌, ◌+◌, List, [], ◌∷◌, ◌++◌, Bool, true, false, ◌&&◌, ◌||◌, not, Text, nat_eq,
  ◌==◌, if◌then◌else◌,
}
use clawbake.Jsonutil.Json.{is_space, valid}

-- Outside of a string, in one, or behind a backslash in one.
pub data Place : Type 0 where
  outside inside escaped : Place

abbrev pub next_place : Place → ℕ → Place
next_place outside c = if c == b'"' then inside else outside
next_place inside c = if c == b'\\' then escaped else if c == b'"' then outside else inside
next_place escaped c = inside

abbrev pub dropped : Place → ℕ → Bool
dropped outside c = is_space c
dropped _ c = false

unfoldable pub strip : Place → Text → Text
strip p [] = []
strip p (c ∷ t) = let rest = strip (next_place p c) t in if dropped p c then rest else c ∷ rest

-- `compactJSON`
unfoldable pub compact_json : Text → Text
unfolding strip
compact_json s = if valid s then strip outside s else s

-- The state of `Indent`: the indentation, whether an opened bracket still waits for its line, how
-- many brackets are open, and whether the document has begun.
pub record Indentation : Type 0 where
  pub depth : ℕ
  pub need_indent : Bool
  pub nesting : ℕ
  pub started : Bool

abbrev pub spaces : ℕ → Text
spaces zero = []
spaces (suc n) = b' ' ∷ b' ' ∷ spaces n

abbrev pub newline : ℕ → Text
newline depth = b'\n' ∷ spaces depth

abbrev opens : ℕ → Bool
opens c = c == b'{' || c == b'['

abbrev closes : ℕ → Bool
closes c = c == b'}' || c == b']'

-- What is written before and behind a character outside of strings that is not white space.
abbrev pub before : Indentation → ℕ → Text
before n c =
    if closes c
    then (if n.need_indent then [] else newline (n.depth - 1))
    else if n.need_indent
    then newline (n.depth + 1)
    else []

abbrev pub depth_at : Indentation → ℕ → ℕ
depth_at n c =
    if closes c
    then (if n.need_indent then n.depth else n.depth - 1)
    else if n.need_indent
    then n.depth + 1
    else n.depth

abbrev pub behind : Indentation → ℕ → Text
behind n c = if c == b',' then newline (depth_at n c) else if c == b':' then b' ' ∷ [] else []

abbrev pub advance : Indentation → ℕ → Indentation
advance n c = record {
  depth = depth_at n c;
  need_indent = opens c;
  nesting = if opens c then suc n.nesting else if closes c then n.nesting - 1 else n.nesting;
  started = true;
}

-- White space behind the document is kept.
abbrev pub trailing : Indentation → Bool
trailing n = n.started && n.nesting == 0

unfoldable pub indent : Indentation → Place → Text → Text
indent n p [] = []
indent n inside (c ∷ t) = c ∷ indent n (next_place inside c) t
indent n escaped (c ∷ t) = c ∷ indent n inside t
indent n outside (c ∷ t) =
    let kept = indent n outside t in
    let rest = indent (advance n c) (next_place outside c) t in
    if is_space c
    then (if trailing n then c ∷ kept else kept)
    else before n c ++ (c ∷ (behind n c ++ rest))

abbrev pub start : Indentation
start = record { depth = 0; need_indent = false; nesting = 0; started = false }

-- `prettyJSON`
unfoldable pub pretty_json : Text → Text
unfolding indent
pretty_json s = if valid s then indent start outside s else s

-- ===== src/Bot/Commands.antt =====
-- `parseCreateArgs` of internal/bot/commands.go.
pub mod Arguments
use mathlib.Core.List.{reverse}
use clawbake.Base.{
  ℕ, List, [], ◌∷◌, ◌++◌, Bool, ◌&&◌, ◌||◌, Option, none, some, Text, codes, has_prefix, is_empty,
  join, drop, insert, length, nat_eq, text_eq, ◌==◌, leb, if◌then◌else◌,
}
use clawbake.Jsonutil.Template.{Values}

-- unicode.IsSpace
abbrev pub is_white : ℕ → Bool
is_white c =
    (leb 9 c && leb c 13)
    || (c == 32
        || (c == 133
            || (c == 160
                || (c == 5760
                    || ((leb 8192 c && leb c 8202)
                        || (c == 8232
                            || (c == 8233 || (c == 8239 || (c == 8287 || c == 12288)))))))))

-- strings.TrimSpace
unfoldable pub trim_left : Text → Text
trim_left [] = []
trim_left (c ∷ t) = let rest = trim_left t in if is_white c then rest else c ∷ t

unfoldable pub trim_space : Text → Text
unfolding trim_left
trim_space t = reverse (trim_left (reverse (trim_left t)))

-- strings.TrimPrefix
abbrev pub trim_prefix : Text → Text → Text
trim_prefix t prefix = if has_prefix t prefix then drop (length prefix) t else t

abbrev pub flush : Text → List Text
flush word = if is_empty word then [] else word ∷ []

-- strings.Fields, with the word that has been read so far
unfoldable pub fields_from : Text → Text → List Text
fields_from word [] = flush word
fields_from word (c ∷ t) =
    let next = fields_from [] t in
    let longer = fields_from (word ++ c ∷ []) t in if is_white c then flush word ++ next else longer

-- The text before the first `=` and the text behind it.
unfoldable pub split_equals : Text → Option (Text × Text)
split_equals [] = none
split_equals (c ∷ t) =
    let rest = longer c (split_equals t) in if c == b'=' then some ([], t) else rest
  where
    longer : ℕ → Option (Text × Text) → Option (Text × Text)
    longer c none = none
    longer c (some (before, behind)) = some (c ∷ before, behind)

-- `idx > 0`
abbrev pub with_key : Option (Text × Text) → Option (Text × Text)
with_key (some (k, v)) = if is_empty k then none else some (k, v)
with_key none = none

-- `jsonOverride + " " + strings.Join(parts[i+1:], " ")`, if there are more parts
abbrev pub rejoin : Text → List Text → Text
rejoin first [] = first
rejoin first (p ∷ ps) = first ++ (b' ' ∷ join (p ∷ ps) (codes " "))

-- The loop over the parts.
unfoldable mutual
  pub parse_parts : Values → List Text → Values × Text
  parse_parts values [] = (values, [])
  parse_parts values (p ∷ ps) = elim (has_prefix p (codes "json=")) [
    | Bool.true ↦ (values, rejoin (drop 5 p) ps)
    | Bool.false ↦ elim (with_key (split_equals p)) [
      | some kv ↦ parse_parts (insert kv.0 kv.1 values) ps
      | none ↦ elim (has_prefix p (codes "{")) [
        | Bool.true ↦ (values, join (p ∷ ps) (codes " "))
        | Bool.false ↦ parse_parts values ps
      ]
    ]
  ]

-- `parseCreateArgs`; its error is always nil, and a map without entries stands for nil.
unfoldable pub parse_create_args : Text → Values × Text
unfolding trim_space fields_from parse_parts
parse_create_args text =
    let args = trim_space (trim_prefix (trim_space text) (codes "create")) in
    if is_empty args then ([], []) else parse_parts [] (fields_from [] args)

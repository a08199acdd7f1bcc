-- ===== src/Bot/Commands/Arguments.antt =====
-- What `parseCreateArgs` makes of its parts.
use clawbake.Base.{
  List, [], ◌∷◌, ◌++◌, false, some, ◌≡◌, refl, ap, ◌∙◌, Text, codes, All, contains, has_prefix,
  is_empty, insert, map, nat_eq, text_eq, arith,
}
use clawbake.Jsonutil.Template.{Values}
use clawbake.Bot.Commands.{split_equals, with_key, parse_parts, rejoin}

-- KEY=value
abbrev pub spell : Text × Text → Text
spell (k, v) = k ++ (b'=' ∷ v)

-- A key that is not empty and has no `=`, and not the key "json" of the override.
abbrev pub IsPair : Text × Text → Type 0
IsPair kv =
    (is_empty kv.0 ≡ false)
    × (contains b'=' kv.0 ≡ false)
    × (has_prefix (spell kv) (codes "json=") ≡ false)

abbrev pub insert_all : List (Text × Text) → Values → Values
insert_all [] values = values
insert_all ((k, v) ∷ kvs) values = insert_all kvs (insert k v values)

split_equals-spell :
    (k v : Text) → contains b'=' k ≡ false → split_equals (k ++ (b'=' ∷ v)) ≡ some (k, v)
unfolding split_equals
split_equals-spell [] v h = refl
split_equals-spell (c ∷ k) v h = ground (arith, h, split_equals-spell k v (ground (arith, h)))

with_key-some : (k v : Text) → is_empty k ≡ false → with_key (some (k, v)) ≡ some (k, v)
with_key-some k v h = rw h refl

parse_parts-pair :
    (k v : Text) (values : Values) (ps : List Text)
    → IsPair (k, v)
    → parse_parts values (spell (k, v) ∷ ps) ≡ parse_parts (insert k v values) ps
unfolding parse_parts
parse_parts-pair k v values ps (given, plain, no_override) =
    rw
      (
        parse_parts,
        no_override,
        ap with_key (split_equals-spell k v plain) ∙ with_key-some k v given,
      )
      refl

-- Whatever has been read before: the pairs KEY=value in front of the other parts are all put into the
-- values, each value whole, also where it has a `=` of its own, and the last of a key counts; and the
-- override behind them is the text that follows `json=`, with the parts that come after it.
pub parse_parts-pairs :
    (kvs : List (Text × Text)) (values : Values) (json : Text) (ps : List Text)
    → All IsPair kvs
    → parse_parts values (map spell kvs ++ ((codes "json=" ++ json) ∷ ps))
      ≡ (insert_all kvs values, rejoin json ps)
unfolding parse_parts
parse_parts-pairs [] values json ps h = refl
parse_parts-pairs ((k, v) ∷ kvs) values json ps (h, hs) =
    parse_parts-pair k v values (map spell kvs ++ ((codes "json=" ++ json) ∷ ps)) h
    ∙ parse_parts-pairs kvs (insert k v values) json ps hs

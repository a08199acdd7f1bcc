-- ===== src/Examples/Commanding.antt =====
-- Commands of the bot.
use clawbake.Base.{[], ◌∷◌, ◌++◌, ◌≡◌, refl, List, Text, codes, map, insert, text_eq}
use clawbake.Bot.Commands.{
  parse_create_args, parse_parts, trim_space, trim_left, fields_from, split_equals, rejoin,
}
use clawbake.Bot.Commands.Arguments.{spell, insert_all, parse_parts-pairs}

reads_arguments :
    parse_create_args (codes "create KEY=a=b  json={\"x\": 1}")
    ≡ ((codes "KEY", codes "a=b") ∷ [], codes "{\"x\": 1}")
unfolding parse_create_args parse_parts trim_space trim_left fields_from split_equals insert
reads_arguments = refl

-- A bare override with a `=` in it is taken for a pair, and is lost.
loses_override :
    parse_create_args (codes "create {\"u\":\"?a=b\"}")
    ≡ ((codes "{\"u\":\"?a", codes "b\"}") ∷ [], [])
unfolding parse_create_args parse_parts trim_space trim_left fields_from split_equals insert
loses_override = refl

abbrev pairs : List (Text × Text)
pairs = (codes "KEY", codes "a=b") ∷ (codes "OTHER", []) ∷ []

parse_parts-pairs_example :
    parse_parts [] (map spell pairs ++ ((codes "json=" ++ codes "{}") ∷ codes "x" ∷ []))
    ≡ (insert_all pairs [], rejoin (codes "{}") (codes "x" ∷ []))
parse_parts-pairs_example =
    parse_parts-pairs pairs [] (codes "{}") (codes "x" ∷ [])
      ((refl, refl, refl), ((refl, refl, refl), tt))

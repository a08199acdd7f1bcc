-- ===== src/Jsonutil/Json/Grammar.antt =====
-- The grammar of the documents that encoding/json accepts, over the lexemes: which text begins with
-- which value, and what follows it. It knows nothing of the order or the fuel of the reader.
pub mod Soundness
pub mod Sizes
pub mod Lexemes
pub mod Beginnings
pub mod Fuel
pub mod Completeness
use clawbake.Base.{Text, ◌≡◌, some, true, is_empty}
use clawbake.Jsonutil.Json.{
  Json, null, string, array, object, Items, nil, item, Fields, end, field, opens_object,
  opens_array, opens_string, other, start, skip_space, read_atom, read_key, closing_brace,
  closing_bracket, comma,
}
use clawbake.Jsonutil.Strings.{read_literal}

mutual
  pub data IsValue : Text → Json → Text → Type 0 where
    empty_object :
        (t rest rest' : Text)
        → start (skip_space t) ≡ opens_object rest
        → closing_brace rest ≡ some rest'
        → IsValue t (object end) rest'
    full_object :
        (t rest rest' : Text) (fs : Fields)
        → start (skip_space t) ≡ opens_object rest
        → IsFields rest fs rest'
        → IsValue t (object fs) rest'
    empty_array :
        (t rest rest' : Text)
        → start (skip_space t) ≡ opens_array rest
        → closing_bracket rest ≡ some rest'
        → IsValue t (array nil) rest'
    full_array :
        (t rest rest' : Text) (vs : Items)
        → start (skip_space t) ≡ opens_array rest
        → IsItems rest vs rest'
        → IsValue t (array vs) rest'
    literal :
        (t rest rest' s : Text)
        → start (skip_space t) ≡ opens_string rest
        → read_literal rest ≡ some (s, rest')
        → IsValue t (string s) rest'
    atom :
        (t rest rest' : Text) (v : Json)
        → start (skip_space t) ≡ other rest
        → read_atom rest ≡ some (v, rest')
        → IsValue t v rest'

  pub data IsItems : Text → Items → Text → Type 0 where
    last_item :
        (t rest rest' : Text) (v : Json)
        → IsValue t v rest
        → closing_bracket rest ≡ some rest'
        → IsItems t (item v nil) rest'
    more_items :
        (t rest more rest' : Text) (v : Json) (vs : Items)
        → IsValue t v rest
        → comma rest ≡ some more
        → IsItems more vs rest'
        → IsItems t (item v vs) rest'

  pub data IsFields : Text → Fields → Text → Type 0 where
    last_field :
        (t k colon rest rest' : Text) (v : Json)
        → read_key t ≡ some (k, colon)
        → IsValue colon v rest
        → closing_brace rest ≡ some rest'
        → IsFields t (field k v end) rest'
    more_fields :
        (t k colon rest more rest' : Text) (v : Json) (fs : Fields)
        → read_key t ≡ some (k, colon)
        → IsValue colon v rest
        → comma rest ≡ some more
        → IsFields more fs rest'
        → IsFields t (field k v fs) rest'

-- A value with nothing but white space behind it.
abbrev pub IsDocument : Text → Json → Type 0
IsDocument t v = (rest : Text) × IsValue t v rest × (is_empty (skip_space rest) ≡ true)

-- ===== src/Jsonutil/Merge.antt =====
-- internal/jsonutil/merge.go, and `ValidateTemplate` of template.go.
pub mod Lookup
pub mod Results
pub mod Documents
pub mod Written
pub mod Numbers
pub mod Output
use clawbake.Base.{
  ℕ, List, [], ◌∷◌, ◌++◌, Bool, true, false, not, Option, none, some, Text, codes, join, map,
  is_empty, nat_eq, text_eq, ◌==◌, if◌then◌else◌,
}
use clawbake.Base.Options.{◌>>=◌}
use clawbake.Jsonutil.Strings.{encode_body}
use clawbake.Jsonutil.Json.{
  Json, null, boolean, number, string, array, object, Items, nil, item, Fields, end, field, find,
  put, parse, valid,
}
use clawbake.Jsonutil.Template.{
  text_leb, extract_placeholders, substitute_placeholders, Outcome, done, failed, Values,
}

-- `deepMerge`. The Go loop goes over a map in any order; here it goes over the fields in theirs.
unfoldable mutual
  pub deep_merge : Fields → Fields → Fields
  deep_merge base end = base
  deep_merge base (field k v rest) = deep_merge (put k (merge_value (find k base) v) base) rest

  -- What the key holds afterwards, from what the base held and the value of the override.
  pub merge_value : Option Json → Json → Json
  merge_value (some (object b)) (object o) = object (deep_merge b o)
  merge_value _ v = v

abbrev pub quoted : Text → Text
quoted s = b'"' ∷ (encode_body s ++ (b'"' ∷ []))

-- `Marshal` writes the keys of a map in order.
unfoldable pub insert_key : Text × Text → List (Text × Text) → List (Text × Text)
insert_key e [] = e ∷ []
insert_key e (f ∷ fs) = if text_leb e.0 f.0 then e ∷ f ∷ fs else f ∷ insert_key e fs

unfoldable pub sort_keys : List (Text × Text) → List (Text × Text)
unfolding insert_key
sort_keys [] = []
sort_keys (e ∷ es) = insert_key e (sort_keys es)

abbrev pub braced : List (Text × Text) → Text
braced es = b'{' ∷ (join (map (λ e. quoted e.0 ++ (b':' ∷ e.1)) es) (codes ",") ++ (b'}' ∷ []))

unfoldable mutual
  unfolding sort_keys

  pub marshal : Json → Text
  marshal null = codes "null"
  marshal (boolean true) = codes "true"
  marshal (boolean false) = codes "false"
  marshal (number l) = l
  marshal (string s) = quoted s
  marshal (array vs) = b'[' ∷ (join (marshal_items vs) (codes ",") ++ (b']' ∷ []))
  marshal (object fs) = braced (sort_keys (marshal_fields fs))

  pub marshal_items : Items → List Text
  marshal_items nil = []
  marshal_items (item v vs) = marshal v ∷ marshal_items vs

  pub marshal_fields : Fields → List (Text × Text)
  marshal_fields end = []
  marshal_fields (field k v fs) = (k, marshal v) ∷ marshal_fields fs

-- What `MergeJSON` returns; `panicked` is the write to a nil map.
pub data Merged : Type 0 where
  merged : Text → Merged
  invalid_base : Merged
  invalid_override : Merged
  panicked : Merged

-- A later field of the same key replaces an earlier one.
abbrev pub add_field : Text → Json → Fields → Fields
add_field k v fs = elim (find k fs) [ none ↦ field k v fs | some w ↦ fs ]

-- `float_text` is what a number's literal is written as after it has been read as a float64; it has
-- no value if the number is out of range.
module _ (float_text : Text → Option Text) where
  -- Into an `any`: every field is decoded, also one that a later field replaces.
  unfoldable mutual
    pub decode : Json → Option Json
    decode (number l) = do l' ← float_text l; some (number l')
    decode (array vs) = do vs' ← decode_items vs; some (array vs')
    decode (object fs) = do fs' ← decode_fields fs; some (object fs')
    decode v = some v

    pub decode_items : Items → Option Items
    decode_items nil = some nil
    decode_items (item v vs) = do v' ← decode v; vs' ← decode_items vs; some (item v' vs')

    pub decode_fields : Fields → Option Fields
    decode_fields end = some end
    decode_fields (field k v fs) = do
      v' ← decode v
      fs' ← decode_fields fs
      some (add_field k v' fs')

  abbrev pub as_map : Json → Option (Option Fields)
  as_map null = some none
  as_map (object fs) = some (some fs)
  as_map v = none

  -- `Unmarshal` into a `map[string]any`: `null` leaves the map nil.
  unfoldable pub unmarshal_map : Text → Option (Option Fields)
  unfolding parse decode
  unmarshal_map t = do v ← parse t; v' ← decode v; as_map v'

  abbrev pub fields_of : Option Fields → Fields
  fields_of none = end
  fields_of (some fs) = fs

  -- `deepMerge` into the base and `Marshal`. A nil base is written only if there is a key to write.
  abbrev pub merge_maps : Option Fields → Fields → Merged
  merge_maps none end = merged (codes "null")
  merge_maps none (field k v fs) = panicked
  merge_maps (some base) fs = merged (marshal (object (deep_merge base fs)))

  abbrev pub merge_unmarshalled : Option (Option Fields) → Option (Option Fields) → Merged
  merge_unmarshalled none _ = invalid_base
  merge_unmarshalled (some base) none = invalid_override
  merge_unmarshalled (some base) (some over) = merge_maps base (fields_of over)

  -- `MergeJSON`
  unfoldable pub merge_json : Text → Text → Merged
  merge_json base over = merge_unmarshalled (unmarshal_map base) (unmarshal_map over)

-- `ValidateTemplate`
pub data Validity : Type 0 where
  accepted : Validity
  not_substituted : Text → Validity
  not_json : Validity

abbrev pub dummy_values : List Text → Values
dummy_values names = map (λ name. (name, codes "placeholder")) names

abbrev pub check_result : Outcome → Validity
check_result (failed message) = not_substituted message
check_result (done out) = if not (valid out) then not_json else accepted

unfoldable pub validate_template : Text → Validity
validate_template template =
    let names = extract_placeholders template in
    if is_empty names
    then accepted
    else check_result (substitute_placeholders template (dummy_values names))

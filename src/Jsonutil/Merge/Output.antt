-- ===== src/Jsonutil/Merge/Output.antt =====
-- The text that `MergeJSON` returns.
use mathlib.Core.List.{append-nil}
use clawbake.Base.{[], ◌≡◌, refl, subst, ◌⊎◌, inl, inr, Option, none, some, Text, codes}
use clawbake.Jsonutil.Json.{
  Json, null, boolean, number, string, array, object, Fields, end, field, parse, skip_space, start,
  read_atom, eat,
}
use clawbake.Jsonutil.Json.Grammar.{IsValue, IsDocument, atom}
use clawbake.Jsonutil.Json.Grammar.Soundness.{bind-some}
use clawbake.Jsonutil.Merge.{
  decode, as_map, unmarshal_map, deep_merge, marshal, merged, merge_maps, merge_unmarshalled,
  merge_json, fields_of,
}
use clawbake.Jsonutil.Merge.Written.{Written}
use clawbake.Jsonutil.Merge.Numbers.{
  Numeric, NumericFields, FieldsOption, decode-Numeric, deep_merge-Numeric, marshal-IsValue,
}

-- A document that is `null` or an object.
abbrev pub MapDocument : Text → Type 0
MapDocument out = IsDocument out null ⊎ ((fs : Fields) × IsDocument out (object fs))

module _ (float_text : Text → Option Text)
    (writes : (l l' : Text) → float_text l ≡ some l' → Written l') where
  as_map-Numeric :
      (v : Json) (m : Option Fields) → Numeric v → as_map float_text v ≡ some m → FieldsOption m
  unfolding Numeric
  as_map-Numeric null none h e = tt
  as_map-Numeric null (some fs) h e = absurd (cc)
  as_map-Numeric (object fs) none h e = absurd (cc)
  as_map-Numeric (object fs) (some gs) h e = subst NumericFields (cc) h
  as_map-Numeric (boolean b) m h e = absurd (cc)
  as_map-Numeric (number b) m h e = absurd (cc)
  as_map-Numeric (string b) m h e = absurd (cc)
  as_map-Numeric (array b) m h e = absurd (cc)

  unmarshal_map-Numeric :
      (t : Text) (m : Option Fields) → unmarshal_map float_text t ≡ some m → FieldsOption m
  unfolding unmarshal_map
  unmarshal_map-Numeric t m h =
      let (v, e, rest) = bind-some (parse t) _ m h in
      let (v', e', last) = bind-some (decode float_text v) _ m rest in
      as_map-Numeric v' m (decode-Numeric float_text writes v v' e') last

  object-MapDocument : (fs : Fields) → NumericFields fs → MapDocument (marshal (object fs))
  unfolding skip_space
  object-MapDocument fs h =
      let (gs, o) = marshal-IsValue fs [] h in
      inr
        (gs, ([], subst (λ t. IsValue t (object gs) []) (append-nil (marshal (object fs))) o, refl))

  null-MapDocument : MapDocument (codes "null")
  unfolding start skip_space read_atom eat
  null-MapDocument = inl ([], atom _ (codes "null") [] null refl refl, refl)

  merge_maps-MapDocument :
      (b : Option Fields) (o : Fields) (out : Text)
      → FieldsOption b
      → NumericFields o
      → merge_maps float_text b o ≡ merged out
      → MapDocument out
  merge_maps-MapDocument none end out h k e = subst MapDocument (cc) null-MapDocument
  merge_maps-MapDocument none (field j v fs) out h k e = absurd (cc)
  merge_maps-MapDocument (some b) o out h k e =
      subst MapDocument (cc) (object-MapDocument (deep_merge b o) (deep_merge-Numeric o b h k))

  fields_of-Numeric : (m : Option Fields) → FieldsOption m → NumericFields (fields_of float_text m)
  unfolding Numeric
  fields_of-Numeric none h = tt
  fields_of-Numeric (some fs) h = h

  merge_unmarshalled-MapDocument :
      (b o : Option (Option Fields)) (out : Text)
      → ((m : Option Fields) → b ≡ some m → FieldsOption m)
      → ((m : Option Fields) → o ≡ some m → FieldsOption m)
      → merge_unmarshalled float_text b o ≡ merged out
      → MapDocument out
  merge_unmarshalled-MapDocument none o out h k e = absurd (cc)
  merge_unmarshalled-MapDocument (some b) none out h k e = absurd (cc)
  merge_unmarshalled-MapDocument (some b) (some o) out h k e =
      merge_maps-MapDocument b (fields_of float_text o) out (h b refl)
        (fields_of-Numeric o (k o refl)) e

  -- Where a float64 is written as a number of the grammar, what `MergeJSON` returns without an error
  -- is a document of the grammar, and it is `null` or an object.
  pub merge_json-MapDocument :
      (base over out : Text) → merge_json float_text base over ≡ merged out → MapDocument out
  unfolding merge_json
  merge_json-MapDocument base over out e =
      merge_unmarshalled-MapDocument (unmarshal_map float_text base) (unmarshal_map float_text over)
        out (unmarshal_map-Numeric base) (unmarshal_map-Numeric over) e

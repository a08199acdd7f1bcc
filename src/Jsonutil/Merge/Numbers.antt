-- ===== src/Jsonutil/Merge/Numbers.antt =====
-- Documents whose numbers are written as values, as the ones are that a float64 is written as.
use clawbake.Base.{
  ◌++◌, true, false, ◌≡◌, subst, Option, none, some, Text, All, if_elim, ◌==◌, nat_eq, text_eq,
}
use clawbake.Jsonutil.Json.{
  Json, null, boolean, number, string, array, object, Items, nil, item, Fields, end, field,
}
use clawbake.Jsonutil.Json.Grammar.{IsValue}
use clawbake.Jsonutil.Merge.{sort_keys, marshal, marshal_items, marshal_fields}
use clawbake.Jsonutil.Json.{find, put}
use clawbake.Jsonutil.Json.Grammar.Soundness.{bind-some}
use clawbake.Jsonutil.Merge.{
  add_field, decode, decode_items, decode_fields, deep_merge, merge_value,
}
use clawbake.Jsonutil.Merge.Written.{
  Written, EntryWritten, null-Written, true-Written, false-Written, quoted-Written,
  bracketed-Written, braced-IsValue, sort_keys-All,
}

-- Every number of a document is written as a value.
unfoldable mutual
  pub Numeric : Json → Type 0
  Numeric (number l) = Written l
  Numeric (array vs) = NumericItems vs
  Numeric (object fs) = NumericFields fs
  Numeric v = Unit

  pub NumericItems : Items → Type 0
  NumericItems nil = Unit
  NumericItems (item v vs) = Numeric v × NumericItems vs

  pub NumericFields : Fields → Type 0
  NumericFields end = Unit
  NumericFields (field k v fs) = Numeric v × NumericFields fs

mutual
  unfolding marshal Numeric

  marshal-Written : (v : Json) → Numeric v → Written (marshal v)
  marshal-Written null h = null-Written
  marshal-Written (boolean true) h = true-Written
  marshal-Written (boolean false) h = false-Written
  marshal-Written (number l) h = h
  marshal-Written (string s) h = quoted-Written s
  marshal-Written (array vs) h = bracketed-Written (marshal_items vs) (marshal_items-All vs h)
  marshal-Written (object fs) h = λ rest d.
      let (gs, o) =
        braced-IsValue (sort_keys (marshal_fields fs)) rest
          (sort_keys-All (marshal_fields fs) (marshal_fields-All fs h)) in
      (object gs, o)

  marshal_items-All : (vs : Items) → NumericItems vs → All Written (marshal_items vs)
  marshal_items-All nil h = tt
  marshal_items-All (item v vs) (h, hs) = (marshal-Written v h, marshal_items-All vs hs)

  marshal_fields-All : (fs : Fields) → NumericFields fs → All EntryWritten (marshal_fields fs)
  marshal_fields-All end h = tt
  marshal_fields-All (field k v fs) (h, hs) = (marshal-Written v h, marshal_fields-All fs hs)

-- An object is written as an object.
pub marshal-IsValue :
    (fs : Fields) (rest : Text)
    → NumericFields fs
    → (gs : Fields) × IsValue (marshal (object fs) ++ rest) (object gs) rest
unfolding marshal
marshal-IsValue fs rest h =
    braced-IsValue (sort_keys (marshal_fields fs)) rest
      (sort_keys-All (marshal_fields fs) (marshal_fields-All fs h))

put-Numeric :
    (k : Text) (v : Json) (fs : Fields) → Numeric v → NumericFields fs → NumericFields (put k v fs)
unfolding Numeric
put-Numeric k v end h hs = (h, tt)
put-Numeric k v (field j w fs) h (g, gs) =
    if_elim NumericFields (j == k) (field k v fs) (field j w (put k v fs)) (λ _. (h, gs))
      (λ _. (g, put-Numeric k v fs h gs))

-- What the base holds at a key.
abbrev NumericOption : Option Json → Type 0
NumericOption none = Unit
NumericOption (some v) = Numeric v

abbrev ItemsOption : Option Items → Type 0
ItemsOption none = Unit
ItemsOption (some vs) = NumericItems vs

abbrev pub FieldsOption : Option Fields → Type 0
FieldsOption none = Unit
FieldsOption (some fs) = NumericFields fs

find-NumericOption : (k : Text) (fs : Fields) → NumericFields fs → NumericOption (find k fs)
unfolding Numeric
find-NumericOption k end h = tt
find-NumericOption k (field j w fs) (h, hs) =
    if_elim NumericOption (j == k) (some w) (find k fs) (λ _. h) (λ _. find-NumericOption k fs hs)

mutual
  unfolding deep_merge Numeric

  pub deep_merge-Numeric :
      (over base : Fields)
      → NumericFields base
      → NumericFields over
      → NumericFields (deep_merge base over)
  deep_merge-Numeric end base h k = h
  deep_merge-Numeric (field j v rest) base h (k, ks) =
      deep_merge-Numeric rest (put j (merge_value (find j base) v) base)
        (put-Numeric j (merge_value (find j base) v) base
          (merge_value-Numeric v (find j base) (find-NumericOption j base h) k) h)
        ks

  merge_value-Numeric :
      (v : Json) (o : Option Json) → NumericOption o → Numeric v → Numeric (merge_value o v)
  merge_value-Numeric v none h k = k
  merge_value-Numeric v (some null) h k = k
  merge_value-Numeric v (some (boolean b)) h k = k
  merge_value-Numeric v (some (number b)) h k = k
  merge_value-Numeric v (some (string b)) h k = k
  merge_value-Numeric v (some (array b)) h k = k
  merge_value-Numeric (object fs) (some (object b)) h k = deep_merge-Numeric fs b h k
  merge_value-Numeric null (some (object b)) h k = k
  merge_value-Numeric (boolean c) (some (object b)) h k = k
  merge_value-Numeric (number c) (some (object b)) h k = k
  merge_value-Numeric (string c) (some (object b)) h k = k
  merge_value-Numeric (array c) (some (object b)) h k = k

add_field-Numeric :
    (k : Text) (v : Json) (fs : Fields)
    → Numeric v
    → NumericFields fs
    → NumericFields (add_field k v fs)
unfolding Numeric
add_field-Numeric k v fs h hs = go (find k fs)
  where
    go :
        (o : Option Json)
        → NumericFields (elim o as (λ _. Fields) [ none ↦ field k v fs | some w ↦ fs ])
    go none = (h, hs)
    go (some w) = hs

module _ (float_text : Text → Option Text)
    (writes : (l l' : Text) → float_text l ≡ some l' → Written l') where
  mutual
    unfolding decode Numeric

    pub decode-Numeric : (v v' : Json) → decode float_text v ≡ some v' → Numeric v'
    decode-Numeric null v' e = subst NumericOption e tt
    decode-Numeric (boolean b) v' e = subst NumericOption e tt
    decode-Numeric (string s) v' e = subst NumericOption e tt
    decode-Numeric (number l) v' e =
        let (l', el, last) = bind-some (float_text l) _ v' e in
        subst NumericOption last (writes l l' el)
    decode-Numeric (array vs) v' e =
        let (ws, ew, last) = bind-some (decode_items float_text vs) _ v' e in
        subst NumericOption last (decode_items-Numeric vs ws ew)
    decode-Numeric (object fs) v' e =
        let (gs, eg, last) = bind-some (decode_fields float_text fs) _ v' e in
        subst NumericOption last (decode_fields-Numeric fs gs eg)

    decode_items-Numeric : (vs ws : Items) → decode_items float_text vs ≡ some ws → NumericItems ws
    decode_items-Numeric nil ws e = subst ItemsOption e tt
    decode_items-Numeric (item v vs) ws e =
        let (v', ev, more) = bind-some (decode float_text v) _ ws e in
        let (us, eu, last) = bind-some (decode_items float_text vs) _ ws more in
        subst ItemsOption last (decode-Numeric v v' ev, decode_items-Numeric vs us eu)

    decode_fields-Numeric :
        (fs gs : Fields) → decode_fields float_text fs ≡ some gs → NumericFields gs
    decode_fields-Numeric end gs e = subst FieldsOption e tt
    decode_fields-Numeric (field k v fs) gs e =
        let (v', ev, more) = bind-some (decode float_text v) _ gs e in
        let (us, eu, last) = bind-some (decode_fields float_text fs) _ gs more in
        subst FieldsOption last
          (add_field-Numeric k v' us (decode-Numeric v v' ev) (decode_fields-Numeric fs us eu))

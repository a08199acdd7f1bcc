-- ===== src/Jsonutil/Merge/Written.antt =====
-- What `Marshal` writes, as texts of the grammar.
use mathlib.Core.List.{append_assoc}
use clawbake.Base.{
  List, [], ◌∷◌, ◌++◌, true, false, ◌||◌, ◌≡◌, refl, sym, subst, ap, ◌∙◌, Option, some, Text, codes,
  join, map, All, if_elim, ◌==◌, nat_eq,
}
use clawbake.Base.Options.{◌>>=◌}
use clawbake.Jsonutil.Strings.{encode_body}
use clawbake.Jsonutil.Strings.RoundTrip.{read_literal-encode_body}
use clawbake.Jsonutil.Json.{
  Json, null, boolean, string, array, object, Items, nil, item, Fields, end, field, skip_space,
  start, eat, read_atom, read_key,
}
use clawbake.Jsonutil.Json.Grammar.{
  IsValue, IsItems, IsFields, empty_object, full_object, empty_array, full_array, literal, atom,
  last_item, more_items, last_field, more_fields,
}
use clawbake.Jsonutil.Merge.{text_leb, quoted, braced, insert_key, sort_keys}

-- What may stand behind a value.
abbrev pub Delimited : Text → Type 0
Delimited [] = Unit
Delimited (c ∷ t) = (c == b',' || c == b']' || c == b'}') ≡ true

-- A value of the grammar wherever it is delimited.
abbrev pub Written : Text → Type 0
Written s = (rest : Text) → Delimited rest → (w : Json) × IsValue (s ++ rest) w rest

pub null-Written : Written (codes "null")
unfolding start skip_space read_atom eat
null-Written rest d = (null, atom _ (codes "null" ++ rest) rest null refl refl)

pub true-Written : Written (codes "true")
unfolding start skip_space read_atom eat
true-Written rest d = (boolean true, atom _ (codes "true" ++ rest) rest (boolean true) refl refl)

pub false-Written : Written (codes "false")
unfolding start skip_space read_atom eat
false-Written rest d =
    (boolean false, atom _ (codes "false" ++ rest) rest (boolean false) refl refl)

quoted-append : (s rest : Text) → quoted s ++ rest ≡ b'"' ∷ (encode_body s ++ (b'"' ∷ rest))
quoted-append s rest = ap (λ t. b'"' ∷ t) (append_assoc (encode_body s) (b'"' ∷ []) rest)

pub quoted-IsValue : (s rest : Text) → IsValue (quoted s ++ rest) (string s) rest
unfolding start skip_space
quoted-IsValue s rest =
    subst (λ t. IsValue t (string s) rest) (sym (quoted-append s rest))
      (literal _ (encode_body s ++ (b'"' ∷ rest)) rest s refl (read_literal-encode_body s rest))

pub quoted-Written : (s : Text) → Written (quoted s)
quoted-Written s rest d = (string s, quoted-IsValue s rest)

-- The elements of an array, with its closing bracket.
joined-IsItems :
    (s : Text) (ss : List Text) (rest : Text)
    → All Written (s ∷ ss)
    → (vs : Items) × IsItems (join (s ∷ ss) (codes ",") ++ (b']' ∷ rest)) vs rest
unfolding skip_space eat
joined-IsItems s [] rest (h, hs) =
    let (w, v) = h (b']' ∷ rest) refl in (item w nil, last_item _ (b']' ∷ rest) rest w v refl)
joined-IsItems s (t ∷ ss) rest (h, hs) =
    let (vs, more) = joined-IsItems t ss rest hs in
    let behind = join (t ∷ ss) (codes ",") ++ (b']' ∷ rest) in
    let (w, v) = h (b',' ∷ behind) refl in
    (
      item w vs,
      subst (λ u. IsItems u (item w vs) rest)
          (sym (append_assoc s (b',' ∷ join (t ∷ ss) (codes ",")) (b']' ∷ rest)))
          (more_items _ (b',' ∷ behind) behind rest w vs v refl more),
    )

abbrev entry : Text × Text → Text
entry e = quoted e.0 ++ (b':' ∷ e.1)

pub read_key-quoted : (k t : Text) → read_key (quoted k ++ (b':' ∷ t)) ≡ some (k, t)
unfolding read_key skip_space eat
read_key-quoted k t =
    ap read_key (quoted-append k (b':' ∷ t))
    ∙ ap
        (λ (o : Option (Text × Text)).
          o >>= λ key. eat (b':' ∷ []) (skip_space key.1) >>= λ colon. some (key.0, colon))
        (read_literal-encode_body k (b':' ∷ t))

abbrev pub EntryWritten : Text × Text → Type 0
EntryWritten e = Written e.1

-- An entry with the text behind it.
entry-append :
    (e : Text × Text) (rest : Text) → entry e ++ rest ≡ quoted e.0 ++ (b':' ∷ (e.1 ++ rest))
entry-append e rest = append_assoc (quoted e.0) (b':' ∷ e.1) rest

-- The fields of an object, with its closing brace.
joined-IsFields :
    (e : Text × Text) (es : List (Text × Text)) (rest : Text)
    → All EntryWritten (e ∷ es)
    → (fs : Fields) × IsFields (join (map entry (e ∷ es)) (codes ",") ++ (b'}' ∷ rest)) fs rest
unfolding skip_space eat
joined-IsFields e [] rest (h, hs) =
    let (w, v) = h (b'}' ∷ rest) refl in
    (
      field e.0 w end,
      subst (λ u. IsFields u (field e.0 w end) rest) (sym (entry-append e (b'}' ∷ rest)))
          (last_field _ e.0 (e.1 ++ (b'}' ∷ rest)) (b'}' ∷ rest) rest w (read_key-quoted e.0 _) v
            refl),
    )
joined-IsFields e (f ∷ es) rest (h, hs) =
    let (fs, more) = joined-IsFields f es rest hs in
    let behind = join (map entry (f ∷ es)) (codes ",") ++ (b'}' ∷ rest) in
    let (w, v) = h (b',' ∷ behind) refl in
    (
      field e.0 w fs,
      subst (λ u. IsFields u (field e.0 w fs) rest)
          (sym (
            append_assoc (entry e) (b',' ∷ join (map entry (f ∷ es)) (codes ",")) (b'}' ∷ rest)
            ∙ entry-append e (b',' ∷ behind)))
          (more_fields _ e.0 (e.1 ++ (b',' ∷ behind)) (b',' ∷ behind) behind rest w fs
            (read_key-quoted e.0 _) v refl more),
    )

pub braced-IsValue :
    (es : List (Text × Text)) (rest : Text)
    → All EntryWritten es
    → (fs : Fields) × IsValue (braced es ++ rest) (object fs) rest
unfolding start skip_space eat
braced-IsValue [] rest h = (end, empty_object _ (b'}' ∷ rest) rest refl refl)
braced-IsValue (e ∷ es) rest h =
    let (fs, f) = joined-IsFields e es rest h in
    let inside = join (map entry (e ∷ es)) (codes ",") in
    (
      fs,
      subst (λ t. IsValue t (object fs) rest)
          (ap (λ t. b'{' ∷ t) (sym (append_assoc inside (b'}' ∷ []) rest)))
          (full_object _ (inside ++ (b'}' ∷ rest)) rest fs refl f),
    )

abbrev pub bracketed : List Text → Text
bracketed ts = b'[' ∷ (join ts (codes ",") ++ (b']' ∷ []))

pub bracketed-Written : (ts : List Text) → All Written ts → Written (bracketed ts)
unfolding start skip_space eat
bracketed-Written [] h rest d = (array nil, empty_array _ (b']' ∷ rest) rest refl refl)
bracketed-Written (t ∷ ts) h rest d =
    let (vs, is) = joined-IsItems t ts rest h in
    let inside = join (t ∷ ts) (codes ",") in
    (
      array vs,
      subst (λ u. IsValue u (array vs) rest)
          (ap (λ u. b'[' ∷ u) (sym (append_assoc inside (b']' ∷ []) rest)))
          (full_array _ (inside ++ (b']' ∷ rest)) rest vs refl is),
    )

insert_key-All :
    (e : Text × Text) (es : List (Text × Text))
    → EntryWritten e
    → All EntryWritten es
    → All EntryWritten (insert_key e es)
unfolding insert_key
insert_key-All e [] h hs = (h, tt)
insert_key-All e (f ∷ fs) h (k, ks) =
    if_elim (All EntryWritten) (text_leb e.0 f.0) (e ∷ f ∷ fs) (f ∷ insert_key e fs)
      (λ _. (h, (k, ks))) (λ _. (k, insert_key-All e fs h ks))

pub sort_keys-All :
    (es : List (Text × Text)) → All EntryWritten es → All EntryWritten (sort_keys es)
unfolding sort_keys
sort_keys-All [] h = tt
sort_keys-All (e ∷ es) (h, hs) = insert_key-All e (sort_keys es) h (sort_keys-All es hs)

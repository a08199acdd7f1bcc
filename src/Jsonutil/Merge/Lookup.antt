-- ===== src/Jsonutil/Merge/Lookup.antt =====
-- What a merged document holds at a key.
use clawbake.Base.{
  List, [], ◌∷◌, Option, none, some, ◌≡◌, ap, sym, ◌∙◌, refl, Text, nat_eq, text_eq, ◌==◌, subst,
  arith, if◌then◌else◌, ◌⊎◌, inl, inr,
}
use mathlib.Core.Bool.{false≢true}
use mathlib.Core.Option.{some-injective}
use clawbake.Jsonutil.Json.{Json, object, Fields, end, field, find, put}
use clawbake.Jsonutil.Merge.{deep_merge, merge_value}

-- No key stands twice, here or in a nested object of the fields.
abbrev pub HasUniqueKeys : Fields → Type 0
HasUniqueKeys end = Unit
HasUniqueKeys (field k v fs) = (find k fs ≡ none) × HasUniqueKeys fs

find-put :
    (k j : Text) (v : Json) (fs : Fields)
    → find j (put k v fs) ≡ (if k == j then some v else find j fs)
find-put k j v end = refl
find-put k j v (field i w fs) =
    ground (arith, text_eq.decides k j, text_eq.decides i k, text_eq.decides i j, find-put k j v fs)

-- The value of a key after the merge, from the values before.
abbrev pub overridden : Option Json → Option Json → Option Json
overridden before none = before
overridden before (some v) = some (merge_value before v)

-- After a merge each key holds: the value of the base, if the override has no such key; and if it
-- has one, the override's value, merged into the base's value where both are objects. The order of
-- the fields does not matter.
find-deep_merge :
    (j : Text) (base over : Fields)
    → HasUniqueKeys over
    → find j (deep_merge base over) ≡ overridden (find j base) (find j over)
unfolding deep_merge
find-deep_merge j base end u = refl
find-deep_merge j base (field k v rest) u =
    find-deep_merge j (put k (merge_value (find k base) v) base) rest u.1
    ∙ ground (arith, text_eq.decides k j, find-put k j (merge_value (find k base) v) base)

abbrev pub after : Option Json → (Json → Option Json) → Option Json
after none f = none
after (some w) f = f w

-- The value at the end of a path of keys.
abbrev pub at_path : List Text → Json → Option Json
at_path [] v = some v
at_path (k ∷ ks) (object fs) = after (find k fs) (at_path ks)
at_path (k ∷ ks) _ = none

abbrev pub IsObject : Json → Type 0
IsObject (object fs) = Unit
IsObject _ = ⊥

abbrev pub OfValue : (Json → Type 0) → Option Json → Type 0
OfValue P none = Unit
OfValue P (some w) = P w

-- The keys are unique in every object on the path.
abbrev pub HasUniquePath : List Text → Json → Type 0
HasUniquePath [] v = Unit
HasUniquePath (k ∷ ks) (object fs) = HasUniqueKeys fs × OfValue (HasUniquePath ks) (find k fs)
HasUniquePath (k ∷ ks) _ = Unit

at_path-found :
    (k : Text) (ks : List Text) (fs : Fields) (w : Json)
    → find k fs ≡ some w
    → at_path (k ∷ ks) (object fs) ≡ at_path ks w
at_path-found k ks fs w e = rw (e, at_path)

at_path-cases :
    (k : Text) (ks : List Text) (fs : Fields) (v : Json)
    → at_path (k ∷ ks) (object fs) ≡ some v
    → (w : Json) × (find k fs ≡ some w) × (at_path ks w ≡ some v)
at_path-cases k ks fs v h = split (find k fs) refl
  where
    split :
        (o : Option Json)
        → find k fs ≡ o
        → (w : Json) × (find k fs ≡ some w) × (at_path ks w ≡ some v)
    split none e = absurd (false≢true (cc (rw (e, at_path) at h)))
    split (some w) e = (w, e, sym (at_path-found k ks fs w e) ∙ h)

merge_value_leaf : (before : Option Json) (w : Json) → ¬ IsObject w → merge_value before w ≡ w
unfolding merge_value
merge_value_leaf (some (object b)) (object o) h = absurd (h tt)
merge_value_leaf _ w h = refl

merge_value_wins :
    (path : List Text) (before : Option Json) (w v : Json)
    → HasUniquePath path w
    → at_path path w ≡ some v
    → ¬ IsObject v
    → at_path path (merge_value before w) ≡ some v
unfolding merge_value
merge_value_wins [] before w v u h leaf =
    ap some (merge_value_leaf before w (λ o. leaf (subst IsObject (some-injective w v h) o))) ∙ h
merge_value_wins (k ∷ ks) (some (object b)) (object o) v u h leaf =
    let (x, found, there) = at_path-cases k ks o v h in
    at_path-found k ks (deep_merge b o) (merge_value (find k b) x)
      (find-deep_merge k b o u.0 ∙ ap (overridden (find k b)) found)
    ∙ merge_value_wins ks (find k b) x v (subst (OfValue (HasUniquePath ks)) found u.1) there leaf
merge_value_wins (k ∷ ks) _ (object o) v u h leaf = h
merge_value_wins (k ∷ ks) before w v u h leaf = cc

-- Every value of the override that is no object stands in the merged document, at its path.
pub override_wins :
    (path : List Text) (base over : Fields) (v : Json)
    → HasUniquePath path (object over)
    → at_path path (object over) ≡ some v
    → ¬ IsObject v
    → at_path path (object (deep_merge base over)) ≡ some v
unfolding merge_value
override_wins path base over v u h leaf =
    merge_value_wins path (some (object base)) (object over) v u h leaf

-- The override has no value at the path, and none above it but objects over objects of the base.
abbrev pub Untouched : List Text → Fields → Fields → Type 0
Untouched [] base over = ⊥
Untouched (k ∷ ks) base over =
    (find k over ≡ none)
    ⊎ ((b : Fields) × (o : Fields) × (find k base ≡ some (object b))
        × (find k over ≡ some (object o))
        × Untouched ks b o)

-- What the override does not touch keeps its value.
pub kept_by_deep_merge :
    (path : List Text) (base over : Fields)
    → HasUniquePath path (object over)
    → Untouched path base over
    → at_path path (object (deep_merge base over)) ≡ at_path path (object base)
unfolding merge_value
kept_by_deep_merge [] base over u h = absurd h
kept_by_deep_merge (k ∷ ks) base over u (inl h) =
    ap (λ o. after o (at_path ks))
      (find-deep_merge k base over u.0 ∙ ap (overridden (find k base)) h)
kept_by_deep_merge (k ∷ ks) base over u (inr (b, o, hb, ho, below)) =
    at_path-found k ks (deep_merge base over) (object (deep_merge b o)) (
      find-deep_merge k base over u.0
      ∙ ap (λ x. overridden x (find k over)) hb
      ∙ ap (overridden (some (object b))) ho)
    ∙ kept_by_deep_merge ks b o (subst (OfValue (HasUniquePath ks)) ho u.1) below
    ∙ sym (at_path-found k ks base (object b) hb)

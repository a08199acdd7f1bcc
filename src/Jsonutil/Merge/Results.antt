-- ===== src/Jsonutil/Merge/Results.antt =====
-- What `MergeJSON` returns.
use clawbake.Base.{◌≡◌, ◌↔◌, refl, Option, none, some, Text}
use clawbake.Jsonutil.Json.{Json, Fields, end, field, object}
use clawbake.Jsonutil.Merge.{
  merge_unmarshalled, deep_merge, marshal, merged, panicked, unmarshal_map, merge_json,
}

module _ (float_text : Text → Option Text) where
  abbrev pub IsPanic : Option (Option Fields) → Option (Option Fields) → Type 0
  IsPanic base over =
      (base ≡ some none)
      × ((k : Text) × (v : Json) × (fs : Fields) × (over ≡ some (some (field k v fs))))

  -- `MergeJSON` panics exactly if the base is the document `null` and the override is an object with
  -- at least one field.
  pub merge_json-panics_iff :
      (base over : Text)
      → (merge_json float_text base over ≡ panicked)
        ↔ IsPanic (unmarshal_map float_text base) (unmarshal_map float_text over)
  unfolding merge_json
  merge_json-panics_iff base over =
      go (unmarshal_map float_text base) (unmarshal_map float_text over)
    where
      go :
          (b o : Option (Option Fields))
          → (merge_unmarshalled float_text b o ≡ panicked) ↔ IsPanic b o
      go none o = ((λ h. cc), (λ h. cc (h.0)))
      go (some b) none = ((λ h. cc), (λ h. cc (h.1.3)))
      go (some none) (some none) = ((λ h. cc), (λ h. cc (h.1.3)))
      go (some none) (some (some end)) = ((λ h. cc), (λ h. cc (h.1.3)))
      go (some none) (some (some (field k v fs))) = ((λ h. (refl, (k, v, fs, refl))), (λ h. refl))
      go (some (some b)) (some o) = ((λ h. cc), (λ h. cc (h.0)))

  -- Two objects are merged into what `deepMerge` makes of them, and `MergeJSON` then neither fails
  -- nor panics.
  merge_json-objects :
      (base over : Text) (b o : Fields)
      → unmarshal_map float_text base ≡ some (some b)
      → unmarshal_map float_text over ≡ some (some o)
      → merge_json float_text base over ≡ merged (marshal (object (deep_merge b o)))
  unfolding merge_json
  merge_json-objects base over b o hb ho = rw (hb, ho)

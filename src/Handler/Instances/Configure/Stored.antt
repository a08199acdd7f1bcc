-- ===== src/Handler/Instances/Configure/Stored.antt =====
-- What a creation stores as the configuration of an instance.
use clawbake.Base.{String, true, Option, some, Text, ◌≡◌, sym, subst, inl, inr, is_empty}
use clawbake.Handler.{pass}
use clawbake.Handler.Instances.Configure.{substitute_values, override_config}
use clawbake.Handler.Instances.Configure.Results.{Substituted, created_config-Overridden}
use clawbake.Jsonutil.Json.{Json, null, object, valid}
use clawbake.Jsonutil.Json.Grammar.{IsDocument}
use clawbake.Jsonutil.Json.Reading.{valid_iff}
use clawbake.Jsonutil.Merge.Written.{Written}
use clawbake.Jsonutil.Merge.Output.{MapDocument, merge_json-MapDocument}
use clawbake.Jsonutil.Template.{Values, extract_placeholders}

MapDocument-IsDocument : (t : Text) → MapDocument t → (v : Json) × IsDocument t v
MapDocument-IsDocument t (inl d) = (null, d)
MapDocument-IsDocument t (inr (fs, d)) = (object fs, d)

-- Where a float64 is written as a value of the grammar in front of whatever delimits a value, and the
-- template is a valid document if it has no placeholders, the configuration that passes the checks of
-- a creation is a document of the JSON grammar, whatever the values and the override.
pub created_config_is_a_document :
    (float_text : Text → Option Text) (label : String) (template : Text) (values : Values)
    (base over out : Text)
    → ((l l' : Text) → float_text l ≡ some l' → Written l')
    → (is_empty (extract_placeholders template) ≡ true → valid template ≡ true)
    → substitute_values label template values ≡ pass base
    → override_config float_text base over ≡ pass out
    → (v : Json) × IsDocument out v
created_config_is_a_document float_text label template values base over out writes plain h k =
    let (substituted, overridden) =
      created_config-Overridden float_text label template values base over out h k in
    elim overridden [
      | inl (empty, same) ↦
          subst (λ t. (v : Json) × IsDocument t v) (sym same) (of_base substituted)
      | inr (good, e) ↦
          MapDocument-IsDocument out (merge_json-MapDocument float_text writes base over out e)
    ]
  where
    of_base : Substituted template values base → (v : Json) × IsDocument base v
    of_base (inl (empty, same)) =
        subst (λ t. (v : Json) × IsDocument t v) (sym same) ((valid_iff template).0 (plain empty))
    of_base (inr (done, good)) = (valid_iff base).0 good

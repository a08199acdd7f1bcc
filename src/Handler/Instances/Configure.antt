-- ===== src/Handler/Instances/Configure.antt =====
-- How the creation of an instance, in internal/handler/instance.go and pages.go, makes the gateway
-- configuration from the stored defaults.
pub mod Results
pub mod Stored
use clawbake.Base.{String, not, Option, Text, join, codes, is_empty, if◌then◌else◌}
use clawbake.Http.{http_error, http_error_about, panicked}
use clawbake.Handler.{Check, pass, fail}
use clawbake.Jsonutil.Json.{valid}
use clawbake.Jsonutil.Template.{
  Values, Outcome, extract_placeholders, missing_names, substitute_placeholders,
}
use clawbake.Jsonutil.Merge.{Merged, merge_json}

abbrev pub checked_config : Outcome → Check Text
checked_config (Outcome.failed message) =
    fail (http_error_about 400 "failed to substitute placeholders: " message)
checked_config (Outcome.done out) =
    if not (valid out)
    then fail (http_error 400 "gateway config is not valid JSON after substitution")
    else pass out

-- Where the template has placeholders, their values are put in; `label` begins the message that
-- names the missing ones.
unfoldable pub substitute_values : String → Text → Values → Check Text
substitute_values label config values =
    let names = extract_placeholders config in
    let missing = missing_names values names in
    if not (is_empty names)
    then (if not (is_empty missing)
        then fail (http_error_about 400 label (join missing (codes ", ")))
        else checked_config (substitute_placeholders config values))
    else pass config

-- The text of the decoder's error is left out.
abbrev pub merged_config : Merged → Check Text
merged_config (Merged.merged out) = pass out
merged_config Merged.invalid_base =
    fail (http_error_about 400 "failed to merge gateway config: " (codes "invalid base JSON"))
merged_config Merged.invalid_override =
    fail (http_error_about 400 "failed to merge gateway config: " (codes "invalid override JSON"))
merged_config Merged.panicked = fail panicked

module _ (float_text : Text → Option Text) where
  unfoldable pub override_config : Text → Text → Check Text
  override_config config over =
      let checked : Check Text =
        (if not (valid over)
          then fail (http_error 400 "gateway config override is not valid JSON")
          else merged_config (merge_json float_text config over)) in
      if not (is_empty over) then checked else pass config

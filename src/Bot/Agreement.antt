-- ===== src/Bot/Agreement.antt =====
-- The creation of an instance by the command of internal/bot/commands.go, beside that of the handlers
-- of internal/handler.
use clawbake.Base.{
  String, [], ◌∷◌, Bool, true, false, not, if◌then◌else◌, ◌≡◌, refl, ap, ◌∙◌, Option, none, some,
  Text, is_empty,
}
use clawbake.Database.{User, InstanceDefault}
use clawbake.Handler.{Check, pass, fail}
use clawbake.Handler.Instances.{instance_of}
use clawbake.Handler.Instances.Configure.{
  checked_config, substitute_values, merged_config, override_config,
}
use clawbake.Jsonutil.Json.{valid}
use clawbake.Jsonutil.Template.{
  Values, Outcome, extract_placeholders, missing_names, substitute_placeholders,
}
use clawbake.Jsonutil.Merge.{Merged, merge_json}
use clawbake.Bot.{Libraries, Bot, SlashCommand}
use clawbake.Bot.Commands.{parse_create_args}
use clawbake.Bot.Create.{
  and_then, bot_checked, bot_substitute, bot_merged, bot_override, bot_config, bot_instance,
}

-- Of a check, what it passes.
abbrev pub passed : {A : Type 0} → Check A → Option A
passed (pass a) = some a
passed (fail reply) = none

passed-if :
    {A : Type 0} (b : Bool) (x y x' y' : Check A)
    → passed x ≡ passed x'
    → passed y ≡ passed y'
    → passed (if b then x else y) ≡ passed (if b then x' else y')
passed-if true x y x' y' h k = h
passed-if false x y x' y' h k = k

checked_same : (o : Outcome) → passed (bot_checked o) ≡ passed (checked_config o)
checked_same (Outcome.failed m) = refl
checked_same (Outcome.done out) = passed-if (not (valid out)) _ _ _ _ refl refl

substitute_same :
    (label : String) (command config : Text) (values : Values)
    → passed (bot_substitute command config values) ≡ passed (substitute_values label config values)
unfolding bot_substitute substitute_values
substitute_same label command config values =
    passed-if (not (is_empty (extract_placeholders config))) _ _ _ _
      (passed-if (not (is_empty (missing_names values (extract_placeholders config)))) _ _ _ _ refl
        (checked_same (substitute_placeholders config values)))
      refl

merged_same : (m : Merged) → passed (bot_merged m) ≡ passed (merged_config m)
merged_same (Merged.merged out) = refl
merged_same Merged.invalid_base = refl
merged_same Merged.invalid_override = refl
merged_same Merged.panicked = refl

override_same :
    (float_text : Text → Option Text) (command config over : Text)
    → passed (bot_override float_text command config over)
      ≡ passed (override_config float_text config over)
unfolding bot_override override_config
override_same float_text command config over =
    passed-if (not (is_empty over)) _ _ _ _
      (passed-if (not (valid over)) _ _ _ _ refl (merged_same (merge_json float_text config over)))
      refl

and_then_same :
    {A B : Type 0} (c c' : Check A) (f f' : A → Check B)
    → passed c ≡ passed c'
    → ((a : A) → passed (f a) ≡ passed (f' a))
    → passed (and_then c f) ≡ passed (and_then c' f')
and_then_same (pass a) (pass a') f f' h k = k a ∙ ap (λ x. passed (f' x)) (cc h)
and_then_same (pass a) (fail r) f f' h k = cc
and_then_same (fail r) (pass a') f f' h k = cc
and_then_same (fail r) (fail r') f f' h k = refl

-- For every stored default, command and user, and every label of an error message: the command of the
-- bot passes a configuration exactly if the checks of the web handlers pass it, for the values and the
-- override that are read from the command's text; and the instance that the bot then sends is the one
-- that the handlers send, except for its labels.
pub bot_creates_as_the_server :
    (l : Libraries) (b : Bot) (cmd : SlashCommand) (label namespace token : String) (u : User)
    (d : InstanceDefault) (config : Text)
    → (passed (bot_config l b cmd d)
        ≡ passed (
            and_then
              (substitute_values label d.gateway_config (parse_create_args cmd.text).0)
              (λ base. override_config l.float_text base (parse_create_args cmd.text).1)))
      × (bot_instance namespace u d token config ≡ record (instance_of namespace u d token config) {
        labels = ("clawbake.io/user-id", u.id) ∷ ("clawbake.io/source", "slack-bot") ∷ [];
      })
unfolding bot_config bot_instance instance_of
bot_creates_as_the_server l b cmd label namespace token u d config = (
  and_then_same _ _ _ _
      (substitute_same label cmd.command d.gateway_config (parse_create_args cmd.text).0)
      (λ base. override_same l.float_text cmd.command base (parse_create_args cmd.text).1),
  refl,
)

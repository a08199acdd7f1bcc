-- ===== src/Bot/Create.antt =====
-- internal/bot/commands.go: the command that creates an instance.
use clawbake.Base.{
  String, List, [], ◌∷◌, ◌++◌, not, Option, none, Text, codes, join, is_empty, string_eq,
  if◌then◌else◌,
}
use clawbake.Api.{Result, ok, err, ClawInstance}
use clawbake.Database.{User, InstanceDefault}
use clawbake.Effects.{
  get_defaults, random_hex, create_instance, Prog, return, ◌>>=◌, ◌>>◌, call, block,
}
use clawbake.Http.{Reply, json_object, panicked}
use clawbake.Handler.{Check, pass, fail, check}
use clawbake.Handler.Instances.{token_of}
use clawbake.Jsonutil.Json.{valid}
use clawbake.Jsonutil.Template.{
  Values, Outcome, extract_placeholders, missing_names, substitute_placeholders,
}
use clawbake.Jsonutil.Merge.{Merged, merge_json}
use clawbake.Bot.{Libraries, Bot, SlashCommand}
use clawbake.Bot.Users.{resolve_user, get_user_instance}
use clawbake.Bot.Commands.{parse_create_args}

-- `respondSlack`
abbrev pub respond_slack : Text → Reply
respond_slack text = json_object 200 (("response_type", codes "ephemeral") ∷ ("text", text) ∷ [])

abbrev pub or_respond : {A : Type 0} → Text → Result A → Check A
or_respond message (ok a) = pass a
or_respond message (err e) = fail (respond_slack message)

abbrev pub or_respond_error : {A : Type 0} → Text → Result A → Check A
or_respond_error label (ok a) = pass a
or_respond_error label (err e) = fail (respond_slack (label ++ codes e.message))

abbrev pub and_then : {A B : Type 0} → Check A → (A → Check B) → Check B
and_then (pass a) f = f a
and_then (fail reply) f = fail reply

abbrev pub account_failure : Text
account_failure = codes "Failed to look up your account: "

-- ` NAME=value` for each placeholder
abbrev pub value_usage : List Text → Text
value_usage [] = []
value_usage (p ∷ ps) = codes " " ++ (p ++ (codes "=value" ++ value_usage ps))

abbrev pub missing_reply : Text → List Text → List Text → Reply
missing_reply command names missing = respond_slack (
    codes "Missing required values: "
    ++ (join missing (codes ", ")
        ++ (codes "\nUsage: `"
            ++ (command ++ (codes " create" ++ (value_usage names ++ codes "`"))))))

abbrev pub bot_checked : Outcome → Check Text
bot_checked (Outcome.failed message) =
    fail (respond_slack (codes "Failed to substitute placeholders: " ++ message))
bot_checked (Outcome.done out) =
    if not (valid out)
    then fail (respond_slack (codes "Gateway config is not valid JSON after substitution."))
    else pass out

-- The values of the command put into the defaults' template.
unfoldable pub bot_substitute : Text → Text → Values → Check Text
bot_substitute command config values =
    let names = extract_placeholders config in
    let missing = missing_names values names in
    if not (is_empty names)
    then (if not (is_empty missing)
        then fail (missing_reply command names missing)
        else bot_checked (substitute_placeholders config values))
    else pass config

-- The text of the decoder's error is left out.
abbrev pub bot_merged : Merged → Check Text
bot_merged (Merged.merged out) = pass out
bot_merged Merged.invalid_base =
    fail (respond_slack (codes "Failed to merge config override: invalid base JSON"))
bot_merged Merged.invalid_override =
    fail (respond_slack (codes "Failed to merge config override: invalid override JSON"))
bot_merged Merged.panicked = fail panicked

module _ (float_text : Text → Option Text) where
  -- The override of the command on top.
  unfoldable pub bot_override : Text → Text → Text → Check Text
  bot_override command config over =
      let checked : Check Text =
        (if not (valid over)
          then fail (
              respond_slack (
                codes "Invalid JSON override. Usage: `"
                ++ (command ++ codes " create json={\"key\":\"value\"}`")))
          else bot_merged (merge_json float_text config over)) in
      if not (is_empty over) then checked else pass config

-- The instance that the command sends.
unfoldable pub bot_instance : String → User → InstanceDefault → String → Text → ClawInstance
bot_instance namespace u defaults token config = record {
  name = u.id;
  namespace = namespace;
  labels = ("clawbake.io/user-id", u.id) ∷ ("clawbake.io/source", "slack-bot") ∷ [];
  generation = 0;
  deletion_timestamp = none;
  finalizers = [];
  spec = record {
    user_id = u.id;
    image = defaults.image;
    gateway_token = token;
    gateway_config = config;
    config_generation = 0;
    resources = record {
      requests = record { cpu = defaults.cpu_request; memory = defaults.memory_request };
      limits = record { cpu = defaults.cpu_limit; memory = defaults.memory_limit };
    };
    storage = record { size = defaults.storage_size; storage_class = "" };
  };
  status = record { phase = ""; namespace = ""; conditions = [] };
}

-- `existing != nil`, with the phase of what stands there.
abbrev pub none_yet : Result ClawInstance → Check Unit
none_yet (err e) = pass tt
none_yet (ok i) = fail (
    respond_slack
      (codes "You already have an instance (status: " ++ (codes i.status.phase ++ codes ").")))

-- What the handlers begin with: the user behind the Slack account.
unfoldable pub with_account : SlashCommand → (User → Prog Reply Reply) → Prog Reply Reply
unfolding resolve_user
with_account cmd next = do
  resolved ← block (resolve_user cmd.user_id)
  u ← check (or_respond_error account_failure resolved)
  next u

module _ (l : Libraries) (b : Bot) (cmd : SlashCommand) where
  -- The configuration that the command and the defaults give.
  unfoldable pub bot_config : InstanceDefault → Check Text
  unfolding bot_substitute bot_override parse_create_args
  bot_config defaults =
      let args = parse_create_args cmd.text in
      and_then (bot_substitute cmd.command defaults.gateway_config args.0)
        (λ base. bot_override l.float_text cmd.command base args.1)

  -- The creation and its reply.
  unfoldable pub create_with : User → InstanceDefault → Text → Prog Reply Reply
  unfolding bot_instance
  create_with u defaults config = do
    random ← call (random_hex 32)
    created ← call (create_instance (bot_instance b.namespace u defaults (token_of random) config))
    check (or_respond_error (codes "Failed to create instance: ") created)
    return (
        respond_slack (
          codes "Creating your openclaw instance! Access it via the web app once ready.\nUse `"
          ++ (cmd.command ++ codes " status` to check progress.")))

  -- From the read of the defaults on.
  unfoldable pub create_for : User → Prog Reply Reply
  unfolding bot_config create_with
  create_for u = do
    got ← call get_defaults
    defaults ←
        check (or_respond (codes "Failed to get instance defaults. Please contact an admin.") got)
    config ← check (bot_config defaults)
    create_with u defaults config

  unfoldable pub create_if_none : User → Prog Reply Reply
  unfolding get_user_instance create_for
  create_if_none u = do
    existing ← block (get_user_instance b u.id)
    check (none_yet existing)
    create_for u

  -- `handleCreate`
  unfoldable pub handle_create : Prog Reply Reply
  unfolding with_account create_if_none
  handle_create = with_account cmd create_if_none

-- ===== src/Bot/Slash.antt =====
-- internal/bot/commands.go: the other slash commands.
use clawbake.Base.{
  ℕ, ◌+◌, ◌-◌, List, [], ◌∷◌, ◌++◌, Bool, not, ◌&&◌, Text, codes, nat_eq, text_eq, string_eq, ◌==◌,
  ltb, leb, if◌then◌else◌,
}
use clawbake.Api.{Result, ok, err, ClawInstance, phase_running}
use clawbake.Database.{User, InstanceDefault}
use clawbake.Effects.{get_defaults, delete_instance, Prog, return, ◌>>=◌, ◌>>◌, call, block}
use clawbake.Http.{Reply, panicked}
use clawbake.Handler.{Check, pass, fail, check}
use clawbake.Jsonutil.Template.{extract_placeholders}
use clawbake.Bot.{Libraries, Bot, SlashCommand}
use clawbake.Bot.Users.{get_user_instance}
use clawbake.Bot.Commands.{fields_from, trim_prefix}
use clawbake.Bot.Create.{
  respond_slack, or_respond, or_respond_error, value_usage, with_account, and_then, handle_create,
}

-- strings.Fields
abbrev pub fields : Text → List Text
fields t = fields_from [] t

abbrev pub no_instance : Text → Text
no_instance command =
    codes "You don't have an openclaw instance. Use `"
    ++ (command ++ codes " create` to create one.")

abbrev pub running_or_respond : ClawInstance → Check Unit
running_or_respond i =
    if not (i.status.phase == phase_running)
    then fail (
        respond_slack (
          codes "Your instance isn't ready yet (status: "
          ++ (codes i.status.phase ++ codes "). Try again shortly.")))
    else pass tt

abbrev pub enabled_or_respond : Bool → Text → Text → Check Text
enabled_or_respond enabled refusal mode =
    if not enabled then fail (respond_slack refusal) else pass mode

-- The mode that the second word of the command names.
abbrev pub open_mode : Bot → List Text → Check Text
open_mode b (p ∷ q ∷ ps) =
    if q == codes "tui"
    then enabled_or_respond b.tui_enabled (codes "Terminal access is not enabled.") (codes "tui")
    else if q == codes "shell"
    then enabled_or_respond b.shell_enabled (codes "Shell access is not enabled.") (codes "shell")
    else pass (codes "web")
open_mode b _ = pass (codes "web")

abbrev pub open_reply : Bot → Text → Reply
open_reply b mode =
    respond_slack
      (codes "Open your instance: " ++ (b.base_url ++ (codes "/proxy/" ++ (mode ++ codes "/"))))

-- The bytes of a code point in UTF-8, less one.
abbrev pub continuation_bytes : ℕ → ℕ
continuation_bytes c =
    if ltb c 0x80 then 0 else if ltb c 0x800 then 1 else if ltb c 0x10000 then 2 else 3

abbrev pub replacements : ℕ → Text
replacements ℕ.zero = []
replacements (ℕ.suc n) = 0xfffd ∷ replacements n

-- `strings.ToUpper(name[:1]) + name[1:]` as the reply shows it: cut behind its first byte, a name
-- that does not begin with ASCII has a replacement character for each byte of its first character.
abbrev pub title_of : Text → Check Text
title_of [] = fail panicked
title_of (c ∷ t) =
    if leb b'a' c && leb c b'z'
    then pass ((c - 32) ∷ t)
    else if ltb c 0x80
    then pass (c ∷ t)
    else pass (replacements (continuation_bytes c + 1) ++ t)

abbrev pub bullet : Text → Text → Text
bullet command rest = codes "• `" ++ (command ++ rest)

abbrev pub plain_usage : Text → Text
plain_usage command =
    bullet command (codes " create` - Provision a new openclaw instance\n")
    ++ bullet command (
        codes
          " create {\"key\":\"value\"}` - Create with gateway config overrides (merged over admin defaults)")

-- The usage of `create`, by the placeholders of the defaults.
abbrev pub create_usage : Text → List Text → Text
create_usage command [] = plain_usage command
create_usage command (p ∷ ps) =
    bullet command (
      codes " create"
      ++ (value_usage (p ∷ ps) ++ codes "` - Provision with required config values"))
    ++ (codes "\n"
        ++ bullet command (
            codes " create "
            ++ (p ++ codes "=value json={\"key\":\"value\"}` - With config values and override")))

abbrev pub usage_from : Text → Result InstanceDefault → Text
usage_from command (err e) = plain_usage command
usage_from command (ok d) = create_usage command (extract_placeholders d.gateway_config)

abbrev pub help_text : Bot → Text → Text → Text → Text
help_text b command title usage =
    codes "*"
    ++ (title
        ++ (codes " Bot* ("
            ++ (b.version
                ++ (codes ")\nManage your openclaw instance from Slack.\n\n*Slash Commands*\n"
                    ++ (usage
                        ++ (codes "\n"
                            ++ (bullet command (codes " status` - Show your instance status\n")
                                ++ (bullet command
                                      (codes " open` - Get a link to your instance web UI\n")
                                    ++ ((if b.tui_enabled
                                          then bullet command (
                                              codes
                                                " open tui` - Get a link to your instance terminal\n")
                                          else [])
                                        ++ ((if b.shell_enabled
                                              then bullet command (
                                                  codes
                                                    " open shell` - Get a link to your instance shell\n")
                                              else [])
                                            ++ (bullet command
                                                  (codes " delete` - Delete your instance\n")
                                                ++ (bullet command (
                                                      codes
                                                        " help` - Show this help message\n\n*Chat with your instance*\nYou can also send messages directly to your running openclaw instance by sending a DM to <@")
                                                    ++ (title
                                                        ++ (codes "> or @mentioning <@"
                                                            ++ (title
                                                            ++ codes
                                                            "> in a channel the bot has been added to. Your message will be forwarded to the instance and the response posted back to you.")))))))))))))))

module _ (l : Libraries) (b : Bot) (cmd : SlashCommand) where
  -- The instance of a user, or the given reply.
  unfoldable pub instance_of_user :
      Text → (ClawInstance → Prog Reply Reply) → User → Prog Reply Reply
  unfolding get_user_instance
  instance_of_user otherwise next u = do
    found ← block (get_user_instance b u.id)
    i ← check (or_respond otherwise found)
    next i

  -- What the three handlers of an instance begin with.
  unfoldable pub with_instance : Text → (ClawInstance → Prog Reply Reply) → Prog Reply Reply
  unfolding with_account instance_of_user
  with_instance otherwise next = with_account cmd (instance_of_user otherwise next)

  unfoldable pub status_of : ClawInstance → Prog Reply Reply
  status_of i = return (
      respond_slack (
        codes "*Instance Status*\n• Phase: "
        ++ (codes i.status.phase ++ (codes "\n• Namespace: " ++ codes i.status.namespace))))

  -- `handleStatus`
  unfoldable pub handle_status : Prog Reply Reply
  unfolding with_instance status_of
  handle_status = with_instance (no_instance cmd.command) status_of

  unfoldable pub delete_found : ClawInstance → Prog Reply Reply
  delete_found i = do
    deleted ← call (delete_instance i)
    check (or_respond_error (codes "Failed to delete instance: ") deleted)
    return (respond_slack (codes "Your openclaw instance is being deleted."))

  -- `handleDelete`
  unfoldable pub handle_delete : Prog Reply Reply
  unfolding with_instance delete_found
  handle_delete = with_instance (codes "You don't have an openclaw instance.") delete_found

  unfoldable pub open_found : ClawInstance → Prog Reply Reply
  open_found i = do
    mode ← check (and_then (running_or_respond i) (λ _. open_mode b (fields cmd.text)))
    return (open_reply b mode)

  -- `handleOpen`
  unfoldable pub handle_open : Prog Reply Reply
  unfolding with_instance open_found
  handle_open = with_instance (no_instance cmd.command) open_found

  -- `handleHelp`, of a bot with a database
  unfoldable pub handle_help : Prog Reply Reply
  handle_help = do
    got ← call get_defaults
    title ← check (title_of (trim_prefix cmd.command (codes "/")))
    return (respond_slack (help_text b cmd.command title (usage_from cmd.command got)))

  -- The switch of `HandleCommands` over the first word.
  unfoldable pub dispatch : List Text → Prog Reply Reply
  unfolding handle_create handle_status handle_delete handle_open handle_help
  dispatch [] = handle_help
  dispatch (p ∷ ps) =
      if p == codes "create"
      then handle_create l b cmd
      else if p == codes "status"
      then handle_status
      else if p == codes "delete"
      then handle_delete
      else if p == codes "open"
      then handle_open
      else handle_help

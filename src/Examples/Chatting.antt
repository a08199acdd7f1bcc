-- ===== src/Examples/Chatting.antt =====
-- The Slack bot at concrete requests.
use clawbake.Base.{◌≡◌, refl, [], ◌∷◌, some, true, false, codes, arith}
use clawbake.Effects.{run}
use clawbake.Effects.Paths.{Every}
use clawbake.Http.{json_object}
use clawbake.Jsonutil.Json.{parse}
use clawbake.Jsonutil.Strings.{read_literal, scan_literal, step, combine}
use clawbake.Bot.{Libraries, Bot, SlashCommand, Delivery, SlackEvent}
use clawbake.Bot.Verify.{digits_value, verify_signature}
use clawbake.Bot.Verify.Admission.{Verdict, verify_signature_admits}
use clawbake.Bot.Chats.{answer_text, handle_message}
use clawbake.Bot.Routes.{commands, bot_handler, serve_bot}
use clawbake.Bot.Slash.{dispatch, delete_found}
use clawbake.Bot.Users.{first_of}
use clawbake.Bot.Ownership.{AccountStep}
use clawbake.Bot.Ownership.Slashes.{commands_act_for_the_resolved_user}
use clawbake.Bot.Ownership.Messages.{messages_reach_the_resolved_user}
use clawbake.Bot.Agreement.{passed, bot_creates_as_the_server}
use clawbake.Bot.Create.{and_then, bot_config, bot_instance}
use clawbake.Bot.Commands.{parse_create_args}
use clawbake.Handler.Instances.{instance_of}
use clawbake.Handler.Instances.Configure.{substitute_values, override_config}
use clawbake.Examples.World.{world_in, alice, the_defaults}

abbrev delete_command : SlashCommand
delete_command = record { command = codes "/clawbake"; text = codes "delete"; user_id = "U1" }

abbrev create_command : SlashCommand
create_command = record { command = codes "/clawbake"; text = codes "create KEY=a"; user_id = "U1" }

-- An HMAC that is the message itself.
abbrev bot_libraries : Libraries
bot_libraries = record {
  hmac_hex = λ key text. text;
  parse_command = λ _. some delete_command;
  parse_event = λ _. some SlackEvent.other;
  parse_uuid = λ id. some id;
  url_parses = λ _. true;
  float_text = λ literal. some literal;
}

abbrev the_bot : Bot
the_bot = record {
  signing_secret = codes "secret";
  namespace = "clawbake";
  base_url = codes "https://claw.example.com";
  tui_enabled = true;
  shell_enabled = false;
  version = codes "dev";
}

abbrev delivery : Delivery
delivery = record {
  timestamp = codes "1700000000";
  signature = codes "v0=v0:1700000000:text=delete";
  body = some (codes "text=delete");
}

verify_signature_admits_example :
    Verdict bot_libraries
      (codes "secret")
      delivery
      (bot_handler bot_libraries the_bot commands)
      (world_in "Running")
      []
      1_700_000_000
      (run
        (world_in "Running")
        (verify_signature bot_libraries
          (codes "secret")
          delivery
          (bot_handler bot_libraries the_bot commands))
        [])
verify_signature_admits_example =
    verify_signature_admits bot_libraries (codes "secret") delivery
      (bot_handler bot_libraries the_bot commands) (world_in "Running") [] (omega arith)

commands_act_for_the_resolved_user_example :
    Every
      (AccountStep "U1")
      (run
        (world_in "Running")
        (dispatch bot_libraries the_bot delete_command (codes "delete" ∷ []))
        []).1
commands_act_for_the_resolved_user_example =
    commands_act_for_the_resolved_user bot_libraries the_bot delete_command (codes "delete" ∷ [])
      (world_in "Running")

messages_reach_the_resolved_user_example :
    Every
      (AccountStep "U1")
      (run (world_in "Running") (handle_message bot_libraries the_bot "C1" (codes "hi") "U1") []).1
messages_reach_the_resolved_user_example =
    messages_reach_the_resolved_user bot_libraries the_bot "C1" (codes "hi") "U1"
      (world_in "Running")

bot_creates_as_the_server_example :
    (passed (bot_config bot_libraries the_bot create_command the_defaults)
      ≡ passed (
          and_then
            (substitute_values "missing: " the_defaults.gateway_config
              (parse_create_args create_command.text).0)
            (λ base.
              override_config bot_libraries.float_text base
                (parse_create_args create_command.text).1)))
    × (bot_instance "clawbake" alice the_defaults "00" (codes "{}")
        ≡ record (instance_of "clawbake" alice the_defaults "00" (codes "{}")) {
          labels = ("clawbake.io/user-id", "alice") ∷ ("clawbake.io/source", "slack-bot") ∷ [];
        })
bot_creates_as_the_server_example =
    bot_creates_as_the_server bot_libraries the_bot create_command "missing: " "clawbake" "00" alice
      the_defaults (codes "{}")

-- A signed command is handled.
deletes_on_command :
    (run (world_in "Running") (serve_bot bot_libraries the_bot commands delivery) []).0
    ≡ json_object 200 (
        ("response_type", codes "ephemeral")
        ∷ ("text", codes "Your openclaw instance is being deleted.")
        ∷ [])
unfolding serve_bot digits_value first_of delete_found
deletes_on_command = refl

reads_the_first_choice :
    answer_text
      (codes "{\"choices\":[{\"message\":{\"role\":\"assistant\",\"content\":\"hello\"}}]}")
    ≡ codes "hello"
unfolding answer_text parse read_literal scan_literal step combine
reads_the_first_choice = refl

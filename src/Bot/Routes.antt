-- ===== src/Bot/Routes.antt =====
-- internal/bot: `HandleCommands` of commands.go, `HandleEvents` of events.go and the routes of
-- routes.go.
use clawbake.Base.{[], ◌∷◌, not, Option, none, some, Text, codes, string_eq, ◌==◌, if◌then◌else◌}
use clawbake.Effects.{start_message, Prog, return, ◌>>◌, call}
use clawbake.Http.{Reply, json_object, no_content}
use clawbake.Jsonutil.Json.{Json, parse}
use clawbake.Bot.{
  Libraries, Bot, SlashCommand, Delivery, InnerEvent, app_mention, message, unhandled, SlackEvent,
  url_verification, callback, other,
}
use clawbake.Bot.Chats.{decoded, decode_struct, decode_string}
use clawbake.Bot.Slash.{fields, dispatch}
use clawbake.Bot.Verify.{error_reply, verify_signature}

module _ (l : Libraries) (b : Bot) where
  unfoldable pub handle_parsed : Option SlashCommand → Prog Reply Reply
  unfolding dispatch
  handle_parsed none = return (error_reply 400 "failed to parse command")
  handle_parsed (some cmd) = dispatch l b cmd (fields cmd.text)

  -- `HandleCommands`
  unfoldable pub handle_commands : Text → Prog Reply Reply
  unfolding handle_parsed
  handle_commands body = handle_parsed (l.parse_command body)

-- The challenge of a body, if it can be decoded.
abbrev pub challenge_of : Option Json → Option Text
challenge_of none = none
challenge_of (some v) = decoded (decode_struct (codes "challenge") decode_string []) (some []) v

abbrev pub challenge_reply : Option Text → Reply
challenge_reply none = error_reply 400 "failed to parse challenge"
challenge_reply (some challenge) = json_object 200 (("challenge", challenge) ∷ [])

unfoldable pub handle_inner : InnerEvent → Prog Reply Reply
handle_inner (app_mention channel user text) = do
  call (start_message channel user text)
  return (no_content 200)
handle_inner (message bot_id channel user text) =
    if not (bot_id == "")
    then return (no_content 200)
    else (do call (start_message channel user text); return (no_content 200))
handle_inner unhandled = return (no_content 200)

unfoldable pub handle_event : Text → Option SlackEvent → Prog Reply Reply
unfolding handle_inner
handle_event body none = return (error_reply 400 "failed to parse event")
handle_event body (some url_verification) = return (challenge_reply (challenge_of (parse body)))
handle_event body (some (callback e)) = handle_inner e
handle_event body (some other) = return (no_content 200)

-- `HandleEvents`, of a body that is read again
unfoldable pub handle_events : Libraries → Text → Prog Reply Reply
unfolding handle_event
handle_events l body = handle_event body (l.parse_event body)

pub data BotEndpoint : Type 0 where
  events commands : BotEndpoint

abbrev pub bot_handler : Libraries → Bot → BotEndpoint → Text → Prog Reply Reply
bot_handler l b events body = handle_events l body
bot_handler l b commands body = handle_commands l b body

-- A request to the group of `RegisterRoutes`.
unfoldable pub serve_bot : Libraries → Bot → BotEndpoint → Delivery → Prog Reply Reply
unfolding verify_signature handle_events handle_commands
serve_bot l b endpoint d = verify_signature l b.signing_secret d (bot_handler l b endpoint)

-- ===== src/Bot.antt =====
-- internal/bot: the Slack bot. What it takes from third-party code is the record `Libraries`; the
-- HMAC of crypto/hmac over SHA-256, in hexadecimal, is any function of the key and the message.
pub mod Commands
pub mod Verify
pub mod Users
pub mod Chats
pub mod Create
pub mod Slash
pub mod Routes
pub mod Ownership
pub mod Agreement
use clawbake.Base.{String, Bool, Option, Text}

-- The form of a slash command, as `slack.SlashCommandParse` gives it.
pub record SlashCommand : Type 0 where
  pub command : Text
  pub text : Text
  pub user_id : String

-- The data of an inner event, and what `slackevents.ParseEvent` makes of a body.
pub data InnerEvent : Type 0 where
  app_mention : String → String → Text → InnerEvent
  -- with the id of the bot that sent it
  message : String → String → String → Text → InnerEvent
  unhandled : InnerEvent

pub data SlackEvent : Type 0 where
  url_verification : SlackEvent
  callback : InnerEvent → SlackEvent
  other : SlackEvent

-- `uuid.Parse` gives a UUID as its text; `url_parses` says whether `http.NewRequest` takes a URL.
pub record Libraries : Type 0 where
  pub hmac_hex : Text → Text → Text
  pub parse_command : Text → Option SlashCommand
  pub parse_event : Text → Option SlackEvent
  pub parse_uuid : String → Option String
  pub url_parses : Text → Bool
  -- the passage of a number literal through a float64
  pub float_text : Text → Option Text

-- `Bot`, without its clients; `version` is the constant of internal/version.
pub record Bot : Type 0 where
  pub signing_secret : Text
  pub namespace : String
  pub base_url : Text
  pub tui_enabled : Bool
  pub shell_enabled : Bool
  pub version : Text

-- What the bot reads of a request: two headers and the body, if it can be read.
pub record Delivery : Type 0 where
  pub timestamp : Text
  pub signature : Text
  pub body : Option Text

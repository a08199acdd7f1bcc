-- ===== src/Bot/Chats.antt =====
-- internal/bot: `forwardToInstance` of bot.go and `handleMessage` of events.go. The time limits of
-- their contexts are not modelled: a call that runs into one has an error for its answer.
use clawbake.Base.{
  ℕ, String, List, [], ◌∷◌, ◌++◌, Bool, not, Option, none, some, Text, codes, concat, decimal,
  nat_eq, text_eq, string_eq, ◌==◌, leb, ◌&&◌, ◌+◌, if◌then◌else◌, list_beq, map,
}
use clawbake.Api.{Result, ok, err, ClawInstance, phase_running}
use clawbake.Database.{User}
use clawbake.Effects.{
  Chat, Exchange, unsent, unread, answered, chat, post_message, Prog, pure, return, ◌>>=◌, call,
  block,
}
use clawbake.Jsonutil.Strings.{encode_body}
use clawbake.Jsonutil.Json.{
  Json, null, string, array, object, Items, nil, item, Fields, end, field, parse,
}
use clawbake.Bot.{Libraries, Bot}
use clawbake.Bot.Users.{resolve_user, get_user_instance}

-- What stands at the namespace in the URL.
abbrev pub namespace_of : ClawInstance → String
namespace_of i =
    if i.status.namespace == "" then concat "clawbake-" i.spec.user_id else i.status.namespace

abbrev pub chat_url : ClawInstance → Text
chat_url i =
    codes "http://openclaw."
    ++ (codes (namespace_of i) ++ codes ".svc.cluster.local:18789/v1/chat/completions")

abbrev pub chat_body : Text → Text
chat_body message =
    codes "{\"messages\":[{\"role\":\"user\",\"content\":\""
    ++ (encode_body message ++ codes "\"}],\"model\":\"openclaw\"}")

-- The names of fields are compared without regard to case, as encoding/json folds it: U+017F is an
-- s, and U+212A a k.
abbrev pub fold_char : ℕ → ℕ
fold_char c =
    if leb b'A' c && leb c b'Z'
    then c + 32
    else if c == 0x17f
    then b's'
    else if c == 0x212a
    then b'k'
    else c

abbrev pub names_field : Text → Text → Bool
names_field name key = list_beq (map fold_char key) name

-- json.Unmarshal into a struct: `dec` decodes a field of the given name, where null changes nothing;
-- of the keys that name it the last counts, and every one must fit.
abbrev pub decoded {ℓ} : {A : Type ℓ} → (Json → Option A) → Option A → Json → Option A
decoded dec before null = before
decoded dec none v = none
decoded dec (some a) v = dec v

abbrev pub decode_field {ℓ} : {A : Type ℓ} → Text → (Json → Option A) → Option A → Fields → Option A
decode_field name dec before end = before
decode_field name dec before (field k v fs) =
    decode_field name dec (if names_field name k then decoded dec before v else before) fs

abbrev pub decode_string : Json → Option Text
decode_string (string t) = some t
decode_string _ = none

-- A struct with one field, whose zero value is given.
abbrev pub decode_struct {ℓ} : {A : Type ℓ} → Text → (Json → Option A) → A → Json → Option A
decode_struct name dec zero_value (object fs) = decode_field name dec (some zero_value) fs
decode_struct name dec zero_value _ = none

abbrev pub decode_choice : Json → Option Text
decode_choice =
    decode_struct (codes "message") (decode_struct (codes "content") decode_string []) []

abbrev pub cons_choice : Option Text → Option (List Text) → Option (List Text)
cons_choice (some t) (some ts) = some (t ∷ ts)
cons_choice _ _ = none

abbrev pub decode_choices : Items → Option (List Text)
decode_choices nil = some []
decode_choices (item v vs) = cons_choice (decoded decode_choice (some []) v) (decode_choices vs)

abbrev pub decode_array : Json → Option (List Text)
decode_array (array vs) = decode_choices vs
decode_array _ = none

-- The first choice's content, if the answer has the form of a completion with a choice.
abbrev pub first_choice : Text → Option (List Text) → Text
first_choice body (some (t ∷ ts)) = t
first_choice body (some []) = body
first_choice body none = body

abbrev pub decode_answer : Option Json → Option (List Text)
decode_answer none = none
decode_answer (some v) = decoded (decode_struct (codes "choices") decode_array []) (some []) v

unfoldable pub answer_text : Text → Text
answer_text body = first_choice body (decode_answer (parse body))

-- The two results of `forwardToInstance`: the answer, or the error's message.
pub data Forwarded : Type 0 where
  answer : Text → Forwarded
  failure : Text → Forwarded

abbrev pub outcome_of : Exchange → Forwarded
outcome_of (unsent e) = failure (codes "forwarding to instance: " ++ codes e.message)
outcome_of (unread e) = failure (codes "reading response: " ++ codes e.message)
outcome_of (answered status body) =
    if not (status == 200)
    then failure (codes "instance returned status " ++ (decimal status ++ (codes ": " ++ body)))
    else answer (answer_text body)

abbrev pub chat_with_instance : ClawInstance → Text → Chat
chat_with_instance i message = record {
  url = chat_url i;
  token = i.spec.gateway_token;
  body = chat_body message;
}

-- `forwardToInstance`; the parser's words on a bad URL are left out.
unfoldable pub forward_to_instance : Libraries → ClawInstance → Text → Prog Forwarded Forwarded
forward_to_instance l i message =
    if not (l.url_parses (chat_url i))
    then return (failure (codes "creating request: "))
    else (do exchanged ← call (chat (chat_with_instance i message)); pure (outcome_of exchanged))

abbrev pub message_of : Forwarded → Text
message_of (answer t) = t
message_of (failure m) = codes "Failed to forward message to your instance: " ++ m

module _ (l : Libraries) (b : Bot) (channel : String) (message : Text) where
  unfoldable pub chat_if_running : ClawInstance → Prog Unit Unit
  unfolding forward_to_instance
  chat_if_running i =
      if not (i.status.phase == phase_running)
      then call (
          post_message channel (
            codes "Your instance is currently "
            ++ (codes i.status.phase ++ codes ". Please wait for it to be Running.")))
      else (do
        forwarded ← block (forward_to_instance l i message)
        call (post_message channel (message_of forwarded)))

  unfoldable pub chat_with : Result ClawInstance → Prog Unit Unit
  unfolding chat_if_running
  chat_with (ok i) = chat_if_running i
  chat_with (err e) = call (
      post_message channel
        (codes "You don't have an openclaw instance yet. Use `/clawbake create` to create one."))

  unfoldable pub chat_for : Result User → Prog Unit Unit
  unfolding get_user_instance chat_with
  chat_for (err e) =
      call (post_message channel (codes "Failed to look up your account: " ++ codes e.message))
  chat_for (ok u) = do found ← block (get_user_instance b u.id); chat_with found

  -- `handleMessage`
  unfoldable pub handle_message : String → Prog Unit Unit
  unfolding resolve_user chat_for
  handle_message slack_id = do resolved ← block (resolve_user slack_id); chat_for resolved

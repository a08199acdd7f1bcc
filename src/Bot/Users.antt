-- ===== src/Bot/Users.antt =====
-- internal/bot/bot.go: the user behind a Slack account, the instance of a user, and the message that
-- an instance is ready.
use clawbake.Base.{
  String, List, [], ◌∷◌, ◌++◌, Bool, Option, none, some, Text, codes, concat, string_eq, ◌==◌,
  if◌then◌else◌,
}
use clawbake.Api.{Error, Kind, Result, ok, err, ClawInstance}
use clawbake.Database.{User, CreateUserParams, UpdateUserParams}
use clawbake.Effects.{
  SlackUser, slack_user, get_user_by_email, get_user_by_id, update_user, create_user,
  list_instances, post_message, Prog, pure, return, ◌>>=◌, call,
}
use clawbake.Bot.{Libraries, Bot}

-- fmt.Errorf
abbrev pub plain_error : String → Error
plain_error message = record { kind = Kind.other; message = message }

abbrev pub wrapped : String → Error → Error
wrapped label e = record { kind = e.kind; message = concat label e.message }

-- The zero value of `database.User`, with the id that `formatUUID` gives.
abbrev pub no_user : User
no_user = record {
  id = "00000000-0000-0000-0000-000000000000";
  email = "";
  name = "";
  picture = none;
  role = "";
  oidc_subject = "";
  slack_user_id = none;
}

-- The row that comes with an error is the zero row.
abbrev pub row_of : Result User → User
row_of (ok u) = u
row_of (err e) = no_user

abbrev pub link_slack : User → String → UpdateUserParams
link_slack u slack_id = record {
  id = u.id;
  email = none;
  name = none;
  picture = none;
  role = none;
  oidc_subject = none;
  slack_user_id = some slack_id;
}

abbrev pub create_from_slack : SlackUser → String → CreateUserParams
create_from_slack profile slack_id = record {
  email = profile.email;
  name = profile.real_name;
  picture = none;
  role = "user";
  oidc_subject = concat "slack:" slack_id;
  slack_user_id = some slack_id;
}

abbrev pub is_linked : Option String → Bool
is_linked (some slack_id) = Bool.true
is_linked none = Bool.false

unfoldable pub known_or_created :
    SlackUser → String → Result User → Prog (Result User) (Result User)
known_or_created profile slack_id (ok u) =
    if is_linked u.slack_user_id
    then pure (ok u)
    else (do linked ← call (update_user (link_slack u slack_id)); pure (ok (row_of linked)))
known_or_created profile slack_id (err e) = call (create_user (create_from_slack profile slack_id))

unfoldable pub resolve_profile : String → Result SlackUser → Prog (Result User) (Result User)
unfolding known_or_created
resolve_profile slack_id (err e) = pure (err (wrapped "getting Slack user info: " e))
resolve_profile slack_id (ok profile) =
    if profile.email == ""
    then pure (err (plain_error "Slack user has no email configured"))
    else (do
      found ← call (get_user_by_email profile.email)
      known_or_created profile slack_id found)

-- `resolveUser`
unfoldable pub resolve_user : String → Prog (Result User) (Result User)
unfolding resolve_profile
resolve_user slack_id = do answer ← call (slack_user slack_id); resolve_profile slack_id answer

-- The loop over the instances.
unfoldable pub first_of : String → List ClawInstance → Result ClawInstance
first_of uid [] = err (plain_error (concat "no instance found for user " uid))
first_of uid (i ∷ is) = let rest = first_of uid is in if i.spec.user_id == uid then ok i else rest

abbrev pub instance_among : String → Result (List ClawInstance) → Result ClawInstance
instance_among uid (ok is) = first_of uid is
instance_among uid (err e) = err (wrapped "listing instances: " e)

-- `getUserInstance`
unfoldable pub get_user_instance : Bot → String → Prog (Result ClawInstance) (Result ClawInstance)
get_user_instance b uid = do
  answer ← call (list_instances b.namespace)
  pure (instance_among uid answer)

abbrev pub ready_message : Text → String → Text
ready_message base_url name =
    codes "Your openclaw instance *"
    ++ (codes name
        ++ (codes
              "* is now running! :tada:\n\nYou can interact with it by:\n- Sending me a DM with your message\n- @mentioning me in a channel\n- Using the web UI at "
            ++ base_url))

unfoldable pub notify_user : Bot → String → Result User → Prog Unit Unit
notify_user b name (err e) = return tt
notify_user b name (ok u) = elim u.slack_user_id [
  | none ↦ return tt
  | some slack_id ↦ call (post_message slack_id (ready_message b.base_url name))
]

unfoldable pub notify_id : Bot → String → Option String → Prog Unit Unit
unfolding notify_user
notify_id b name none = return tt
notify_id b name (some id) = do got ← call (get_user_by_id id); notify_user b name got

-- `NotifyInstanceReady`
unfoldable pub notify_instance_ready : Libraries → Bot → String → String → Prog Unit Unit
unfolding notify_id
notify_instance_ready l b name user_id = notify_id b name (l.parse_uuid user_id)

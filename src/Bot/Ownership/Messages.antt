-- ===== src/Bot/Ownership/Messages.antt =====
-- Where the messages of internal/bot/events.go are sent on to.
use clawbake.Base.{String, [], ◌∷◌, not, ◌≡◌, refl, Text, if_elim, ==_sound, string_eq, ◌==◌, arith}
use clawbake.Api.{Result, ok, err, ClawInstance, phase_running}
use clawbake.Database.{User}
use clawbake.Effects.{Trace, Prog, Oracle, run, block, call, list_instances, post_message}
use clawbake.Effects.Paths.{
  event, Every, Ends, AllPaths, AllPaths-run, AllPaths-bind, AllPaths-block,
}
use clawbake.Bot.{Libraries, Bot}
use clawbake.Bot.Users.{instance_among, resolve_user, get_user_instance}
use clawbake.Bot.Chats.{
  Forwarded, chat_url, forward_to_instance, message_of, chat_if_running, chat_with, chat_for,
  handle_message,
}
use clawbake.Bot.Ownership.{
  ActsFor, AccountIs, AccountStep, Looked, InstanceIs, ActsFor-later, resolve_user-Looked,
  instance_among-InstanceIs,
}

module _ (l : Libraries) (b : Bot) (channel : String) (message : Text) (slack_id : String) where
  abbrev Kept : Trace → Type 0
  Kept t = Every (AccountStep slack_id) t

  abbrev Acts : Prog Unit Unit → Trace → Type 0
  Acts m t = AllPaths (Ends (AccountStep slack_id)) (Ends (AccountStep slack_id)) m t

  forward-Ends :
      (u : User) (i : ClawInstance) (t : Trace)
      → Kept t
      → ActsFor slack_id u t
      → i.spec.user_id ≡ u.id
      → i.status.phase ≡ phase_running
      → AllPaths
          (Ends (AccountStep slack_id))
          (Ends (AccountStep slack_id))
          (forward_to_instance l i message)
          t
  unfolding forward_to_instance
  forward-Ends u i t h a own running =
      if_elim
        (λ (m : Prog Forwarded Forwarded).
          AllPaths (Ends (AccountStep slack_id)) (Ends (AccountStep slack_id)) m t)
        (not (l.url_parses (chat_url i))) _ _ (λ _. h)
        (λ _ exchanged. ((u, i, a, own, running, refl, refl), h))

  chat_if_running-Acts :
      (u : User) (i : ClawInstance) (t : Trace)
      → Kept t
      → ActsFor slack_id u t
      → i.spec.user_id ≡ u.id
      → Acts (chat_if_running l b channel message i) t
  unfolding chat_if_running
  chat_if_running-Acts u i t h a own =
      if_elim (λ m. Acts m t) (not (i.status.phase == phase_running)) _ _ (λ _ _. (tt, h))
        (λ running.
          AllPaths-bind _ (Ends (AccountStep slack_id)) _ (block (forward_to_instance l i message))
            (λ forwarded. call (post_message channel (message_of forwarded))) t
            (AllPaths-block _ _ (forward_to_instance l i message) t (
              forward-Ends u i t h a own
                (==_sound i.status.phase phase_running (ground (arith, running)))))
            (λ forwarded s k _. (tt, k)))

  chat_with-Acts :
      (u : User) (r : Result ClawInstance) (t : Trace)
      → Kept t
      → ActsFor slack_id u t
      → InstanceIs slack_id u.id r t
      → Acts (chat_with l b channel message r) t
  unfolding chat_with
  chat_with-Acts u (ok i) t h a own = chat_if_running-Acts u i t h a own
  chat_with-Acts u (err e) t h a own = λ _. (tt, h)

  chat_for-Acts :
      (r : Result User) (t : Trace)
      → Kept t
      → AccountIs slack_id r t
      → Acts (chat_for l b channel message r) t
  unfolding chat_for get_user_instance
  chat_for-Acts (err e) t h a = λ _. (tt, h)
  chat_for-Acts (ok u) t h a = λ answer.
      chat_with-Acts u (instance_among u.id answer) (event (list_instances b.namespace) answer ∷ t)
        (tt, h) (ActsFor-later slack_id _ u t a)
        (instance_among-InstanceIs slack_id u.id answer
          (event (list_instances b.namespace) answer ∷ t))

  handle_message-Acts : (t : Trace) → Kept t → Acts (handle_message l b channel message slack_id) t
  unfolding handle_message
  handle_message-Acts t h =
      AllPaths-bind _ (Looked slack_id) _ (block (resolve_user slack_id))
        (chat_for l b channel message) t
        (AllPaths-block _ _ (resolve_user slack_id) t (resolve_user-Looked slack_id t h))
        (λ r s looked. chat_for-Acts r s looked.0 looked.1)

  -- Whatever Slack, the database, the cluster and the instance answer: a message is sent on only to an
  -- instance whose phase is Running, at that instance's own address and with its own token, and which
  -- belongs to the user of the email of the sender's Slack account (found, linked to the account by an
  -- update that succeeded, or created for it) or, where that update failed, to the zero user, whose id
  -- is all zeros, whoever the sender is. No instance is created or deleted for another user; a user
  -- is created only with the email and name of the sender's profile, the role "user" and the account;
  -- and an update gives a user of that email the Slack account and changes nothing else.
  pub messages_reach_the_resolved_user :
      (o : Oracle)
      → Every (AccountStep slack_id) (run o (handle_message l b channel message slack_id) []).1
  messages_reach_the_resolved_user o =
      AllPaths-run (Ends (AccountStep slack_id)) (handle_message l b channel message slack_id) o []
        (handle_message-Acts [] tt)

-- ===== src/Bot/Ownership/Slashes.antt =====
-- For whom the slash commands of internal/bot/commands.go act.
use clawbake.Base.{
  List, [], ◌∷◌, Bool, true, false, if◌then◌else◌, ◌≡◌, refl, Text, codes, string_eq, text_eq, ◌==◌,
  subst,
}
use clawbake.Api.{Result, ok, err, ClawInstance}
use clawbake.Database.{User, InstanceDefault}
use clawbake.Http.{Reply}
use clawbake.Handler.{pass}
use clawbake.Handler.Checks.{check-Ends}
use clawbake.Effects.{Trace, Prog, Oracle, run, block, return}
use clawbake.Effects.Paths.{
  event, Every, Ends, AllPaths, AllPaths-run, AllPaths-bind, AllPaths-block,
}
use clawbake.Bot.{Libraries, Bot, SlashCommand}
use clawbake.Bot.Users.{instance_among, resolve_user, get_user_instance}
use clawbake.Effects.{list_instances, get_defaults}
use clawbake.Bot.Create.{
  and_then, respond_slack, or_respond, or_respond_error, account_failure, none_yet, with_account,
  bot_config, create_with, create_if_none, bot_instance, create_for, handle_create,
}
use clawbake.Bot.Slash.{
  open_reply, title_of, help_text, usage_from, instance_of_user, with_instance, status_of,
  delete_found, open_found, no_instance, running_or_respond, open_mode, fields, handle_status,
  handle_delete, handle_open, handle_help, dispatch,
}
use clawbake.Bot.Commands.{trim_prefix}
use clawbake.Bot.Ownership.{
  ActsFor, AccountIs, AccountStep, Looked, InstanceIs, ActsFor-later, resolve_user-Looked,
  instance_among-InstanceIs,
}

or_respond_error-eq-pass :
    {A : Type 0} (label : Text) (r : Result A) (a : A)
    → or_respond_error label r ≡ pass a
    → r ≡ ok a
or_respond_error-eq-pass label (ok b) a e = cc
or_respond_error-eq-pass label (err _) a e = cc

or_respond-eq-pass :
    {A : Type 0} (m : Text) (r : Result A) (a : A) → or_respond m r ≡ pass a → r ≡ ok a
or_respond-eq-pass m (ok b) a e = cc
or_respond-eq-pass m (err _) a e = cc

module _ (l : Libraries) (b : Bot) (cmd : SlashCommand) where
  abbrev Acts : {A : Type 0} → Prog Reply A → Trace → Type 0
  Acts m t = AllPaths (Ends (AccountStep cmd.user_id)) (Ends (AccountStep cmd.user_id)) m t

  -- The steps so far are justified.
  abbrev Kept : Trace → Type 0
  Kept t = Every (AccountStep cmd.user_id) t

  with_account-Acts :
      (next : User → Prog Reply Reply) (t : Trace)
      → Kept t
      → ((u : User) (s : Trace) → Kept s → ActsFor cmd.user_id u s → Acts (next u) s)
      → Acts (with_account cmd next) t
  unfolding with_account
  with_account-Acts next t h k =
      AllPaths-bind _ (Looked cmd.user_id) _ (block (resolve_user cmd.user_id)) _ t
        (AllPaths-block _ _ (resolve_user cmd.user_id) t (resolve_user-Looked cmd.user_id t h))
        (λ r s looked. check-Ends _ (or_respond_error account_failure r) next s looked.0 (λ u e.
          k u s looked.0 (
            subst (λ x. AccountIs cmd.user_id x s) (or_respond_error-eq-pass account_failure r u e)
              looked.1)))

  instance_of_user-Acts :
      (otherwise : Text) (next : ClawInstance → Prog Reply Reply) (u : User) (t : Trace)
      → Kept t
      → ActsFor cmd.user_id u t
      → ((i : ClawInstance) (s : Trace)
          → Kept s
          → ActsFor cmd.user_id u s
          → i.spec.user_id ≡ u.id
          → Acts (next i) s)
      → Acts (instance_of_user l b cmd otherwise next u) t
  unfolding instance_of_user get_user_instance
  instance_of_user-Acts otherwise next u t h a k answer =
      check-Ends _ (or_respond otherwise (instance_among u.id answer)) next
        (event (list_instances b.namespace) answer ∷ t) (tt, h)
        (λ i e.
          k i _ (tt, h) (ActsFor-later cmd.user_id _ u t a)
            (subst (λ x. InstanceIs cmd.user_id u.id x t)
              (or_respond-eq-pass otherwise (instance_among u.id answer) i e)
              (instance_among-InstanceIs cmd.user_id u.id answer t)))

  with_instance-Acts :
      (otherwise : Text) (next : ClawInstance → Prog Reply Reply) (t : Trace)
      → Kept t
      → ((u : User) (i : ClawInstance) (s : Trace)
          → Kept s
          → ActsFor cmd.user_id u s
          → i.spec.user_id ≡ u.id
          → Acts (next i) s)
      → Acts (with_instance l b cmd otherwise next) t
  unfolding with_instance
  with_instance-Acts otherwise next t h k =
      with_account-Acts (instance_of_user l b cmd otherwise next) t h
        (λ u s g a. instance_of_user-Acts otherwise next u s g a (k u))

  delete_found-Acts :
      (u : User) (i : ClawInstance) (t : Trace)
      → Kept t
      → ActsFor cmd.user_id u t
      → i.spec.user_id ≡ u.id
      → Acts (delete_found l b cmd i) t
  unfolding delete_found
  delete_found-Acts u i t h a own (ok _) = ((u, a, own), h)
  delete_found-Acts u i t h a own (err _) = ((u, a, own), h)

  open_found-Acts : (i : ClawInstance) (t : Trace) → Kept t → Acts (open_found l b cmd i) t
  unfolding open_found
  open_found-Acts i t h =
      check-Ends _ (and_then (running_or_respond i) (λ _. open_mode b (fields cmd.text)))
        (λ mode. return (open_reply b mode)) t h (λ _ _. h)

  create_with-Acts :
      (u : User) (d : InstanceDefault) (config : Text) (t : Trace)
      → Kept t
      → ActsFor cmd.user_id u t
      → Acts (create_with l b cmd u d config) t
  unfolding create_with bot_instance
  create_with-Acts u d config t h a random (ok _) =
      ((u, ActsFor-later cmd.user_id _ u t a, refl, refl), (tt, h))
  create_with-Acts u d config t h a random (err _) =
      ((u, ActsFor-later cmd.user_id _ u t a, refl, refl), (tt, h))

  create_for-Acts :
      (u : User) (t : Trace) → Kept t → ActsFor cmd.user_id u t → Acts (create_for l b cmd u) t
  unfolding create_for
  create_for-Acts u t h a (err e) = (tt, h)
  create_for-Acts u t h a (ok d) =
      check-Ends _ (bot_config l b cmd d) (create_with l b cmd u d) (event get_defaults (ok d) ∷ t)
        (tt, h)
        (λ config _. create_with-Acts u d config _ (tt, h) (ActsFor-later cmd.user_id _ u t a))

  create_if_none-Acts :
      (u : User) (t : Trace) → Kept t → ActsFor cmd.user_id u t → Acts (create_if_none l b cmd u) t
  unfolding create_if_none get_user_instance
  create_if_none-Acts u t h a answer =
      check-Ends _ (none_yet (instance_among u.id answer)) (λ _. create_for l b cmd u)
        (event (list_instances b.namespace) answer ∷ t) (tt, h)
        (λ _ _. create_for-Acts u _ (tt, h) (ActsFor-later cmd.user_id _ u t a))

  help-Acts : (t : Trace) → Kept t → Acts (handle_help l b cmd) t
  unfolding handle_help
  help-Acts t h got =
      check-Ends _ (title_of (trim_prefix cmd.command (codes "/")))
        (λ title.
          return (respond_slack (help_text b cmd.command title (usage_from cmd.command got))))
        (event get_defaults got ∷ t) (tt, h) (λ _ _. (tt, h))

  branch-Acts :
      (c : Bool) (m n : Prog Reply Reply) (t : Trace)
      → Acts m t
      → Acts n t
      → Acts (if c then m else n) t
  branch-Acts true m n t h k = h
  branch-Acts false m n t h k = k

  create-Acts : (t : Trace) → Kept t → Acts (handle_create l b cmd) t
  unfolding handle_create
  create-Acts t h = with_account-Acts (create_if_none l b cmd) t h create_if_none-Acts

  status-Acts : (t : Trace) → Kept t → Acts (handle_status l b cmd) t
  unfolding handle_status status_of
  status-Acts t h =
      with_instance-Acts (no_instance cmd.command) (status_of l b cmd) t h (λ u i s g a own. g)

  delete-Acts : (t : Trace) → Kept t → Acts (handle_delete l b cmd) t
  unfolding handle_delete
  delete-Acts t h =
      with_instance-Acts (codes "You don't have an openclaw instance.") (delete_found l b cmd) t h
        delete_found-Acts

  open-Acts : (t : Trace) → Kept t → Acts (handle_open l b cmd) t
  unfolding handle_open
  open-Acts t h =
      with_instance-Acts (no_instance cmd.command) (open_found l b cmd) t h
        (λ u i s g a own. open_found-Acts i s g)

  dispatch-Acts : (parts : List Text) (t : Trace) → Kept t → Acts (dispatch l b cmd parts) t
  dispatch-Acts [] t h = unfold dispatch in help-Acts t h
  dispatch-Acts (p ∷ ps) t h =
      unfold dispatch in
      (branch-Acts (p == codes "create") (handle_create l b cmd) _ t (create-Acts t h) (
        branch-Acts (p == codes "status") (handle_status l b cmd) _ t (status-Acts t h) (
          branch-Acts (p == codes "delete") (handle_delete l b cmd) _ t (delete-Acts t h) (
            branch-Acts (p == codes "open") (handle_open l b cmd) (handle_help l b cmd) t
              (open-Acts t h) (help-Acts t h)))))

  -- Whatever the words of a slash command and whatever Slack, the database and the cluster answer: an
  -- instance is created or deleted only for the user of the email of the command's Slack account
  -- (found, linked to the account by an update that succeeded, or created for it) or, where that
  -- update failed, for the zero user, whose id is all zeros, whoever gave the command. The created
  -- instance is named by the user's id. A user is created only with the email and name of the
  -- account's profile, the role "user", and the account also for its subject; and an update gives a user of that email the
  -- Slack account and changes nothing else.
  pub commands_act_for_the_resolved_user :
      (parts : List Text) (o : Oracle)
      → Every (AccountStep cmd.user_id) (run o (dispatch l b cmd parts) []).1
  commands_act_for_the_resolved_user parts o =
      AllPaths-run (Ends (AccountStep cmd.user_id)) (dispatch l b cmd parts) o []
        (dispatch-Acts parts [] tt)

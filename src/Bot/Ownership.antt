-- ===== src/Bot/Ownership.antt =====
-- For whom the commands of internal/bot act, whatever Slack, the database and the cluster answer.
pub mod Slashes
pub mod Messages
use clawbake.Base.{
  String, [], ◌∷◌, Bool, true, false, ◌≡◌, ◌⊎◌, ◌↔◌, inl, inr, refl, Option, none, some, Text,
  codes, concat, if_elim, ==_sound, string_eq, ◌==◌, arith, List, if◌then◌else◌,
}
use clawbake.Api.{Error, Result, ok, err, ClawInstance, phase_running}
use clawbake.Bot.Chats.{chat_url}
use clawbake.Database.{User, CreateUserParams, UpdateUserParams}
use clawbake.Effects.{
  Call, SlackUser, slack_user, get_user_by_email, update_user, create_user, delete_instance,
  list_instances, create_instance, chat, Event, Trace, Prog, ◌>>=◌, block,
}
use clawbake.Effects.Paths.{event, Occurs, Every, Ends, AllPaths, AllPaths-bind, AllPaths-block}
use clawbake.Bot.{Libraries, Bot, SlashCommand}
use clawbake.Bot.Users.{
  no_user, link_slack, create_from_slack, row_of, is_linked, known_or_created, resolve_profile,
  resolve_user, first_of, instance_among, get_user_instance,
}

module _ (slack_id : String) where
  -- The update gives the user the Slack account, and nothing else.
  abbrev pub LinksSlack : User → UpdateUserParams → Type 0
  LinksSlack u p =
      (p.id ≡ u.id)
      × (p.slack_user_id ≡ some slack_id)
      × (p.email ≡ none)
      × (p.name ≡ none)
      × (p.picture ≡ none)
      × (p.role ≡ none)
      × (p.oidc_subject ≡ none)

  -- The new user is the one of the Slack profile, with the role "user".
  abbrev pub MadeOfSlack : SlackUser → CreateUserParams → Type 0
  MadeOfSlack profile p =
      (p.email ≡ profile.email)
      × (p.name ≡ profile.real_name)
      × (p.picture ≡ none)
      × (p.role ≡ "user")
      × (p.oidc_subject ≡ concat "slack:" slack_id)
      × (p.slack_user_id ≡ some slack_id)

  -- The user of the email of the Slack account: found, linked to the account, or created for it.
  abbrev pub Account : User → Trace → Type 0
  Account u t =
      (profile : SlackUser) × Occurs (slack_user slack_id) (ok profile) t
      × (Occurs (get_user_by_email profile.email) (ok u) t
          ⊎ (((known : User) × (p : UpdateUserParams) × Occurs (get_user_by_email profile.email)
                  (ok known) t
                × Occurs (update_user p) (ok u) t
                × LinksSlack known p)
              ⊎ ((p : CreateUserParams) × Occurs (create_user p) (ok u) t × MadeOfSlack profile p)))

  -- The link of a user to the Slack account failed.
  abbrev pub LinkFailed : Trace → Type 0
  LinkFailed t =
      (p : UpdateUserParams) × (e : Error) × Occurs (update_user p) (err e) t
      × (p.slack_user_id ≡ some slack_id)

  -- For whom the bot acts: the user of the account, or, where the link failed, the zero user, whose
  -- row came with the error.
  abbrev pub ActsFor : User → Trace → Type 0
  ActsFor u t = Account u t ⊎ (LinkFailed t × (u ≡ no_user))

  -- An instance is created or deleted only for the user that the bot acts for; users are created for
  -- the account without rights, and an update only links the account to a user of its email; a chat
  -- goes to the running instance of the user that the bot acts for.
  abbrev pub AccountStep : Call → Trace → Type 0
  AccountStep (create_instance i) t =
      (u : User) × ActsFor u t × (i.spec.user_id ≡ u.id) × (i.name ≡ u.id)
  AccountStep (delete_instance i) t = (u : User) × ActsFor u t × (i.spec.user_id ≡ u.id)
  AccountStep (create_user p) t =
      (profile : SlackUser) × Occurs (slack_user slack_id) (ok profile) t × MadeOfSlack profile p
  AccountStep (update_user p) t =
      (profile : SlackUser) × (known : User) × Occurs (slack_user slack_id) (ok profile) t
      × Occurs (get_user_by_email profile.email) (ok known) t
      × LinksSlack known p
  AccountStep (chat c) t =
      (u : User) × (i : ClawInstance) × ActsFor u t
      × (i.spec.user_id ≡ u.id)
      × (i.status.phase ≡ phase_running)
      × (c.url ≡ chat_url i)
      × (c.token ≡ i.spec.gateway_token)
  AccountStep _ t = Unit

  -- What is known when the account has been looked up.
  abbrev pub AccountIs : Result User → Trace → Type 0
  AccountIs (ok u) t = ActsFor u t
  AccountIs (err e) t = Unit

  abbrev pub Looked : Result User → Trace → Type 0
  Looked r t = Every AccountStep t × AccountIs r t

  AccountIs-created :
      (profile : SlackUser) (r : Result User) (t : Trace)
      → Occurs (slack_user slack_id) (ok profile) t
      → AccountIs r (event (create_user (create_from_slack profile slack_id)) r ∷ t)
  AccountIs-created profile (ok u) t h =
      inl (profile, inr h, inr (inr (_, inl refl, (refl, refl, refl, refl, refl, refl))))
  AccountIs-created profile (err e) t h = tt

  link_slack-LinksSlack : (u : User) → LinksSlack u (link_slack u slack_id)
  link_slack-LinksSlack u = (refl, refl, refl, refl, refl, refl, refl)

  AccountIs-linked :
      (profile : SlackUser) (known : User) (r : Result User) (t : Trace)
      → Occurs (slack_user slack_id) (ok profile) t
      → Occurs (get_user_by_email profile.email) (ok known) t
      → AccountIs (ok (row_of r)) (event (update_user (link_slack known slack_id)) r ∷ t)
  AccountIs-linked profile known (ok u) t h k =
      inl (profile, inr h, inr (inl (known, _, inr k, inl refl, link_slack-LinksSlack known)))
  AccountIs-linked profile known (err e) t h k = inr ((_, e, inl refl, refl), refl)

  known_or_created-Looked :
      (profile : SlackUser) (found : Result User) (t : Trace)
      → Occurs (slack_user slack_id) (ok profile) t
      → Every AccountStep t
      → AllPaths Looked Looked
          (known_or_created profile slack_id found)
          (event (get_user_by_email profile.email) found ∷ t)
  unfolding known_or_created
  known_or_created-Looked profile (err e) t asked h = λ r. (
    ((profile, inr asked, (refl, refl, refl, refl, refl, refl)), (tt, h)),
    AccountIs-created profile r _ (inr asked),
  )
  known_or_created-Looked profile (ok u) t asked h =
      if_elim (λ m. AllPaths Looked Looked m (event (get_user_by_email profile.email) (ok u) ∷ t))
        (is_linked u.slack_user_id) _ _ (λ _. ((tt, h), inl (profile, inr asked, inl (inl refl))))
        (λ _ r. (
          ((profile, u, inr asked, inl refl, link_slack-LinksSlack u), (tt, h)),
          AccountIs-linked profile u r (event (get_user_by_email profile.email) (ok u) ∷ t)
              (inr asked) (inl refl),
        ))

  resolve_profile-Looked :
      (answer : Result SlackUser) (t : Trace)
      → Every AccountStep t
      → AllPaths Looked Looked
          (resolve_profile slack_id answer)
          (event (slack_user slack_id) answer ∷ t)
  unfolding resolve_profile
  resolve_profile-Looked (err e) t h = ((tt, h), tt)
  resolve_profile-Looked (ok profile) t h =
      if_elim (λ m. AllPaths Looked Looked m (event (slack_user slack_id) (ok profile) ∷ t))
        (profile.email == "") _ _ (λ _. ((tt, h), tt))
        (λ _ found.
          known_or_created-Looked profile found (event (slack_user slack_id) (ok profile) ∷ t)
            (inl refl) (tt, h))

  pub resolve_user-Looked :
      (t : Trace) → Every AccountStep t → AllPaths Looked Looked (resolve_user slack_id) t
  unfolding resolve_user
  resolve_user-Looked t h answer = resolve_profile-Looked answer t h

  -- What is known of an instance that was looked up for an account.
  abbrev pub InstanceIs : String → Result ClawInstance → Trace → Type 0
  InstanceIs uid (ok i) t = i.spec.user_id ≡ uid
  InstanceIs uid (err e) t = Unit

  first_of-InstanceIs :
      (uid : String) (is : List ClawInstance) (t : Trace) → InstanceIs uid (first_of uid is) t
  unfolding first_of
  first_of-InstanceIs uid [] t = tt
  first_of-InstanceIs uid (i ∷ is) t =
      if_elim (λ r. InstanceIs uid r t) (i.spec.user_id == uid) _ _
        (λ same. ==_sound i.spec.user_id uid same) (λ _. first_of-InstanceIs uid is t)

  pub instance_among-InstanceIs :
      (uid : String) (answer : Result (List ClawInstance)) (t : Trace)
      → InstanceIs uid (instance_among uid answer) t
  instance_among-InstanceIs uid (ok is) t = first_of-InstanceIs uid is t
  instance_among-InstanceIs uid (err e) t = tt

  Account-later : (e : Event) (u : User) (t : Trace) → Account u t → Account u (e ∷ t)
  Account-later e u t (profile, asked, inl found) = (profile, inr asked, inl (inr found))
  Account-later e u t (profile, asked, inr (inl (known, p, found, updated, links))) =
      (profile, inr asked, inr (inl (known, p, inr found, inr updated, links)))
  Account-later e u t (profile, asked, inr (inr (p, created, made))) =
      (profile, inr asked, inr (inr (p, inr created, made)))

  pub ActsFor-later : (e : Event) (u : User) (t : Trace) → ActsFor u t → ActsFor u (e ∷ t)
  ActsFor-later e u t (inl a) = inl (Account-later e u t a)
  ActsFor-later e u t (inr ((p, x, failed, links), zero_row)) =
      inr ((p, x, inr failed, links), zero_row)

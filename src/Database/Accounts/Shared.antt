-- ===== src/Database/Accounts/Shared.antt =====
-- `resolveUser` of internal/bot/bot.go and the callback of internal/auth/oidc.go, run on the tables of
-- a database that can be reached.
use clawbake.Base.{String, ◌∷◌, ◌≡◌, ◌≢◌, ◌⊎◌, refl, string_eq, ◌==◌, subst, sym, inl, inr}
use clawbake.Api.{Error, Result, ok, err}
use clawbake.Database.{User}
use clawbake.Effects.{
  SlackUser, slack_user, OidcClaims, get_user_by_oidc_subject, get_user_by_email, update_user,
  Trace, Oracle, Prog, pure, return, ask, ◌>>=◌, call,
}
use clawbake.Effects.Paths.{event}
use clawbake.Http.{Reply, http_error}
use clawbake.Auth.Oidc.{by_subject_or_email, link_or_create, link_params, or_error}
use clawbake.Bot.Users.{resolve_user}
use clawbake.Database.Store.{Tables, run_on, exec, user_by_email, user_by_oidc_subject}
use clawbake.Database.Consistency.{subject_of, IsConsistent, run_on-IsConsistent}
use clawbake.Database.Accounts.Rows.{lacks_of_unfound, free_of_lacks, found_new_subject}
use clawbake.Database.Accounts.Resolution.{
  rewritten, change_found, reachable, resolve_user-Resolution, Settled, Settled-by,
  Settled-Resolution,
}

-- The result of a function body in a run on the tables: its return, or the value that it goes on with.
abbrev pub outcome : {R A : Type 0} → Prog R A → Prog (R ⊎ A) (R ⊎ A)
outcome (pure a) = pure (inr a)
outcome (return r) = return (inl r)
outcome (ask c k) = ask c (λ r. outcome (k r))

-- The user for the claims of a token, as `CallbackHandler` looks for one.
abbrev pub user_for_claims : OidcClaims → Prog Reply User
user_for_claims c = do
  by_subject ← call (get_user_by_oidc_subject c.sub)
  by_subject_or_email c by_subject

-- The row as an OIDC login links it.
abbrev pub with_subject : User → String → User
with_subject u sub = record u { oidc_subject = sub }

module _ (slack_id : String) (profile : SlackUser) (fresh : Trace → String) (others : Oracle)
    (db : Tables) (t : Trace) (u : User) where
  abbrev pub First : Result User × Tables
  First = run_on (reachable fresh others) (resolve_user slack_id) db t

  -- On tables where no two users share an id, an email or a subject, in a database that can be reached,
  -- and where Slack gives an email for the account: once `resolveUser` has given a user, that user has
  -- the email and a Slack account in the tables, and asked again for the account, at any later time, it
  -- gives the same user and changes nothing.
  pub resolve_user_once :
      IsConsistent db
      → profile.email ≢ ""
      → ((s : Trace) → others s (slack_user slack_id) ≡ ok profile)
      → First.0 ≡ ok u
      → Settled slack_id profile fresh others First.1 u
        × ((s : Trace)
            → run_on (reachable fresh others) (resolve_user slack_id) First.1 s ≡ (ok u, First.1))
  resolve_user_once h given asked e =
      let first = resolve_user-Resolution slack_id profile fresh others db t h given (asked t) in
      let settled = Settled-by slack_id profile fresh others db First u h first e in
      (
        settled,
        λ s. Settled-Resolution slack_id profile fresh others First.1 _ u settled (
            resolve_user-Resolution slack_id profile fresh others First.1 s
              (run_on-IsConsistent (reachable fresh others) (resolve_user slack_id) db t h) given
              (asked s)),
      )

module _ (fresh : Trace → String) (others : Oracle) (c : OidcClaims) (u : User) (e : Error) where
  abbrev joined : Tables → Tables
  joined db = rewritten (with_subject u c.sub) db

  abbrev Joins : Tables → Prog Reply User → Tables → Trace → Type 0
  Joins db m start s =
      run_on (reachable fresh others) (outcome m) start s ≡ (inr (with_subject u c.sub), joined db)

  link-Joins :
      (db : Tables) (s : Trace)
      → IsConsistent db
      → user_by_email c.email db ≡ ok u
      → user_by_oidc_subject c.sub db ≡ err e
      → Joins db (link_or_create c (ok u)) db s
  unfolding link_or_create exec user_by_oidc_subject
  link-Joins db s h known unknown =
      subst
        (λ (d : Result User × Tables).
          Joins db (or_error (http_error 500 "failed to link user") d.0) d.1
            (event (update_user (link_params u c)) d.0 ∷ s))
        (sym (
          change_found (link_params u c) c.email u db known h refl refl (
            free_of_lacks subject_of u.id c.sub db.users
              (lacks_of_unfound c.sub e db.users unknown))))
        refl

  -- What an OIDC login does with the user of its email, where no user has its subject yet.
  claims-Joins :
      (db : Tables) (s : Trace)
      → IsConsistent db
      → user_by_email c.email db ≡ ok u
      → user_by_oidc_subject c.sub db ≡ err e
      → Joins db (user_for_claims c) db s
  unfolding by_subject_or_email exec
  claims-Joins db s h known unknown =
      subst
        (λ a. Joins db (by_subject_or_email c a) db (event (get_user_by_oidc_subject c.sub) a ∷ s))
        (sym unknown)
        (subst
          (λ a. Joins db (link_or_create c a) db (
            event (get_user_by_email c.email) a
            ∷ event (get_user_by_oidc_subject c.sub) (err e)
            ∷ s))
          (sym known) (link-Joins db _ h known unknown))

  again-Joins :
      (db : Tables) (s : Trace)
      → IsConsistent db
      → user_by_email c.email db ≡ ok u
      → user_by_oidc_subject c.sub db ≡ err e
      → Joins db (user_for_claims c) (joined db) s
  unfolding by_subject_or_email exec user_by_oidc_subject user_by_email
  again-Joins db s h known unknown =
      subst
        (λ a.
          Joins db (by_subject_or_email c a) (joined db)
            (event (get_user_by_oidc_subject c.sub) a ∷ s))
        (sym (
          found_new_subject (λ v. v.email == c.email) u (with_subject u c.sub) db.users known h.0
            refl (lacks_of_unfound c.sub e db.users unknown)))
        refl

module _ (slack_id : String) (profile : SlackUser) (fresh : Trace → String) (others : Oracle)
    (db : Tables) (t : Trace) (u : User) (c : OidcClaims) (e : Error) where
  abbrev pub after_slack : Tables
  after_slack = (First slack_id profile fresh others db t u).1

  -- On tables where no two users share an id, an email or a subject, in a database that can be reached:
  -- where `resolveUser` gave a user for a Slack account, and later an OIDC login has that account's email
  -- in its claims and a subject that no user has, the login takes the same user, of whom it changes
  -- the subject alone, and adds no user; and a further login with the claims finds the same user and changes
  -- nothing.
  pub one_user_for_an_email :
      IsConsistent db
      → profile.email ≢ ""
      → ((s : Trace) → others s (slack_user slack_id) ≡ ok profile)
      → (First slack_id profile fresh others db t u).0 ≡ ok u
      → c.email ≡ profile.email
      → user_by_oidc_subject c.sub after_slack ≡ err e
      → (s : Trace)
      → (run_on (reachable fresh others) (outcome (user_for_claims c)) after_slack s
          ≡ (inr (with_subject u c.sub), rewritten (with_subject u c.sub) after_slack))
        × (run_on
              (reachable fresh others)
              (outcome (user_for_claims c))
              (rewritten (with_subject u c.sub) after_slack)
              s
            ≡ (inr (with_subject u c.sub), rewritten (with_subject u c.sub) after_slack))
  one_user_for_an_email h given asked first same unknown s =
      let settled =
        (resolve_user_once slack_id profile fresh others db t u h given asked first).0 in
      let known : user_by_email c.email after_slack ≡ ok u =
        subst (λ x. user_by_email x after_slack ≡ ok u) (sym same) settled.0 in
      let kept = run_on-IsConsistent (reachable fresh others) (resolve_user slack_id) db t h in
      (
        claims-Joins fresh others c u e after_slack s kept known unknown,
        again-Joins fresh others c u e after_slack s kept known unknown,
      )

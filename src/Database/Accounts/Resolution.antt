-- ===== src/Database/Accounts/Resolution.antt =====
-- What `resolveUser` of internal/bot/bot.go does on the tables of a database that can be reached.
use clawbake.Base.{
  String, ◌∷◌, Bool, true, false, ◌||◌, ◌≡◌, ◌≢◌, ◌⊎◌, refl, none, some, any, string_eq, ◌==◌,
  if_elim, ==_sound, ==_refl, subst, sym, ap, ◌∙◌, inl, inr,
}
use clawbake.Api.{Error, Result, ok, err}
use clawbake.Database.{User, UpdateUserParams}
use clawbake.Effects.{SlackUser, slack_user, Trace, Oracle}
use clawbake.Effects.Paths.{event}
use clawbake.Bot.Users.{
  link_slack, create_from_slack, is_linked, known_or_created, resolve_profile, resolve_user,
}
use clawbake.Database.Store.{
  Tables, World, run_on, exec, first_where, conflicts, updated_row, replace_row, write_row,
  write_found, change_user, insert_user, row_for, user_by_id, user_by_email, coalesce,
}
use clawbake.Database.Consistency.{free, email_of, subject_of, IsConsistent}
use clawbake.Database.Accounts.Rows.{
  found_fits, found_by_id, free_for_found, found_rewritten, no_conflict,
}

abbrev pub rewritten : User → Tables → Tables
rewritten row db = record db { users = replace_row row db.users }

-- The update of a user that an email finds, where it leaves the email and takes no one's subject.
pub change_found :
    (p : UpdateUserParams) (email : String) (u : User) (db : Tables)
    → user_by_email email db ≡ ok u
    → IsConsistent db
    → p.id ≡ u.id
    → coalesce p.email u.email ≡ u.email
    → free subject_of u.id (coalesce p.oidc_subject u.oidc_subject) db.users ≡ true
    → change_user p db ≡ (ok (updated_row p u), rewritten (updated_row p u) db)
unfolding change_user user_by_id user_by_email write_found write_row
change_found p email u db found (i, e, s) same kept apart =
    let by_id : first_where (λ v. v.id == p.id) db.users ≡ ok u =
      rw same (found_by_id (λ v. v.email == email) u db.users found i) in
    let email_free : free email_of u.id (coalesce p.email u.email) db.users ≡ true =
      rw kept (free_for_found (λ v. v.email == email) email_of u db.users found e) in
    rw (by_id, no_conflict (updated_row p u) db.users email_free apart) refl

ok-injective : {v u : User} → Result.ok v ≡ ok u → v ≡ u
ok-injective e = cc

clash :
    (v u : User)
    → Result.ok v ≡ ok u
    → is_linked u.slack_user_id ≡ true
    → is_linked v.slack_user_id ≡ false
    → ⊥
clash v u e h k =
    not_both (is_linked u.slack_user_id) h
      (subst (λ x. is_linked x.slack_user_id ≡ false) (ok-injective e) k)
  where
    not_both : (b : Bool) → b ≡ true → b ≡ false → ⊥
    not_both b h k = cc

-- The world of a database that can always be reached.
abbrev pub reachable : (Trace → String) → Oracle → World
reachable fresh others = record { fresh = fresh; down = λ _. none; others = others }

module _ (slack_id : String) (profile : SlackUser) (fresh : Trace → String) (others : Oracle) where
  -- What `resolveUser` promises: the user of the email, linked to the Slack account unless it has one, or
  -- a new user.
  abbrev pub Resolution : Tables → Result User × Tables → Type 0
  Resolution db done =
      ((u : User) × (user_by_email profile.email db ≡ ok u)
        × ((is_linked u.slack_user_id ≡ true) × (done ≡ (ok u, db))
            ⊎ ((is_linked u.slack_user_id ≡ false)
                × (done ≡ (
                  ok (record u { slack_user_id = some slack_id }),
                  rewritten (record u { slack_user_id = some slack_id }) db,
                )))))
      ⊎ ((e : Error) × (id : String) × (user_by_email profile.email db ≡ err e)
          × (done ≡ insert_user id (create_from_slack profile slack_id) db))

  known_or_created-Resolution :
      (found : Result User) (db : Tables) (t : Trace)
      → IsConsistent db
      → user_by_email profile.email db ≡ found
      → Resolution db
          (run_on (reachable fresh others) (known_or_created profile slack_id found) db t)
  unfolding known_or_created exec user_by_email
  known_or_created-Resolution (err e) db t h found = inr (e, fresh t, found, refl)
  known_or_created-Resolution (ok u) db t h found =
      if_elim (λ m. Resolution db (run_on (reachable fresh others) m db t))
        (is_linked u.slack_user_id) _ _ (λ linked. inl (u, found, inl (linked, refl)))
        (λ unlinked. inl (
          u,
          found,
          inr (
            unlinked,
            rw
                (change_found (link_slack u slack_id) profile.email u db found h refl refl
                  (free_for_found (λ v. v.email == profile.email) subject_of u db.users found h.2))
                refl,
          ),
        ))

  resolve_profile-Resolution :
      (db : Tables) (t : Trace)
      → IsConsistent db
      → profile.email ≢ ""
      → Resolution db (run_on (reachable fresh others) (resolve_profile slack_id (ok profile)) db t)
  unfolding resolve_profile exec
  resolve_profile-Resolution db t h given =
      if_elim (λ m. Resolution db (run_on (reachable fresh others) m db t)) (profile.email == "") _
        _ (λ empty. absurd (given (==_sound profile.email "" empty)))
        (λ _. known_or_created-Resolution (user_by_email profile.email db) db _ h refl)

  -- The same from the question to Slack on.
  pub resolve_user-Resolution :
      (db : Tables) (t : Trace)
      → IsConsistent db
      → profile.email ≢ ""
      → others t (slack_user slack_id) ≡ ok profile
      → Resolution db (run_on (reachable fresh others) (resolve_user slack_id) db t)
  unfolding resolve_user exec
  resolve_user-Resolution db t h given asked =
      subst
        (λ a. Resolution db (
          run_on (reachable fresh others) (resolve_profile slack_id a) db
            (event (slack_user slack_id) a ∷ t)))
        (sym asked) (resolve_profile-Resolution db _ h given)

  -- The user of the email, with a Slack account.
  abbrev pub Settled : Tables → User → Type 0
  Settled db u = (user_by_email profile.email db ≡ ok u) × (is_linked u.slack_user_id ≡ true)

  Settled-as : (db : Tables) (v u : User) → Settled db v → Result.ok v ≡ ok u → Settled db u
  Settled-as db v u h e = subst (Settled db) (ok-injective e) h

  rewritten-Settled :
      (db : Tables) (v : User)
      → IsConsistent db
      → user_by_email profile.email db ≡ ok v
      → Settled
          (rewritten (record v { slack_user_id = some slack_id }) db)
          (record v { slack_user_id = some slack_id })
  unfolding user_by_email
  rewritten-Settled db v h found = (
    found_rewritten (λ w. w.email == profile.email) v (record v { slack_user_id = some slack_id })
        db.users found h.0 refl (found_fits (λ w. w.email == profile.email) v db.users found),
    refl,
  )

  inserted-Settled :
      (db : Tables) (id : String) (u : User)
      → (insert_user id (create_from_slack profile slack_id) db).0 ≡ ok u
      → Settled (insert_user id (create_from_slack profile slack_id) db).1 u
  unfolding insert_user user_by_email
  inserted-Settled db id u =
      if_elim (λ (d : Result User × Tables). d.0 ≡ ok u → Settled d.1 u)
        (any (λ v. v.id == id) db.users
          || any (conflicts (row_for id (create_from_slack profile slack_id))) db.users)
        _ _ (λ _ e. cc)
        (λ _ e.
          Settled-as
            (record db { users = row_for id (create_from_slack profile slack_id) ∷ db.users })
            (row_for id (create_from_slack profile slack_id)) u
            (rw (==_refl profile.email) refl, refl) e)

  pub Settled-by :
      (db : Tables) (done : Result User × Tables) (u : User)
      → IsConsistent db
      → Resolution db done
      → done.0 ≡ ok u
      → Settled done.1 u
  Settled-by db done u h (inl (v, found, inl (linked, same))) =
      subst (λ d. d.0 ≡ ok u → Settled d.1 u) (sym same) (Settled-as db v u (found, linked))
  Settled-by db done u h (inl (v, found, inr (unlinked, same))) =
      subst (λ d. d.0 ≡ ok u → Settled d.1 u) (sym same)
        (Settled-as _ (record v { slack_user_id = some slack_id }) u
          (rewritten-Settled db v h found))
  Settled-by db done u h (inr (x, id, found, same)) =
      subst (λ d. d.0 ≡ ok u → Settled d.1 u) (sym same) (inserted-Settled db id u)

  pub Settled-Resolution :
      (db : Tables) (done : Result User × Tables) (u : User)
      → Settled db u
      → Resolution db done
      → done ≡ (ok u, db)
  Settled-Resolution db done u (known, linked) (inl (v, found, inl (_, same))) =
      same ∙ ap (λ r. (r, db)) (sym found ∙ known)
  Settled-Resolution db done u (known, linked) (inl (v, found, inr (unlinked, same))) =
      absurd (clash v u (sym found ∙ known) linked unlinked)
  Settled-Resolution db done u (known, linked) (inr (x, id, found, same)) =
      absurd (cc (known, found))

-- ===== src/Examples/Starting.antt =====
-- The start of the server, and the tables of users.
use clawbake.Base.{
  ◌≡◌, ◌≢◌, ne_of_test, ◌≤◌, inr, string_eq, ◌==◌, refl, [], ◌∷◌, String, some, codes, arith, ltb,
  if◌then◌else◌,
}
use clawbake.Api.{ok, err}
use clawbake.Database.{User}
use clawbake.Effects.{Call, Response, connect_migrations, Trace, run}
use clawbake.Startup.{Environment}
use clawbake.Startup.Sync.{deployed, FollowsAll, sync_instance_defaults_settles}
use clawbake.Startup.Operator.{reconciler_of}
use clawbake.Bot.Verify.{digits_value}
use clawbake.Startup.Server.{synced, load, migration_url, run_migrations, sync_instance_defaults}
use clawbake.Startup.Migrations.{attempts, Migrated, run_migrations_bounded, run_migrations_succeed}
use clawbake.Examples.World.{answer_in, missing, alice, the_defaults, world_in}
use clawbake.Effects.{SlackUser, OidcClaims}
use clawbake.Bot.Users.{resolve_user}
use clawbake.Database.Store.{Tables, run_on, exec, user_by_oidc_subject, no_rows_error}
use clawbake.Database.Consistency.{IsConsistent}
use clawbake.Database.Accounts.Resolution.{reachable, Settled, rewritten}
use clawbake.Database.Accounts.Shared.{
  First, resolve_user_once, outcome, user_for_claims, with_subject, after_slack,
  one_user_for_an_email,
}

-- A database that is ready at the third attempt.
abbrev late : Trace → (c : Call) → Response c
late t (connect_migrations url) = if ltb (attempts t) 2 then err missing else ok tt
late t c = answer_in "Running" c

run_migrations_bounded_example :
    Migrated "postgres://db"
      (run late (run_migrations "postgres://db") []).0
      (run late (run_migrations "postgres://db") []).1
run_migrations_bounded_example = run_migrations_bounded "postgres://db" late

ready_at_two :
    (s : Trace)
    → 2 ≤ attempts s
    → late s (connect_migrations (migration_url "postgres://db")) ≡ ok tt
ready_at_two s h = ground arith

run_migrations_succeed_example : (run late (run_migrations "postgres://db") []).0 ≡ ok tt
run_migrations_succeed_example =
    run_migrations_succeed "postgres://db" late 2 (omega arith) refl ready_at_two (λ s e h. cc)

abbrev tables : Tables
tables = record { users = alice ∷ []; defaults = the_defaults ∷ [] }

tables-IsConsistent : IsConsistent tables
tables-IsConsistent = ((refl, tt), (refl, tt), (refl, tt))

abbrev ids : Trace → String
ids t = "id-9"

abbrev profile : SlackUser
profile = record { email = "alice@example.com"; real_name = "Alice" }

-- Alice, once her Slack account is linked.
abbrev linked : User
linked = record alice { slack_user_id = some "U1" }

resolves_alice : (First "U1" profile ids (world_in "Running") tables [] linked).0 ≡ ok linked
unfolding resolve_user exec
resolves_alice = refl

has_email : profile.email ≢ ""
has_email = ne_of_test "alice@example.com" "" refl

resolve_user_once_example :
    Settled "U1" profile ids
      (world_in "Running")
      (First "U1" profile ids (world_in "Running") tables [] linked).1
      linked
    × ((s : Trace)
        → run_on
            (reachable ids (world_in "Running"))
            (resolve_user "U1")
            (First "U1" profile ids (world_in "Running") tables [] linked).1
            s
          ≡ (ok linked, (First "U1" profile ids (world_in "Running") tables [] linked).1))
resolve_user_once_example =
    resolve_user_once "U1" profile ids (world_in "Running") tables [] linked tables-IsConsistent
      has_email (λ s. refl) resolves_alice

abbrev new_claims : OidcClaims
new_claims = record { email = "alice@example.com"; name = "Alice"; picture = ""; sub = "sub-2" }

abbrev linked_tables : Tables
linked_tables =
    after_slack "U1" profile ids (world_in "Running") tables [] linked new_claims missing

unknown_subject :
    user_by_oidc_subject "sub-2"
      (after_slack "U1" profile ids (world_in "Running") tables [] linked new_claims no_rows_error)
    ≡ err no_rows_error
unfolding resolve_user exec user_by_oidc_subject
unknown_subject = refl

one_user_for_an_email_example :
    (run_on
        (reachable ids (world_in "Running"))
        (outcome (user_for_claims new_claims))
        linked_tables
        []
      ≡ (inr (with_subject linked "sub-2"), rewritten (with_subject linked "sub-2") linked_tables))
    × (run_on
          (reachable ids (world_in "Running"))
          (outcome (user_for_claims new_claims))
          (rewritten (with_subject linked "sub-2") linked_tables)
          []
        ≡ (
          inr (with_subject linked "sub-2"),
          rewritten (with_subject linked "sub-2") linked_tables,
        ))
one_user_for_an_email_example =
    one_user_for_an_email "U1" profile ids (world_in "Running") tables [] linked new_claims
      no_rows_error tables-IsConsistent has_email (λ s. refl) resolves_alice refl unknown_subject []

-- An environment that sets the image.
abbrev environment : Environment
environment key = if key == "INSTANCE_DEFAULT_IMAGE" then "openclaw:2" else ""

sync_instance_defaults_settles_example :
    (run_on
        (reachable ids (world_in "Running"))
        (sync_instance_defaults (load environment))
        tables
        []
      ≡ (ok tt, record tables { defaults = deployed (load environment) the_defaults ∷ [] }))
    × FollowsAll (load environment) (deployed (load environment) the_defaults) the_defaults
    × ((s : Trace)
        → run_on
            (reachable ids (world_in "Running"))
            (sync_instance_defaults (load environment))
            (record tables { defaults = deployed (load environment) the_defaults ∷ [] })
            s
          ≡ (ok tt, record tables { defaults = deployed (load environment) the_defaults ∷ [] }))
sync_instance_defaults_settles_example =
    sync_instance_defaults_settles (load environment) ids (world_in "Running") (alice ∷ [])
      the_defaults []

takes_the_image : (deployed (load environment) the_defaults).image ≡ "openclaw:2"
unfolding load synced
takes_the_image = refl

-- The scheme of the URL is replaced once for each of its two spellings.
rewrites_the_scheme : migration_url "postgresql://db/x" ≡ codes "pgx5://db/x"
unfolding migration_url
rewrites_the_scheme = refl

-- A port out of the range of int32 wraps.
wraps_the_port :
    (reconciler_of (λ key. if key == "INSTANCE_TUI_PORT" then "4294967376" else "")).tui_port ≡ 80
unfolding reconciler_of digits_value
wraps_the_port = refl

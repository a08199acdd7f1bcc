-- ===== src/Startup/Server.antt =====
-- internal/config/config.go and cmd/server/main.go.
use clawbake.Base.{
  ℕ, zero, suc, String, [], ◌∷◌, ◌++◌, Bool, not, ◌&&◌, Option, none, some, Text, codes, concat,
  has_prefix, drop, length, string_eq, ◌==◌, if◌then◌else◌,
}
use clawbake.Api.{Error, Result, ok, err}
use clawbake.Database.{InstanceDefault, UpdateDefaultsParams}
use clawbake.Effects.{
  open_migrations, connect_migrations, migrate_up, sleep, get_defaults, update_defaults, Migration,
  migrated, no_change, not_migrated, Prog, pure, return, ◌>>=◌, ◌>>◌, call,
}
use clawbake.Handler
use clawbake.Bot.{Bot}
use clawbake.Startup.{Environment, env_or_default, env_enabled}

-- The configuration of the gateway is read as a text, which the handlers walk.
pub record Config : Type 0 where
  pub port : String
  pub database_url : String
  pub base_url : String
  pub oidc_issuer : String
  pub oidc_client_id : String
  pub oidc_client_secret : String
  pub oidc_redirect_url : String
  pub session_secret : String
  pub slack_bot_token : String
  pub slack_signing_secret : String
  pub kube_namespace : String
  pub instance_default_image : String
  pub instance_default_cpu_request : String
  pub instance_default_memory_request : String
  pub instance_default_cpu_limit : String
  pub instance_default_memory_limit : String
  pub instance_default_storage_size : String
  pub instance_default_gateway_config : String
  pub tui_enabled : Bool
  pub shell_enabled : Bool

-- `Load`
unfoldable pub load : Environment → Config
unfolding env_or_default
load env = record {
  port = env_or_default env "PORT" "8080";
  database_url = env "DATABASE_URL";
  base_url = env "BASE_URL";
  oidc_issuer = env "OIDC_ISSUER";
  oidc_client_id = env "OIDC_CLIENT_ID";
  oidc_client_secret = env "OIDC_CLIENT_SECRET";
  oidc_redirect_url = env "OIDC_REDIRECT_URL";
  session_secret = env "SESSION_SECRET";
  slack_bot_token = env "SLACK_BOT_TOKEN";
  slack_signing_secret = env "SLACK_SIGNING_SECRET";
  kube_namespace = env_or_default env "KUBE_NAMESPACE" "clawbake";
  instance_default_image = env "INSTANCE_DEFAULT_IMAGE";
  instance_default_cpu_request = env "INSTANCE_DEFAULT_CPU_REQUEST";
  instance_default_memory_request = env "INSTANCE_DEFAULT_MEMORY_REQUEST";
  instance_default_cpu_limit = env "INSTANCE_DEFAULT_CPU_LIMIT";
  instance_default_memory_limit = env "INSTANCE_DEFAULT_MEMORY_LIMIT";
  instance_default_storage_size = env "INSTANCE_DEFAULT_STORAGE_SIZE";
  instance_default_gateway_config = env "INSTANCE_DEFAULT_GATEWAY_CONFIG";
  tui_enabled = env_enabled env "TUI_ENABLED";
  shell_enabled = env_enabled env "SHELL_ENABLED";
}

abbrev pub wrapped : String → Error → Error
wrapped label e = record { kind = e.kind; message = concat label e.message }

-- The result of a function that returns an error alone.
abbrev pub Done : Type 0
Done = Result (Unit {0})

-- strings.Replace(text, old, new, 1)
unfoldable pub replace_first : Text → Text → Text → Text
replace_first [] old new = if has_prefix [] old then new else []
replace_first (c ∷ t) old new =
    let rest = c ∷ replace_first t old new in
    if has_prefix (c ∷ t) old then new ++ drop (length old) (c ∷ t) else rest

unfoldable pub migration_url : String → Text
unfolding replace_first
migration_url url =
    replace_first (replace_first (codes url) (codes "postgresql://") (codes "pgx5://"))
      (codes "postgres://") (codes "pgx5://")

-- The attempts that are left, and the error of the last one, if there has been one.
unfoldable pub connect_loop : ℕ → Text → Done → Prog (Done) (Done)
connect_loop zero url last = pure last
connect_loop (suc n) url last = do
  answer ← call (connect_migrations url)
  elim answer [
    | ok done ↦ pure (ok done)
    | err e ↦ (do call (sleep 2); call open_migrations; connect_loop n url (err e))
  ]

abbrev pub up_result : Migration → Done
up_result migrated = ok tt
up_result no_change = ok tt
up_result (not_migrated e) = err e

unfoldable pub migrate_connected : Done → Prog (Done) (Done)
migrate_connected (err e) = return (err (wrapped "database not ready after 30 attempts: " e))
migrate_connected (ok _) = do outcome ← call migrate_up; return (up_result outcome)

unfoldable pub migrate_from : String → Done → Prog (Done) (Done)
migrate_from url (err e) = return (err e)
migrate_from url (ok _) = do
  connected ← connect_loop 30 (migration_url url) (ok tt)
  migrate_connected connected

-- `runMigrations`
unfoldable pub run_migrations : String → Prog (Done) (Done)
unfolding migrate_from
run_migrations url = do opened ← call open_migrations; migrate_from url opened

abbrev pub given_or : String → String → String
given_or given current = if not (given == "") then given else current

-- What `syncInstanceDefaults` writes.
unfoldable pub synced : Config → InstanceDefault → UpdateDefaultsParams
synced cfg current = record {
  image = given_or cfg.instance_default_image current.image;
  cpu_request = given_or cfg.instance_default_cpu_request current.cpu_request;
  memory_request = given_or cfg.instance_default_memory_request current.memory_request;
  cpu_limit = given_or cfg.instance_default_cpu_limit current.cpu_limit;
  memory_limit = given_or cfg.instance_default_memory_limit current.memory_limit;
  storage_size = given_or cfg.instance_default_storage_size current.storage_size;
  gateway_config =
      if not (cfg.instance_default_gateway_config == "")
      then codes cfg.instance_default_gateway_config
      else current.gateway_config;
}

abbrev pub error_only : {A : Type 0} → Result A → Done
error_only (ok a) = ok tt
error_only (err e) = err e

unfoldable pub sync_from : Config → Result InstanceDefault → Prog (Done) (Done)
unfolding synced
sync_from cfg (err e) = return (err (wrapped "reading current defaults: " e))
sync_from cfg (ok current) = do
  updated ← call (update_defaults (synced cfg current))
  return (error_only updated)

-- `syncInstanceDefaults`
unfoldable pub sync_instance_defaults : Config → Prog (Done) (Done)
unfolding sync_from
sync_instance_defaults cfg = do got ← call get_defaults; sync_from cfg got

-- What `main` builds from the configuration: whether the login is the development's, and the bot.
abbrev pub uses_dev_auth : Config → Bool
uses_dev_auth cfg = not (not (cfg.oidc_issuer == ""))

abbrev pub bot_enabled : Config → Bool
bot_enabled cfg = not (cfg.slack_bot_token == "") && not (cfg.slack_signing_secret == "")

unfoldable pub bot_of : Text → Config → Option Bot
bot_of version cfg =
    if bot_enabled cfg
    then some (record {
      signing_secret = codes cfg.slack_signing_secret;
      namespace = cfg.kube_namespace;
      base_url = codes cfg.base_url;
      tui_enabled = cfg.tui_enabled;
      shell_enabled = cfg.shell_enabled;
      version = version;
    })
    else none

unfoldable pub handler_of : Config → Handler.Config
handler_of cfg = record {
  kube_namespace = cfg.kube_namespace;
  tui_enabled = cfg.tui_enabled;
  shell_enabled = cfg.shell_enabled;
  instance_default_gateway_config = codes cfg.instance_default_gateway_config;
  has_dev_auth = uses_dev_auth cfg;
  has_bot = bot_enabled cfg;
}

-- ===== src/Startup.antt =====
-- cmd and internal/config: how the two commands read their environment, and the start of the server.
pub mod Server
pub mod Operator
pub mod Migrations
pub mod Sync
use clawbake.Base.{String, Bool, not, string_eq, ◌==◌, if◌then◌else◌}

-- os.Getenv
abbrev pub Environment : Type 0
Environment = String → String

-- `envOrDefault`, and what the operator does in its place
unfoldable pub env_or_default : Environment → String → String → String
env_or_default env key default_val = let v = env key in if not (v == "") then v else default_val

-- `os.Getenv(key) != "false"`
abbrev pub env_enabled : Environment → String → Bool
env_enabled env key = not (env key == "false")

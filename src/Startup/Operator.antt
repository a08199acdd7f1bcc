-- ===== src/Startup/Operator.antt =====
-- cmd/operator/main.go: the reconciler that the environment gives.
use clawbake.Base.{
  ℕ, ◌^◌, ◌%◌, String, not, ◌&&◌, Option, none, some, codes, string_eq, ◌==◌, if◌then◌else◌,
}
use clawbake.Bot.Verify.{parse_int}
use clawbake.Operator.{Reconciler}
use clawbake.Startup.{Environment, env_or_default, env_enabled}

-- `int32(v)` of the int that `strconv.Atoi` gives, where it gives one; both are bit patterns.
abbrev pub port_or : ℕ → Option ℕ → ℕ
port_or default_port none = default_port
port_or default_port (some v) = v % 2 ^ 32

unfoldable pub port_from : Environment → String → ℕ → ℕ
unfolding parse_int
port_from env key default_port =
    let p = env key in
    if not (p == "") then port_or default_port (parse_int (codes p)) else default_port

-- `main`, up to the start of the manager; the notifier is set where SERVER_URL is.
unfoldable pub reconciler_of : Environment → Reconciler
unfolding env_or_default port_from
reconciler_of env =
    let ttyd_enabled = env_enabled env "INSTANCE_TTYD_ENABLED" in
    record {
      server_namespace = env_or_default env "SERVER_NAMESPACE" "clawbake";
      default_gateway_config = codes (env "DEFAULT_GATEWAY_CONFIG");
      ttyd_image = env_or_default env "INSTANCE_TTYD_IMAGE" "tsl0922/ttyd:alpine";
      tui_enabled = ttyd_enabled && env_enabled env "INSTANCE_TUI_ENABLED";
      tui_port = port_from env "INSTANCE_TUI_PORT" 7681;
      tui_command = codes (
          env_or_default env "INSTANCE_TUI_COMMAND"
            "/ttyd-bin/ttyd -W -p 7681 node /app/openclaw.mjs tui --token $OPENCLAW_GATEWAY_TOKEN");
      shell_enabled = ttyd_enabled && env_enabled env "INSTANCE_SHELL_ENABLED";
      shell_port = port_from env "INSTANCE_SHELL_PORT" 7682;
      shell_command =
          codes (env_or_default env "INSTANCE_SHELL_COMMAND" "/ttyd-bin/ttyd -W -p 7682 /bin/bash");
      has_notifier = not (env "SERVER_URL" == "");
    }

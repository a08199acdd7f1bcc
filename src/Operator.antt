-- ===== src/Operator.antt =====
-- internal/operator/controller.go: the reconciler's configuration, and what it takes from
-- controller-runtime and apimachinery.
pub mod Objects
pub mod Reconcile
pub mod Rule
pub mod Safety
pub mod Outcomes
pub mod Wiring
pub mod Idempotent
pub mod Cluster
pub mod Notifier
use clawbake.Base.{
  ℕ, String, List, [], ◌∷◌, ◌++◌, Bool, ◌||◌, Option, Text, codes, join, concat, if◌then◌else◌,
}
use clawbake.Api.{Condition}

pub record Reconciler : Type 0 where
  pub server_namespace : String
  pub default_gateway_config : Text
  pub ttyd_image : String
  pub tui_enabled : Bool
  pub tui_port : ℕ
  pub tui_command : Text
  pub shell_enabled : Bool
  pub shell_port : ℕ
  pub shell_command : Text
  -- r.Notifier != nil
  pub has_notifier : Bool

-- controllerutil's functions on the list of finalizers, meta.SetStatusCondition, and
-- resource.ParseQuantity, which has no result where resource.MustParse panics.
pub record Libraries : Type 0 where
  pub contains_finalizer : List String → String → Bool
  pub add_finalizer : List String → String → List String
  pub remove_finalizer : List String → String → List String
  pub set_status_condition : List Condition → Condition → List Condition
  pub parse_quantity : String → Option String

abbrev pub finalizer_name : String
finalizer_name = "clawbake.io/finalizer"

unfoldable pub namespace_name : String → String
namespace_name name = concat "clawbake-" name

module _ (r : Reconciler) where
  unfoldable pub ttyd_needed : Bool
  ttyd_needed = r.tui_enabled || r.shell_enabled

  abbrev restart_loop : Text
  restart_loop =
      codes
        "while true; do\n  node /app/openclaw.mjs gateway run --bind lan --allow-unconfigured\n  echo \"openclaw exited ($?), restarting in 5s...\"\n  sleep 5\ndone"

  abbrev exec_once : Text
  exec_once = codes "exec node /app/openclaw.mjs gateway run --bind lan --allow-unconfigured"

  -- The lines of the script that the shell runs.
  unfoldable pub command_parts : List Text
  command_parts =
      (if r.tui_enabled then (r.tui_command ++ codes " &") ∷ [] else [])
      ++ (if r.shell_enabled
          then (r.shell_command ++ codes " &") ∷ restart_loop ∷ []
          else exec_once ∷ [])

  unfoldable pub build_command : List Text
  unfolding ttyd_needed command_parts
  build_command =
      if ttyd_needed
      then codes "sh" ∷ codes "-c" ∷ join command_parts (codes "\n") ∷ []
      else codes "node"
        ∷ codes "/app/openclaw.mjs"
        ∷ codes "gateway"
        ∷ codes "run"
        ∷ codes "--bind"
        ∷ codes "lan"
        ∷ codes "--allow-unconfigured"
        ∷ []

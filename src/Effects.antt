-- ===== src/Effects.antt =====
-- What the program asks of the outside: the Kubernetes API, the database, the session store, the
-- identity provider and the network. A program is a tree of such calls; nothing is assumed of the
-- answers, each of which may depend on all that happened before.
pub mod Paths
use clawbake.Base.{ℕ, String, List, [], ◌∷◌, Option, Text, Bool}
use clawbake.Api.{Error, Result, ClawInstance}
use clawbake.Kube.{Namespace, PersistentVolumeClaim, Deployment, Service, NetworkPolicy}
use clawbake.Http.{Target, Outgoing}
use clawbake.Database.{
  User, InstanceDefault, UpdateDefaultsParams, CreateUserParams, UpdateUserParams,
}

-- What came of a `CreateOrUpdate`, whose callback may panic.
pub data Applied : Type 0 where
  applied : Applied
  failed : Error → Applied
  panicked : Applied

-- A value of a session is of any type; the program asks whether it is a string.
pub data SessionValue : Type 0 where
  text : Text → SessionValue
  not_text : SessionValue

-- The values of a session cookie that the program uses, and whether the cookie is to be dropped.
pub record Session : Type 0 where
  pub user_id : Option SessionValue
  pub oauth_state : Option SessionValue
  pub redirect_url : Option SessionValue
  pub dev_role : Option SessionValue
  pub expired : Bool

-- The claims of an identity token.
pub record OidcClaims : Type 0 where
  pub email : String
  pub name : String
  pub picture : String
  pub sub : String

-- What came of a verification: the token is refused, its claims cannot be read, or they are there.
pub data Verified : Type 0 where
  refused : Verified
  unreadable : Verified
  claims : OidcClaims → Verified

pub data Hijack : Type 0 where
  hijacked : Hijack
  unsupported : Hijack
  hijack_failed : Hijack

-- What Slack tells of a user.
pub record SlackUser : Type 0 where
  pub email : String
  pub real_name : String

-- A request to the chat endpoint of an instance, and what came of it.
pub record Chat : Type 0 where
  pub url : Text
  pub token : String
  pub body : Text

pub data Exchange : Type 0 where
  unsent : Error → Exchange
  unread : Error → Exchange
  answered : ℕ → Text → Exchange

-- What came of a migration.
pub data Migration : Type 0 where
  migrated : Migration
  no_change : Migration
  not_migrated : Error → Migration

pub data Call : Type 0 where
  -- the Kubernetes API
  get_instance : String → String → Call
  list_instances : String → Call
  create_instance : ClawInstance → Call
  update_instance : ClawInstance → Call
  update_status : ClawInstance → Call
  delete_instance : ClawInstance → Call
  get_namespace : String → Call
  delete_namespace : Namespace → Call
  get_deployment : String → String → Call
  apply_namespace : String → (Namespace → Namespace) → Call
  apply_pvc : String → String → (PersistentVolumeClaim → Option PersistentVolumeClaim) → Call
  apply_deployment : String → String → (Deployment → Option Deployment) → Call
  apply_service : String → String → (Service → Service) → Call
  apply_network_policy : String → String → (NetworkPolicy → NetworkPolicy) → Call
  record_event : ClawInstance → String → String → String → Call
  notify_ready : String → String → Call
  read_pod_config : String → Call
  -- the database
  get_defaults : Call
  update_defaults : UpdateDefaultsParams → Call
  list_users : Call
  get_user_by_id : String → Call
  get_user_by_email : String → Call
  get_user_by_oidc_subject : String → Call
  create_user : CreateUserParams → Call
  update_user : UpdateUserParams → Call
  -- randomness, sessions
  random_hex : ℕ → Call
  load_session : Call
  save_session : Session → Call
  -- the identity provider: the `id_token` of the answer, if it has one
  exchange_code : Text → Call
  verify_token : Text → Call
  -- the connection of a WebSocket
  dial : Target → Call
  send_upgrade : Outgoing → Call
  hijack : Call
  -- the bot, from a goroutine
  notify_from_server : String → String → Call
  -- the clock, as the bit pattern of an int64; Slack; an instance's chat endpoint
  now : Call
  slack_user : String → Call
  post_message : String → Text → Call
  chat : Chat → Call
  -- the goroutine that handles a message of a channel and a user
  start_message : String → String → Text → Call
  -- golang-migrate: its source, a connection by the given URL, and the migration itself
  open_migrations : Call
  connect_migrations : Text → Call
  migrate_up : Call
  sleep : ℕ → Call

abbrev pub Response : Call → Type 0
Response (get_instance _ _) = Result ClawInstance
Response (list_instances _) = Result (List ClawInstance)
Response (create_instance _) = Result ClawInstance
Response (update_instance _) = Result ClawInstance
Response (update_status _) = Result ClawInstance
Response (delete_instance _) = Result Unit
Response (get_namespace _) = Result Namespace
Response (delete_namespace _) = Result Unit
Response (get_deployment _ _) = Result Deployment
Response (apply_namespace _ _) = Applied
Response (apply_pvc _ _ _) = Applied
Response (apply_deployment _ _ _) = Applied
Response (apply_service _ _ _) = Applied
Response (apply_network_policy _ _ _) = Applied
Response (record_event _ _ _ _) = Unit
Response (notify_ready _ _) = Unit
Response (read_pod_config _) = Result Text
Response get_defaults = Result InstanceDefault
Response (update_defaults _) = Result InstanceDefault
Response list_users = Result (List User)
Response (get_user_by_id _) = Result User
Response (get_user_by_email _) = Result User
Response (get_user_by_oidc_subject _) = Result User
Response (create_user _) = Result User
Response (update_user _) = Result User
Response (random_hex _) = Result String
Response load_session = Session
Response (save_session _) = Result Unit
Response (exchange_code _) = Result (Option Text)
Response (verify_token _) = Verified
Response (dial _) = Result Unit
Response (send_upgrade _) = Result Unit
Response hijack = Hijack
Response (notify_from_server _ _) = Unit
Response now = ℕ
Response (slack_user _) = Result SlackUser
Response (post_message _ _) = Unit
Response (chat _) = Exchange
Response (start_message _ _ _) = Unit
Response open_migrations = Result Unit
Response (connect_migrations _) = Result Unit
Response migrate_up = Migration
Response (sleep _) = Unit

pub record Event : Type 0 where
  pub call : Call
  pub response : Response call

-- The newest event stands first.
abbrev pub Trace : Type 0
Trace = List Event

abbrev pub Oracle : Type 0
Oracle = Trace → (c : Call) → Response c

-- A function body that returns an `R`: `pure` goes on with a value, `return` ends the function.
pub data Prog (R A : Type 0) : Type 0 where
  pure : A → Prog R A
  return : R → Prog R A
  ask : (c : Call) → (Response c → Prog R A) → Prog R A

infixl 5 ◌>>=◌ ◌>>◌
abbrev pub ◌>>=◌ : {R A B : Type 0} → Prog R A → (A → Prog R B) → Prog R B
pure a >>= f = f a
return r >>= f = return r
ask c k >>= f = ask c (λ r. k r >>= f)

abbrev pub ◌>>◌ : {R A B : Type 0} → Prog R A → Prog R B → Prog R B
m >> n = m >>= λ _. n

abbrev pub call : {R : Type 0} (c : Call) → Prog R (Response c)
call c = ask c (λ r. pure r)

-- A call of a function of the program: its return is the value of the call.
abbrev pub block : {R A : Type 0} → Prog A A → Prog R A
block (pure a) = pure a
block (return a) = pure a
block (ask c k) = ask c (λ r. block (k r))

abbrev pub run : {R : Type 0} → Oracle → Prog R R → Trace → R × Trace
run o (pure a) t = (a, t)
run o (return r) t = (r, t)
run o (ask c k) t = let r = o t c in run o (k r) ((record { call = c; response = r }) ∷ t)

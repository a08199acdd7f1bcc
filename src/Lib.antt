-- ===== src/Lib.antt =====
-- Clawbake runs one OpenClaw instance for each user on Kubernetes. A server (internal/handler,
-- internal/auth) logs users in, lets them create, change and delete their instance, and proxies
-- requests to it; an operator (internal/operator) turns each ClawInstance resource into a namespace
-- with a volume, a deployment, a service and a network policy. The two meet in the resource
-- (api/v1alpha1): the server writes its specification, the operator its status.
--
-- How code is modelled. A function that calls the outside is a program, a tree of calls (Effects):
-- the Kubernetes API, the database, sessions, the identity provider, the network. An early return is
-- `return`, and a call of one function by another is `block`. Nothing is assumed of the answers: a
-- statement over all runs is one over all oracles, which may answer each call from all that happened
-- before. The trace of a run lists its calls with their answers, the newest first. Pure functions are
-- functions; strings that the code walks are lists of numbers (Text), the others String. A use of a
-- nil pointer or a nil map, and a MustParse that panics, are results of their own.
--
--   Base          shared lists, texts, tests and maps
--   Api, Kube     api/v1alpha1/types.go, and the objects of Kubernetes that the operator builds
--   Database      the rows and parameters of internal/database; Store the queries on the tables of
--                 db/migrations and runs of programs on them, Consistency their constraints, Accounts
--                 what resolveUser and the OIDC callback do on them
--   Http          requests and replies of the handlers
--   Effects       calls, programs and runs; Effects.Paths what holds on every path of a program
--   Jsonutil      internal/jsonutil: Template (ExtractPlaceholders, SubstitutePlaceholders), Merge
--                 (MergeJSON, deepMerge, ValidateTemplate), over Strings and Json, which model what
--                 the code uses of encoding/json; Json.Grammar the grammar of documents, Json.Reading
--                 the reader against it, Merge.Documents what ValidateTemplate accepts
--                 and Merge.Output what MergeJSON writes
--   Auth          internal/auth: Oidc (oidc.go), Dev (dev.go), Safety, Guards and Redirects what
--                 they keep
--   Handler       internal/handler: Instances (instance.go), Pages and Layout (pages.go), Admin
--                 (admin.go, notification.go, health.go), Proxy (proxy.go), Routes (routes.go);
--                 Rights what a user may do, Security the proof for all routes over an interface that
--                 both logins implement
--   Operator      internal/operator/controller.go: Objects (the callbacks of CreateOrUpdate),
--                 Reconcile (Reconcile, setFailed, deleteUserNamespace), Rule a rule for all its runs,
--                 Safety its applications, Outcomes what a result says of its run, Wiring and
--                 Idempotent on the objects, Cluster its runs against a cluster that stores what it is
--                 given (serve answers each call, run_in a whole program), with Ends where they lead,
--                 Notifier the request of notifier.go
--   Bot           internal/bot: Verify (verify.go), Users (resolveUser, getUserInstance,
--                 NotifyInstanceReady), Chats (forwardToInstance, handleMessage), Commands, Create and
--                 Slash (commands.go), Routes (events.go, routes.go); Ownership for whom the bot acts,
--                 Agreement the instances it creates beside the server's
--   Startup       internal/config and cmd: Server (Load, runMigrations, syncInstanceDefaults, and what
--                 main builds), Operator (main of the operator); Migrations and Sync what they keep
--   Examples      runs and instances of the theorems at concrete inputs
--
-- Third-party code is a parameter: the parsers of slack-go, the HMAC and uuid.Parse (Bot.Libraries),
-- controllerutil's functions on finalizers, meta.SetStatusCondition and resource.ParseQuantity
-- (Operator.Libraries), pgtype's UUID (Auth.Libraries), the passage of a number through a float64
-- (float_text) and whether http.NewRequest accepts a URL (url_parses).
--
-- Bounds. The scanner of documents runs on fuel, one more than the length of the text, which is
-- enough since no value, element or field takes more fuel than characters (Json.Grammar.Fuel); the
-- limit of 10000 on the depth of documents is left out. decimal runs on the number plus one, enough
-- for its digits. ConfigGeneration is the bit pattern of an int64, with its wrap-around.
-- runMigrations recurs on the attempts that are left, 30 at first.
--
-- Not modelled: the start of the HTTP server and of the manager, the time limits of contexts, the
-- rendering of pages, the router of echo and the copying of bytes between the connections of a
-- WebSocket. The text of a JSON decoder's error is left out of the replies.
pub mod Base
pub mod Api
pub mod Kube
pub mod Database
pub mod Http
pub mod Effects
pub mod Jsonutil
pub mod Auth
pub mod Handler
pub mod Operator
pub mod Bot
pub mod Startup
pub mod Examples

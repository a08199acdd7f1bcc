-- ===== src/Handler/Security.antt =====
-- Who may do what, over all the routes of internal/handler/routes.go: what the endpoints rely on of
-- a guard, as an interface that both ways of logging in implement.
pub mod Guards
pub mod Endpoints
use clawbake.Base.{[], ◌∷◌, ◌≡◌, ◌⊎◌, String}
use clawbake.Database.{User}
use clawbake.Http.{Request, Reply, http_error, redirect}
use clawbake.Effects.{
  Call, Response, load_session, get_user_by_id, get_user_by_email, notify_from_server, Trace, Prog,
}
use clawbake.Effects.Paths.{event, Every, AllPaths}
use clawbake.Auth.{with_user}
use clawbake.Auth.Guards.{TurnsAway, Handler}
use clawbake.Handler.{Config}
use clawbake.Handler.Routes.{Guard}
use clawbake.Handler.Rights.{Allowed, Shown}

-- The calls by which a guard learns who is there.
abbrev pub Inquiry : Call → Type 0
Inquiry load_session = Unit
Inquiry (get_user_by_id _) = Unit
Inquiry (get_user_by_email _) = Unit
Inquiry _ = ⊥

-- What a guard promises of the users that it lets through: whatever is asserted of the trace and the
-- reply holds at the end, if it holds of the replies that turn a client away, and if the handler
-- makes it hold from every point where a trusted user has been found.
pub record GuardLaws (g : Guard) (Trusted : User → Trace → Type 0) : Type 1 where
  pub trusted_later :
      (u : User) (c : Call) (r : Response c) (t : Trace) → Trusted u t → Trusted u (event c r ∷ t)
  pub required_law :
      (J : Call → Trace → Type 0) (P : Reply → Trace → Type 0) (request : Request) (next : Handler)
      (t : Trace)
      → ((c : Call) (s : Trace) → Inquiry c → J c s)
      → ((reply : Reply) (s : Trace) → TurnsAway reply → Every J s → P reply s)
      → ((u : User) (s : Trace)
          → Trusted u s
          → Every J s
          → AllPaths P P (next (with_user u request)) s)
      → Every J t
      → AllPaths P P (g.required request next) t
  pub optional_law :
      (J : Call → Trace → Type 0) (P : Reply → Trace → Type 0) (request : Request) (next : Handler)
      (t : Trace)
      → ((c : Call) (s : Trace) → Inquiry c → J c s)
      → ((s : Trace) → Every J s → AllPaths P P (next request) s)
      → ((u : User) (s : Trace)
          → Trusted u s
          → Every J s
          → AllPaths P P (next (with_user u request)) s)
      → Every J t
      → AllPaths P P (g.optional request next) t

module _ (h : Config) (Trusted : User → Trace → Type 0) where
  -- A call of the server: an inquiry of a guard, the notification that the operator asks for, or a
  -- call that a trusted user has the right to.
  abbrev pub Authorised : Call → Trace → Type 0
  Authorised c t =
      Inquiry c
      ⊎ (((name user : String) × (c ≡ notify_from_server name user))
          ⊎ ((u : User) × Trusted u t × Allowed h u c t))

  -- A reply shows nothing that depends on rights, or what a trusted user has the right to see.
  abbrev pub Disclosed : Reply → Trace → Type 0
  Disclosed reply t =
      ((u : User) → Shown h u reply t) ⊎ ((u : User) × Trusted u t × Shown h u reply t)

  abbrev pub Secure : Reply → Trace → Type 0
  Secure reply t = Every Authorised t × Disclosed reply t

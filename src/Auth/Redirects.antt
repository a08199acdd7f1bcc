-- ===== src/Auth/Redirects.antt =====
-- Where the logins of internal/auth send the browser.
use clawbake.Base.{
  ℕ, String, [], ◌∷◌, true, false, not, ◌≡◌, ◌⊎◌, inl, inr, refl, Text, Option, none, some, codes,
  has_prefix, nat_eq, arith,
}
use clawbake.Api.{Result, ok, err}
use clawbake.Effects.{
  Session, text, refused, unreadable, claims, OidcClaims, Trace, Oracle, Prog, pure, return, ask,
  block, run,
}
use clawbake.Effects.Paths.{
  event, AllPaths, AllPaths-run, AllPaths-if, AllPaths-bind, AllPaths-block,
}
use clawbake.Database.{User}
use clawbake.Http.{Request, Reply, http_error, redirect}
use clawbake.Auth.{as_string, safe_redirect_path}
use clawbake.Auth.Dev.{dev_login_handler, ensure_dev_user, known_role}
use clawbake.Auth.Oidc.{
  state_matches, take_redirect, save_and_go, callback_handler, by_subject_or_email, log_in,
  exchange_and_log_in,
}

-- For every target, the path that a login redirects to begins with one slash and not with two; it
-- is the target itself, or it is "/" and the target does not begin so.
safe_redirect_path_lem :
    (u : Text)
    → (has_prefix (safe_redirect_path u) (codes "/") ≡ true)
      × (has_prefix (safe_redirect_path u) (codes "//") ≡ false)
      × ((safe_redirect_path u ≡ u)
          ⊎ ((safe_redirect_path u ≡ codes "/")
              × ((has_prefix u (codes "/") ≡ false) ⊎ (has_prefix u (codes "//") ≡ true))))
unfolding safe_redirect_path
safe_redirect_path_lem [] = (refl, refl, inr (refl, inl refl))
safe_redirect_path_lem (c ∷ []) = ground arith
safe_redirect_path_lem (c ∷ d ∷ u) = ground arith

-- An error, or a redirection to a path that begins with one slash and not with two.
abbrev pub StaysHere : Reply → Type 0
StaysHere reply =
    ((status : ℕ) × (message : String) × (reply ≡ http_error status message))
    ⊎ ((target : Text) × (reply ≡ redirect 302 target)
        × (has_prefix target (codes "/") ≡ true)
        × (has_prefix target (codes "//") ≡ false))

abbrev Here : Reply → Trace → Type 0
Here reply t = StaysHere reply

abbrev Anything : {A : Type 0} → A → Trace → Type 0
Anything a t = Unit

on_every_path : {R A : Type 0} (m : Prog R A) (t : Trace) → AllPaths Anything Anything m t
on_every_path (pure a) t = tt
on_every_path (return r) t = tt
on_every_path (ask c k) t = λ r. on_every_path (k r) (event c r ∷ t)

safe-StaysHere : (u : Text) → StaysHere (redirect 302 (safe_redirect_path u))
safe-StaysHere u = let (one, two, _) = safe_redirect_path_lem u in inr (_, refl, one, two)

log_in-StaysHere : (s : Session) (u : User) (t : Trace) → AllPaths Here Here (log_in s u) t
unfolding log_in save_and_go
log_in-StaysHere s u t = go (as_string s.redirect_url)
  where
    go :
        (r : Option Text)
        → AllPaths Here Here
            (save_and_go (take_redirect r (record s { user_id = some (text (codes u.id)) })))
            t
    go none = elim [ ok _ ↦ inr (_, refl, refl, refl) | err _ ↦ inl (_, _, refl) ]
    go (some r) = elim [ ok _ ↦ safe-StaysHere r | err _ ↦ inl (_, _, refl) ]

found-StaysHere :
    (c : OidcClaims) (found : Result User) (t : Trace)
    → AllPaths Here Anything (by_subject_or_email c found) t
unfolding by_subject_or_email
found-StaysHere c (ok u) t = tt
found-StaysHere c (err e) t = elim [
  | ok known ↦ elim [ ok u ↦ tt | err x ↦ inl (_, _, refl) ]
  | err x ↦ elim [ ok u ↦ tt | err y ↦ inl (_, _, refl) ]
]

exchange-StaysHere :
    (s : Session) (request : Request) (t : Trace)
    → AllPaths Here Here (exchange_and_log_in s request) t
unfolding exchange_and_log_in
exchange-StaysHere s request t = elim [
  | err e ↦ inl (_, _, refl)
  | ok none ↦ inl (_, _, refl)
  | ok (some raw) ↦ elim [
    | refused ↦ inl (_, _, refl)
    | unreadable ↦ inl (_, _, refl)
    | claims c ↦ λ found.
        AllPaths-bind Here Anything Here (by_subject_or_email c found) (log_in s) _
          (found-StaysHere c found _) (λ u v _. log_in-StaysHere s u v)
  ]
]

callback-StaysHere :
    (o : Oracle) (request : Request) → StaysHere (run o (callback_handler request) []).0
unfolding callback_handler
callback-StaysHere o request = AllPaths-run Here (callback_handler request) o [] (λ before.
    AllPaths-if Here Here
      (not (state_matches (as_string before.oauth_state) (request.query_param "state"))) _ _ _
      (λ _. inl (_, _, refl))
      (λ _. exchange-StaysHere (record before { oauth_state = none }) request _))

dev_login-StaysHere :
    (o : Oracle) (request : Request) → StaysHere (run o (dev_login_handler request) []).0
unfolding dev_login_handler
dev_login-StaysHere o request = AllPaths-run Here (dev_login_handler request) o [] (
    AllPaths-bind Here Anything Here
      (block (ensure_dev_user (known_role (request.query_param "role")))) _ []
      (AllPaths-block Here Anything (ensure_dev_user (known_role (request.query_param "role"))) []
        (on_every_path (ensure_dev_user (known_role (request.query_param "role"))) []))
      (λ got t _ session. elim [
        | ok _ ↦ safe-StaysHere (request.query_param "redirect")
        | err _ ↦ inl (_, _, refl)
      ]))

-- Whatever the session, the identity provider and the database answer, and whatever the request asks
-- for: the reply of the callback of the OIDC login, and that of the development login, is an error or
-- a redirection to a path that begins with one slash and not with two.
pub logins_stay_here :
    (o : Oracle) (request : Request)
    → StaysHere (run o (callback_handler request) []).0
      × StaysHere (run o (dev_login_handler request) []).0
logins_stay_here o request = (callback-StaysHere o request, dev_login-StaysHere o request)

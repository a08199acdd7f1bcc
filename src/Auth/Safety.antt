-- ===== src/Auth/Safety.antt =====
-- What the logins and the guards of internal/auth keep, whatever the session, the database and the
-- identity provider answer.
use clawbake.Base.{
  ne_of_test, ◌≢◌, [], ◌∷◌, true, ◌≡◌, ◌⊎◌, inl, inr, refl, Text, Option, none, some, not, codes,
  if_elim, ==_sound, ◌==◌, text_eq, string_eq, nat_eq, arith,
}
use clawbake.Api.{Result, ok, err}
use clawbake.Database.{User, CreateUserParams, UpdateUserParams}
use clawbake.Effects.{
  Call, save_session, create_user, update_user, get_user_by_email, get_user_by_oidc_subject,
  load_session, verify_token, Session, SessionValue, text, not_text, OidcClaims, refused,
  unreadable, claims, Trace, Oracle, ◌>>=◌, run,
}
use clawbake.Effects.Paths.{event, Occurs, Every, Ends, AllPaths, AllPaths-run, AllPaths-if}
use clawbake.Http.{Request}
use clawbake.Auth.{as_string}
use clawbake.Auth.Oidc.{
  state_matches, link_params, create_params, take_redirect, save_and_go, callback_handler,
  link_or_create, by_subject_or_email, log_in, exchange_and_log_in,
}

-- The update gives the user the subject of the claims, and nothing else.
abbrev pub Links : User → OidcClaims → UpdateUserParams → Type 0
Links u c p =
    (p.id ≡ u.id)
    × (p.oidc_subject ≡ some c.sub)
    × (p.email ≡ none)
    × (p.name ≡ none)
    × (p.picture ≡ none)
    × (p.role ≡ none)
    × (p.slack_user_id ≡ none)

-- The new user is the one of the claims, with the role "user".
abbrev pub MadeOf : OidcClaims → CreateUserParams → Type 0
MadeOf c p =
    (p.email ≡ c.email)
    × (p.name ≡ c.name)
    × (((c.picture ≡ "") × (p.picture ≡ none)) ⊎ ((c.picture ≢ "") × (p.picture ≡ some c.picture)))
    × (p.role ≡ "user")
    × (p.oidc_subject ≡ c.sub)
    × (p.slack_user_id ≡ none)

link_params-Links : (u : User) (c : OidcClaims) → Links u c (link_params u c)
link_params-Links u c = (refl, refl, refl, refl, refl, refl, refl)

create_params-MadeOf : (c : OidcClaims) → MadeOf c (create_params c)
create_params-MadeOf c = (
  refl,
  refl,
  if_elim (λ o. ((c.picture ≡ "") × (o ≡ none)) ⊎ ((c.picture ≢ "") × (o ≡ some c.picture)))
      (not (c.picture == "")) (some c.picture) none
      (λ e. inr (ne_of_test c.picture "" (ground (arith, e)), refl))
      (λ e. inl (==_sound c.picture "" (ground (arith, e)), refl)),
  refl,
  refl,
  refl,
)

-- The user that the callback found, linked or created for the claims of a token.
abbrev pub Resolved : OidcClaims → User → Trace → Type 0
Resolved c u t =
    Occurs (get_user_by_oidc_subject c.sub) (ok u) t
    ⊎ (((known : User) × (p : UpdateUserParams) × Occurs (get_user_by_email c.email) (ok known) t
          × Occurs (update_user p) (ok u) t
          × Links known c p)
        ⊎ ((p : CreateUserParams) × Occurs (create_user p) (ok u) t × MadeOf c p))

state_matches_lem :
    (v : Option SessionValue) (state : Text)
    → state_matches (as_string v) state ≡ true
    → v ≡ some (text state)
state_matches_lem none state h = cc
state_matches_lem (some not_text) state h = cc
state_matches_lem (some (text t)) state h = ground (arith, text_eq.decides t state)

module _ (request : Request) where
  abbrev pub Proved : Option SessionValue → Option SessionValue → Trace → Type 0
  Proved id state t =
      (before : Session) × (raw : Text) × (c : OidcClaims) × (u : User) × Occurs load_session before
        t
      × (before.oauth_state ≡ some (text (request.query_param "state")))
      × Occurs (verify_token raw) (claims c) t
      × Resolved c u t
      × (id ≡ some (text (codes u.id)))
      × (state ≡ none)

  abbrev pub LoginStep : Call → Trace → Type 0
  LoginStep (save_session s) t = Proved s.user_id s.oauth_state t
  LoginStep (create_user p) t =
      (raw : Text) × (c : OidcClaims) × Occurs (verify_token raw) (claims c) t × MadeOf c p
  LoginStep (update_user p) t =
      (raw : Text) × (c : OidcClaims) × (known : User) × Occurs (verify_token raw) (claims c) t
      × Occurs (get_user_by_email c.email) (ok known) t
      × Links known c p
  LoginStep _ t = Unit

  save_and_go-Every :
      (r : Option Text) (s : Session) (t : Trace)
      → Proved s.user_id s.oauth_state t
      → Every LoginStep t
      → AllPaths (Ends LoginStep) (Ends LoginStep) (save_and_go (take_redirect r s)) t
  unfolding save_and_go
  save_and_go-Every none s t proved h = elim [ ok _ ↦ (proved, h) | err _ ↦ (proved, h) ]
  save_and_go-Every (some r) s t proved h = elim [ ok _ ↦ (proved, h) | err _ ↦ (proved, h) ]

  module _ (before s : Session) (raw : Text) (c : OidcClaims) where
    -- What is known when the claims have been read.
    abbrev VerifiedAt : Trace → Type 0
    VerifiedAt t =
        Occurs load_session before t
        × (before.oauth_state ≡ some (text (request.query_param "state")))
        × Occurs (verify_token raw) (claims c) t

    Resolved-Every :
        (u : User) (t : Trace)
        → VerifiedAt t
        → s.oauth_state ≡ none
        → Resolved c u t
        → Every LoginStep t
        → AllPaths (Ends LoginStep) (Ends LoginStep) (log_in s u) t
    unfolding log_in
    Resolved-Every u t (a, b, d) cleared resolved h =
        save_and_go-Every (as_string s.redirect_url)
          (record s { user_id = some (text (codes u.id)) }) t
          (before, raw, c, u, a, b, d, resolved, refl, cleared) h

    link_or_create-Every :
        (found : Result User) (t : Trace)
        → VerifiedAt t
        → s.oauth_state ≡ none
        → Every LoginStep t
        → AllPaths
            (Ends LoginStep)
            (Ends LoginStep)
            (link_or_create c found >>= log_in s)
            (event (get_user_by_email c.email) found ∷ t)
    unfolding link_or_create
    link_or_create-Every (ok known) t (a, b, d) cleared h = elim [
      | ok u ↦
          Resolved-Every u _ (inr (inr a), b, inr (inr d)) cleared
            (inr (
              inl
                (known, link_params known c, inr (inl refl), inl refl, link_params-Links known c)))
            ((raw, c, known, inr d, inl refl, link_params-Links known c), (tt, h))
      | err e ↦ ((raw, c, known, inr d, inl refl, link_params-Links known c), (tt, h))
    ]
    link_or_create-Every (err e) t (a, b, d) cleared h = elim [
      | ok u ↦
          Resolved-Every u _ (inr (inr a), b, inr (inr d)) cleared
            (inr (inr (create_params c, inl refl, create_params-MadeOf c)))
            ((raw, c, inr d, create_params-MadeOf c), (tt, h))
      | err e' ↦ ((raw, c, inr d, create_params-MadeOf c), (tt, h))
    ]

    by_subject_or_email-Every :
        (found : Result User) (t : Trace)
        → VerifiedAt t
        → s.oauth_state ≡ none
        → Every LoginStep t
        → AllPaths
            (Ends LoginStep)
            (Ends LoginStep)
            (by_subject_or_email c found >>= log_in s)
            (event (get_user_by_oidc_subject c.sub) found ∷ t)
    unfolding by_subject_or_email
    by_subject_or_email-Every (ok u) t (a, b, d) cleared h =
        Resolved-Every u _ (inr a, b, inr d) cleared (inl (inl refl)) (tt, h)
    by_subject_or_email-Every (err e) t (a, b, d) cleared h =
        λ found. link_or_create-Every found _ (inr a, b, inr d) cleared (tt, h)

  exchange_and_log_in-Every :
      (before s : Session) (t : Trace)
      → Occurs load_session before t
      → before.oauth_state ≡ some (text (request.query_param "state"))
      → s.oauth_state ≡ none
      → Every LoginStep t
      → AllPaths (Ends LoginStep) (Ends LoginStep) (exchange_and_log_in s request) t
  unfolding exchange_and_log_in
  exchange_and_log_in-Every before s t a b cleared h = elim [
    | err e ↦ (tt, h)
    | ok none ↦ (tt, h)
    | ok (some raw) ↦ elim [
      | refused ↦ (tt, (tt, h))
      | unreadable ↦ (tt, (tt, h))
      | claims c ↦ λ found.
          by_subject_or_email-Every before s raw c found _ (inr (inr a), b, inl refl) cleared
            (tt, (tt, h))
    ]
  ]

  -- In every run of the callback, whatever the answers: the session is saved only with the id of a
  -- user whom the database returned for the claims of a verified token (by subject; by email, when
  -- the subject was linked; or created), after a session was loaded whose state was the request's, and
  -- with that state removed. A user is created only with the email, name, picture and subject of the
  -- claims of a verified token and the role "user", and an update only gives the user of such claims'
  -- email their subject.
  pub callback_proves_the_login :
      (o : Oracle) → Every LoginStep (run o (callback_handler request) []).1
  unfolding callback_handler
  callback_proves_the_login o =
      AllPaths-run (Ends LoginStep) (callback_handler request) o [] (λ before.
        AllPaths-if (Ends LoginStep) (Ends LoginStep)
          (not (state_matches (as_string before.oauth_state) (request.query_param "state"))) _ _ _
          (λ _. (tt, tt))
          (λ matches.
            exchange_and_log_in-Every before (record before { oauth_state = none }) _ (inl refl)
              (state_matches_lem before.oauth_state (request.query_param "state") (ground arith))
              refl (tt, tt)))

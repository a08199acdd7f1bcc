-- ===== src/Auth.antt =====
-- internal/auth: what the two ways of logging in share. The third-party functions are the
-- parameters of `Libraries`.
pub mod Oidc
pub mod Dev
pub mod Safety
pub mod Guards
pub mod Redirects
use clawbake.Base.{
  ℕ, [], ◌∷◌, ◌++◌, ◌+◌, ◌-◌, ◌%◌, String, Bool, true, false, ◌||◌, ◌&&◌, not, Option, none, some,
  Text, codes, has_prefix, is_empty, any, contains, ltb, leb, text_eq, string_eq, nat_eq, ◌==◌,
  if◌then◌else◌,
}
use Prim.Native.Nat.{◌/◌}
use clawbake.Effects.{SessionValue, text, not_text, Session}
use clawbake.Http.{Request, Reply, http_error}
use clawbake.Database.{User}
use clawbake.Effects.{Prog, return}

-- pgtype.UUID's `Scan` of a string, with the UUID as the text that its `Value` gives.
pub record Libraries : Type 0 where
  pub parse_uuid : Text → Option String

-- strings.Contains(text, part)
unfoldable pub contains_text : Text → Text → Bool
contains_text [] part = has_prefix [] part
contains_text (c ∷ t) part = has_prefix (c ∷ t) part || contains_text t part

abbrev pub unreserved : ℕ → Bool
unreserved c =
    (leb b'a' c && leb c b'z')
    || (leb b'A' c && leb c b'Z')
    || (leb b'0' c && leb c b'9')
    || contains c (codes "-_.~")

abbrev pub upper_hex : ℕ → ℕ
upper_hex d = if ltb d 10 then b'0' + d else b'A' + (d - 10)

-- url.QueryEscape, of a text of bytes
unfoldable pub query_escape : Text → Text
query_escape [] = []
query_escape (c ∷ t) =
    let rest = query_escape t in
    if unreserved c
    then c ∷ rest
    else if c == b' '
    then b'+' ∷ rest
    else b'%' ∷ upper_hex (c / 16 % 16) ∷ upper_hex (c % 16) ∷ rest

-- `safeRedirectPath`
unfoldable pub safe_redirect_path : Text → Text
safe_redirect_path u =
    if is_empty u || not (has_prefix u (codes "/")) || has_prefix u (codes "//")
    then codes "/"
    else u

-- `isBrowserRequest`
unfoldable pub is_browser_request : Request → Bool
unfolding contains_text
is_browser_request request = contains_text (request.header "Accept") (codes "text/html")

-- The assertion `.(string)` on a value of a session that may be missing.
abbrev pub as_string : Option SessionValue → Option Text
as_string (some (text t)) = some t
as_string (some not_text) = none
as_string none = none

-- The user's id, if the value of the session is the text of one.
abbrev pub session_id : Libraries → Option SessionValue → Option String
session_id l (some (text t)) = l.parse_uuid t
session_id l (some not_text) = none
session_id l none = none

abbrev pub with_user : User → Request → Request
with_user u request = record request { user = some u }

-- `RequireAdmin`, of both
unfoldable pub require_admin : Request → (Request → Prog Reply Reply) → Prog Reply Reply
require_admin request next = elim request.user [
  | none ↦ return (http_error 403 "admin access required")
  | some u ↦
      if not (u.role == "admin")
      then return (http_error 403 "admin access required")
      else next request
]

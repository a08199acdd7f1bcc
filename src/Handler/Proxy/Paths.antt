-- ===== src/Handler/Proxy/Paths.antt =====
-- `classifyProxyPath`, `stripRoutePrefix` and `isWebSocketUpgrade` of internal/handler/proxy.go.
pub mod Prefixes
use clawbake.Base.{
  ℕ, [], ◌∷◌, ◌+◌, Bool, ◌&&◌, Text, codes, has_prefix, map, length, drop, nat_eq, text_eq, ◌==◌,
  ltb, leb, if◌then◌else◌,
}
use clawbake.Http.{Request}

abbrev pub proxy_prefix_web : Text
proxy_prefix_web = codes "/proxy/web"

abbrev pub proxy_prefix_tui : Text
proxy_prefix_tui = codes "/proxy/tui"

abbrev pub proxy_prefix_shell : Text
proxy_prefix_shell = codes "/proxy/shell"

abbrev pub port_web : ℕ
port_web = 18789

abbrev pub port_tui : ℕ
port_tui = 7681

abbrev pub port_shell : ℕ
port_shell = 7682

pub record Route : Type 0 where
  pub port : ℕ
  pub prefix : Text

-- `classifyProxyPath`
unfoldable pub classify_proxy_path : Text → Route
classify_proxy_path path =
    if has_prefix path proxy_prefix_shell
    then record { port = port_shell; prefix = proxy_prefix_shell }
    else if has_prefix path proxy_prefix_tui
    then record { port = port_tui; prefix = proxy_prefix_tui }
    else record { port = port_web; prefix = proxy_prefix_web }

-- `stripRoutePrefix`
unfoldable pub strip_route_prefix : Text → Text → Text
strip_route_prefix path prefix =
    if ltb (length prefix) (length path) then drop (length prefix) path else codes "/"

-- The characters that are the same for strings.EqualFold as a small letter of "websocket".
abbrev pub fold_case : ℕ → ℕ
fold_case c =
    if leb b'A' c && leb c b'Z'
    then c + 32
    else if c == 383
    then b's'
    else if c == 8490
    then b'k'
    else c

-- `isWebSocketUpgrade`
unfoldable pub is_websocket_upgrade : Request → Bool
is_websocket_upgrade request = map fold_case (request.header "Upgrade") == codes "websocket"

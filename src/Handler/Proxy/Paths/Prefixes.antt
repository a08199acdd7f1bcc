-- ===== src/Handler/Proxy/Paths/Prefixes.antt =====
-- What the proxy makes of the paths below its prefixes.
use clawbake.Base.{
  [], ◌∷◌, ◌++◌, true, false, ◌≡◌, refl, arith, Text, codes, is_empty, length, length-append, drop,
  ltb, if◌then◌else◌,
}
use clawbake.Handler.Proxy.Paths.{
  classify_proxy_path, strip_route_prefix, proxy_prefix_web, proxy_prefix_tui, proxy_prefix_shell,
  port_web, port_tui, port_shell,
}

-- What is asked of the instance.
abbrev pub asked : Text → Text
asked rest = if is_empty rest then codes "/" else rest

drop-prefix : (p rest : Text) → drop (length p) (p ++ rest) ≡ rest
drop-prefix [] rest = refl
drop-prefix (c ∷ p) rest = drop-prefix p rest

longer :
    (p rest : Text) → ltb (length p) (length (p ++ rest)) ≡ (if is_empty rest then false else true)
longer p [] = ground (arith, length-append {0} p [])
longer p (c ∷ rest) = ground (arith, length-append {0} p (c ∷ rest))

strip-prefix : (p rest : Text) → strip_route_prefix (p ++ rest) p ≡ asked rest
unfolding strip_route_prefix
strip-prefix p rest = rw (longer p rest, drop-prefix p rest) (chosen rest)
  where
    chosen :
        (rest : Text)
        → (if (if is_empty rest then false else true) then rest else codes "/") ≡ asked rest
    chosen [] = refl
    chosen (c ∷ rest) = refl

-- For every rest of a path: behind one of the three prefixes it is sent to the port of that prefix,
-- and what is asked of the instance is the rest itself, or "/" where nothing is left.
pub proxied_paths :
    (rest : Text)
    → ((classify_proxy_path (proxy_prefix_web ++ rest)
          ≡ record { port = port_web; prefix = proxy_prefix_web })
        × (strip_route_prefix (proxy_prefix_web ++ rest) proxy_prefix_web ≡ asked rest))
      × ((classify_proxy_path (proxy_prefix_tui ++ rest)
            ≡ record { port = port_tui; prefix = proxy_prefix_tui })
          × (strip_route_prefix (proxy_prefix_tui ++ rest) proxy_prefix_tui ≡ asked rest))
      × ((classify_proxy_path (proxy_prefix_shell ++ rest)
            ≡ record { port = port_shell; prefix = proxy_prefix_shell })
          × (strip_route_prefix (proxy_prefix_shell ++ rest) proxy_prefix_shell ≡ asked rest))
unfolding classify_proxy_path
proxied_paths rest = (
  (refl, strip-prefix proxy_prefix_web rest),
  (refl, strip-prefix proxy_prefix_tui rest),
  (refl, strip-prefix proxy_prefix_shell rest),
)

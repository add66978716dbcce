-- ===== src/Core/Router/Hosts.antt =====
-- What the router makes of the case and the port of the host header.
use trace_gate.Base.{List, some, ◌∷◌, ◌++◌, ◌≡◌}
use trace_gate.Text.{Text, to_ascii_lowercase}
use trace_gate.Core.Config.{Route}
use trace_gate.Core.Host.Laws.{
  IsHostName, Tight, normalize_host-lower, normalize_host-port, normalize_host_name,
}
use trace_gate.Core.Router.{match_route}

-- A host header in another ASCII case is routed alike.
pub match_route-lower :
    (routes : List Route) (host path : Text)
    → match_route routes (some (to_ascii_lowercase host)) path ≡ match_route routes (some host) path
unfolding match_route
match_route-lower routes host path = rw normalize_host-lower

-- A host name, which is tight and not empty and holds no colon and no leading bracket, is routed
-- alike with a port behind it, whatever the port's text, if it does not end in white space.
pub match_route-port :
    (routes : List Route) (host port path : Text)
    → IsHostName host
    → Tight (host ++ (b':' ∷ port))
    → match_route routes (some (host ++ (b':' ∷ port))) path ≡ match_route routes (some host) path
unfolding match_route
match_route-port routes host port path v t =
    rw (normalize_host-port host port v t, normalize_host_name host v)

-- ===== src/Config/Find.antt =====
-- src/config/xps_config.c: the server block and the route of a request.
pub mod Servers
pub mod Routes
use nw_lab.Config.{Listener, Route, Server}
use nw_lab.Prelude.{
  ℕ, Bool, true, false, ◌&&◌, Bytes, List, [], ◌∷◌, Option, none, some, Exec, done, abort, fault,
  ◌>>=◌, ltb, ◌==◌, if◌then◌else◌, length,
}
use nw_lab.Text.{strcmp_eq}
use nw_lab.Utils.{str_starts_with}

-- Whether a listener of the server has the port.
unfoldable pub has_matching_listener : ℕ → List Listener → Bool
has_matching_listener port [] = false
has_matching_listener port (l ∷ listeners) =
    if port == l.port then true else has_matching_listener port listeners

-- Whether the host is one of the names; a request with no host matches the first.
unfoldable pub is_one_of : Option Bytes → List Bytes → Bool
is_one_of host [] = false
is_one_of none (name ∷ names) = true
is_one_of (some host) (name ∷ names) =
    if strcmp_eq host name then true else is_one_of (some host) names

-- No hostnames match any host.
unfoldable pub has_matching_hostname : Option Bytes → List Bytes → Bool
has_matching_hostname host [] = true
has_matching_hostname host (name ∷ names) = is_one_of host (name ∷ names)

unfoldable pub serves : (port : ℕ) → (host : Option Bytes) → Server → Bool
serves port host server =
    has_matching_listener port server.listeners && has_matching_hostname host server.hostnames

-- The first server block that serves the port and the host.
unfoldable pub find_server : (port : ℕ) → (host : Option Bytes) → List Server → Option Server
find_server port host [] = none
find_server port host (server ∷ servers) =
    if serves port host server then some server else find_server port host servers

-- A route with its path against the best one so far and the length of its path.
unfoldable pub consider :
    (req_path pathname : Option Bytes) → Route → Option Route × ℕ → Exec (Option Route × ℕ)
consider none pathname r best = fault
consider (some req_path) none r best = abort
consider (some req_path) (some path) r best =
    if str_starts_with path req_path
    then if ltb best.1 (length req_path) then done (some r, length req_path) else done best
    else done best

unfoldable pub best_route :
    (pathname : Option Bytes) → List Route → Option Route × ℕ → Exec (Option Route × ℕ)
best_route pathname [] best = done best
best_route pathname (r ∷ routes) best =
    consider r.req_path pathname r best >>= λ b. best_route pathname routes b

unfoldable pub find_route : (pathname : Option Bytes) → List Route → Exec (Option Route)
find_route pathname routes = best_route pathname routes (none, 0) >>= λ b. done b.0

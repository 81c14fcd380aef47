-- ===== src/Config/Resolve/Answers.antt =====
-- src/config/xps_config.c: what `xps_config_lookup` answers.
use nw_lab.Config.{Route, Server, Config}
use nw_lab.Config.Find.{find_server, find_route}
use nw_lab.Config.Find.Routes.{AllNamed, AllShorter, IsBest, find_route-IsBest}
use nw_lab.Config.Find.Servers.{NoneServes, IsFirst, find_server-IsFirst}
use nw_lab.Config.Resolve.{
  FileSystem, Found, not_found, is_keep_alive, type_of, blank_lookup, by_type, on_route, on_server,
  config_lookup,
}
use nw_lab.Http.Headers.{get_header}
use nw_lab.Http.Request.{HttpReq}
use nw_lab.Prelude.{
  ℕ, ◌≡◌, ◌⊎◌, inl, inr, Bool, true, Bytes, List, [], ◌∷◌, ◌++◌, Option, none, some, Exec, done,
  Mallocs, >>=-done, codes,
}
use nw_lab.Text.{NoNul}
use nw_lab.Config.Resolve.Types.{Says, IsReady, AllReady, EachReady, Served, by_type-Served}

AllReady-AllNamed : (routes : List Route) → AllReady routes → AllNamed routes
AllReady-AllNamed [] h = tt
AllReady-AllNamed (r ∷ routes) ((p, named, _, _, _), h) = ((p, named), AllReady-AllNamed routes h)

AllReady-middle :
    (before after : List Route) (r : Route) → AllReady (before ++ (r ∷ after)) → IsReady r
AllReady-middle [] after r h = h.0
AllReady-middle (_ ∷ before) after r h = AllReady-middle before after r h.1

EachReady-middle :
    (before after : List Server) (s : Server)
    → EachReady (before ++ (s ∷ after))
    → AllReady s.routes
EachReady-middle [] after s h = h.0
EachReady-middle (_ ∷ before) after s h = EachReady-middle before after s h.1

-- What the lookup ends with: a lookup for the first server block that serves the request and its
-- best route, or `E_NOTFOUND` for one of three reasons.
abbrev pub Answer :
    FileSystem
    → Config
    → (path : Bytes) → (host : Option Bytes) → (port : ℕ) → (keep_alive : Bool) → Exec Found
    → Type 0
Answer fs config path host port keep_alive m =
    ((m ≡ done not_found) × NoneServes port host config.servers)
    ⊎ ((s : Server) × IsFirst port host config.servers s
        × (((m ≡ done not_found) × AllShorter path 1 s.routes)
            ⊎ ((r : Route) × (n : ℕ) × (t : Bytes) × IsBest path s.routes r n
                × (r.type ≡ some t)
                × Served fs r path (type_of t) keep_alive m)))

on_route-Served :
    (fs : FileSystem) (given joins : Mallocs) (route : Route) (path t : Bytes) (k : Bool)
    → ((n : ℕ) → given n ≡ true)
    → ((n : ℕ) → joins n ≡ true)
    → route.type ≡ some t
    → Says route (type_of t)
    → Served fs route path (type_of t) k (on_route fs given joins route (some path) k)
on_route-Served fs given joins route path t k g j typed says =
    rw same (by_type-Served fs given joins route path (type_of t) k g j says)
  where
    same :
        on_route fs given joins route (some path) k
        ≡ by_type fs given joins route (some path) (blank_lookup (type_of t) k)
    same = unfold on_route in rw (g 0, on_route) (rw typed)

-- Where the configuration is complete, the path has no NUL, the headers are there, and the
-- allocations succeed: the lookup of a request returns. It takes the first server block that serves
-- the port and the host, and the best of its routes for the path. A route that serves files gives the
-- join of its directory and the path, made absolute: a regular file is served itself, a directory by
-- the first file of the route's index that it holds, or else as a directory. A route to an upstream
-- gives the first one, a redirection its address and status. The lookup fails with `E_NOTFOUND` only
-- where no block serves the request, no route with a path that is not empty matches, or the file to
-- serve is neither a regular file nor a directory. Its two lists of addresses are empty, whatever the
-- route's are.
pub config_lookup-Answer :
    (fs : FileSystem) (given joins : Mallocs) (config : Config) (req : HttpReq) (port : ℕ)
    (path : Bytes) (host connection : Option Bytes)
    → ((n : ℕ) → given n ≡ true)
    → ((n : ℕ) → joins n ≡ true)
    → EachReady config.servers
    → req.path ≡ some path
    → NoNul path
    → get_header req.headers (codes "host") ≡ done host
    → get_header req.headers (codes "Connection") ≡ done connection
    → Answer fs config path host port
        (is_keep_alive connection)
        (config_lookup fs given joins config req port)
config_lookup-Answer fs given joins config req port path host connection g j ready at clean h c =
    rw same (answer (find_server-IsFirst port host config.servers))
  where
    k : Bool
    k = is_keep_alive connection

    same :
        config_lookup fs given joins config req port
        ≡ on_server fs given joins (some path) k (find_server port host config.servers)
    same = unfold config_lookup in rw h (rw c (rw at))

    no_server :
        find_server port host config.servers ≡ none
        → on_server fs given joins (some path) k (find_server port host config.servers)
          ≡ done not_found
    no_server e = unfold on_server in rw e

    no_route :
        (s : Server)
        → find_server port host config.servers ≡ some s
        → find_route (some path) s.routes ≡ done none
        → on_server fs given joins (some path) k (find_server port host config.servers)
          ≡ done not_found
    no_route s e run = unfold on_server in rw e (>>=-done _ run)

    at_route :
        (s : Server) (r : Route)
        → find_server port host config.servers ≡ some s
        → find_route (some path) s.routes ≡ done (some r)
        → on_server fs given joins (some path) k (find_server port host config.servers)
          ≡ on_route fs given joins r (some path) k
    at_route s r e run = unfold on_server in rw e (>>=-done _ run)

    answer :
        ((find_server port host config.servers ≡ none) × NoneServes port host config.servers)
          ⊎ ((s : Server) × (find_server port host config.servers ≡ some s)
              × IsFirst port host config.servers s)
        → Answer fs config path host port k
            (on_server fs given joins (some path) k (find_server port host config.servers))
    answer (inl (e, none_serves)) = inl (no_server e, none_serves)
    answer (inr (s, e, first)) =
        let routes_ready = EachReady-middle first.before first.after s (rw first.splits at ready) in
        elim (find_route-IsBest path s.routes clean (AllReady-AllNamed s.routes routes_ready)) [
          | inl (run, short) ↦ inr (s, first, inl (no_route s e run, short))
          | inr (r, n, run, _, best) ↦
              let (_, _, t, typed, says) =
                AllReady-middle best.before best.after r (rw best.splits at routes_ready) in
              inr (
                s,
                first,
                inr (
                  r,
                  n,
                  t,
                  best,
                  typed,
                  rw (at_route s r e run)
                      (on_route-Served fs given joins r path t k g j typed says),
                ),
              )
        ]

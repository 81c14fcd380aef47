-- ===== src/Core/Session/Serve/Routed.antt =====
-- src/core/xps_session.c with src/config/xps_config.c: what the route of a request makes
-- `session_process_request` do.
use nw_lab.Config.{
  Server, Route, Lookup, ReqType, file_serve, reverse_proxy, redirect, metrics, invalid,
}
use nw_lab.Config.Find.Routes.{IsBest, AllShorter}
use nw_lab.Config.Find.Servers.{IsFirst, NoneServes}
use nw_lab.Config.Resolve.{Found, not_found, type_of, is_keep_alive, config_lookup}
use nw_lab.Config.Resolve.Answers.{Answer, config_lookup-Answer}
use nw_lab.Config.Resolve.Types.{Fits, IsMissing, Locates, first_of, EachReady}
use nw_lab.Core.Session.{Session, World}
use nw_lab.Core.Session.Serve.{
  Env, Served, reply, error_reply, is_forbidden, is_listed, serve_directory, serve_files,
  serve_file_path, serve_upstream, refuse, serve, on_found, process_request_of,
  process_request_with, session_process_request, location,
}
use nw_lab.Http.Headers.{get_header}
use nw_lab.Http.Request.{HttpReq}
use nw_lab.Prelude.{
  ℕ, ◌≡◌, refl, ap, ◌∙◌, ◌⊎◌, inl, inr, true, false, Bytes, [], Option, none, some, Exec, done,
  ◌>>=◌, >>=-done, codes,
}
use nw_lab.Status.{ok}
use nw_lab.Text.{NoNul}
use nw_lab.Utils.{is_file, is_dir}

-- What a route of the type is served by: a file or the listing of a directory, or 404; its first
-- upstream; a redirection with its status and address; or a refusal.
abbrev pub Does : Env → (path : Bytes) → Route → ReqType → Session → World → Exec Served → Type 0
Does env path r file_serve session w m =
    ((m ≡ error_reply env 404 session w) × IsMissing env.file_system r path)
    ⊎ ((l : Lookup) × Fits env.file_system r path file_serve l
        × (((f : Bytes) × (l.file_path ≡ some f)
              × (is_file env.file_system.stat f ≡ true)
              × (m ≡ serve_file_path env (some f) (record session { lookup = some l }) w))
            ⊎ ((d : Bytes) × (l.dir_path ≡ some d)
                × (is_dir env.file_system.stat d ≡ true)
                × (m
                    ≡ serve_directory env (env.browse d path) (record session { lookup = some l })
                        w))))
Does env path r reverse_proxy session w m =
    (l : Lookup) × (m
      ≡ serve_upstream env (first_of r.upstreams) (record session { lookup = some l }) w)
Does env path r redirect session w m =
    (l : Lookup) × (m
      ≡ reply env r.http_status_code (location r.redirect_url) none
          (record session { lookup = some l }) w)
Does env path r _ session w m =
    (l : Lookup) × (m ≡ refuse env (record session { lookup = some l }) w)

allowed :
    (ip : Bytes) (l : Lookup)
    → l.ip_whitelist ≡ []
    → l.ip_blacklist ≡ []
    → is_forbidden ip l ≡ false
unfolding is_forbidden is_listed
allowed ip l white black = rw (white, black)

-- A lookup with a file, and one with a directory.
serve_located :
    (env : Env) (path : Bytes) (r : Route) (resource : Bytes) (l : Lookup) (session : Session)
    (w : World)
    → Locates env.file_system r resource l
    → ((f : Bytes) × (l.file_path ≡ some f)
        × (is_file env.file_system.stat f ≡ true)
        × (serve env path file_serve l (record session { lookup = some l }) w
            ≡ serve_file_path env (some f) (record session { lookup = some l }) w))
      ⊎ ((d : Bytes) × (l.dir_path ≡ some d)
          × (is_dir env.file_system.stat d ≡ true)
          × (serve env path file_serve l (record session { lookup = some l }) w
              ≡ serve_directory env (env.browse d path) (record session { lookup = some l }) w))
unfolding serve serve_files
serve_located env path r resource l session w located = elim located [
  | inl (is, at, nd) ↦ inl (resource, at, is, from_file resource at nd)
  | inr (_, _, inl (f, first, at, nd)) ↦ inl (f, at, first.file, from_file f at nd)
  | inr (_, is, inr (_, at, nf)) ↦ inr (
    resource,
    at,
    is,
    ap (λ o. serve_files env path o l (record session { lookup = some l }) w) at,
  )
]
  where
    from_file :
        (f : Bytes)
        → l.file_path ≡ some f
        → l.dir_path ≡ none
        → serve env path file_serve l (record session { lookup = some l }) w
          ≡ serve_file_path env (some f) (record session { lookup = some l }) w
    from_file f at nd =
        ap (λ o. serve_files env path o l (record session { lookup = some l }) w) nd
        ∙ ap (λ o. serve_file_path env o (record session { lookup = some l }) w) at

serve-Does :
    (env : Env) (path : Bytes) (r : Route) (type : ReqType) (l : Lookup) (session : Session)
    (w : World)
    → Fits env.file_system r path type l
    → Does env path r type session w (serve env path type l (record session { lookup = some l }) w)
unfolding serve serve_files
serve-Does env path r file_serve l session w fits =
    inr (l, fits, serve_located env path r _ l session w fits.4)
serve-Does env path r reverse_proxy l session w fits =
    (l, ap (λ o. serve_upstream env o (record session { lookup = some l }) w) fits)
serve-Does env path r redirect l session w (url, status) = (
  l,
  ap (λ o. reply env l.http_status_code (location o) none (record session { lookup = some l }) w)
        url
      ∙ ap (λ n. reply env n (location r.redirect_url) none (record session { lookup = some l }) w)
          status,
)
serve-Does env path r metrics l session w fits = (l, refl)
serve-Does env path r invalid l session w fits = (l, refl)

-- What serving a request comes to.
abbrev pub Routed :
    Env → (path : Bytes) → (host : Option Bytes) → Session → World → Exec Served → Type 0
Routed env path host session w m =
    ((m ≡ error_reply env 404 session w) × NoneServes env.port host env.config.servers)
    ⊎ ((s : Server) × IsFirst env.port host env.config.servers s
        × (((m ≡ error_reply env 404 session w) × AllShorter path 1 s.routes)
            ⊎ ((r : Route) × (n : ℕ) × (t : Bytes) × IsBest path s.routes r n
                × (r.type ≡ some t)
                × Does env path r (type_of t) session w m)))

not_found_lem :
    (env : Env) (path : Bytes) (session : Session) (w : World)
    → on_found env path not_found session w ≡ error_reply env 404 session w
unfolding on_found
not_found_lem env path session w = refl

on_found-serve :
    (env : Env) (path : Bytes) (l : Lookup) (session : Session) (w : World)
    → l.ip_whitelist ≡ []
    → l.ip_blacklist ≡ []
    → on_found env path (ok, some l) session w
      ≡ serve env path l.type l (record session { lookup = some l }) w
unfolding on_found
on_found-serve env path l session w white black = rw (allowed env.client_ip l white black, on_found)

-- Where the configuration is complete, the request has a path without NUL and named headers, and the
-- allocations of the lookup succeed: the first server block for the port and the host, and the best
-- of its routes for the path, decide what the request is answered with. Without them it is 404; a
-- route of type redirect is answered with its status and address, one of type reverse_proxy with its
-- first upstream, one of type file_serve with the regular file that the path names in the route's
-- directory, with the first index file of the directory that it names, with the listing of that
-- directory, or with 404 where it names neither, and any other is refused. No list of addresses of
-- the route plays a part.
pub session_process_request-Routed :
    (env : Env) (session : Session) (w : World) (req : HttpReq) (path : Bytes)
    (host connection : Option Bytes)
    → session.http_req ≡ some req
    → ((n : ℕ) → env.given n ≡ true)
    → ((n : ℕ) → env.joins n ≡ true)
    → EachReady env.config.servers
    → req.path ≡ some path
    → NoNul path
    → get_header req.headers (codes "host") ≡ done host
    → get_header req.headers (codes "Connection") ≡ done connection
    → Routed env path host session w (session_process_request env session w)
unfolding session_process_request process_request_with process_request_of
session_process_request-Routed env session w req path host connection has g j ready at clean h c =
    rw same (routed answer)
  where
    found : Exec Found
    found = config_lookup env.file_system env.given env.joins env.config req env.port

    answer : Answer env.file_system env.config path host env.port (is_keep_alive connection) found
    answer =
        config_lookup-Answer env.file_system env.given env.joins env.config req env.port path host
          connection g j ready at clean h c

    same : session_process_request env session w ≡ (found >>= λ f. on_found env path f session w)
    same =
        ap (λ o. process_request_with env o session w) has
        ∙ ap (λ o. process_request_of env req o session w) at

    none_found :
        found ≡ done not_found
        → (found >>= λ f. on_found env path f session w) ≡ error_reply env 404 session w
    none_found run = >>=-done _ run ∙ not_found_lem env path session w

    routed :
        Answer env.file_system env.config path host env.port (is_keep_alive connection) found
        → Routed env path host session w (found >>= λ f. on_found env path f session w)
    routed (inl (run, no_server)) = inl (none_found run, no_server)
    routed (inr (s, first, inl (run, short))) = inr (s, first, inl (none_found run, short))
    routed (inr (s, first, inr (r, n, t, best, typed, inl (run, file, missing)))) =
        inr (s, first, inr (r, n, t, best, typed, no_resource file))
      where
        no_resource :
            type_of t ≡ file_serve
            → Does env path r (type_of t) session w (found >>= λ f. on_found env path f session w)
        no_resource e = rw e (inl (none_found run, missing))
    routed (inr (s, first, inr (r, n, t, best, typed, inr (l, run, type, _, fits, white, black)))) =
        inr (
          s,
          first,
          inr (
            r,
            n,
            t,
            best,
            typed,
            rw
                (>>=-done (λ f. on_found env path f session w) run
                  ∙ on_found-serve env path l session w white black)
                (rw (ap (λ x. serve env path x l (record session { lookup = some l }) w) type)
                  (serve-Does env path r (type_of t) l session w fits)),
          ),
        )

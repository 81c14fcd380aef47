-- ===== src/Core/Session/Serve.antt =====
-- src/core/xps_session.c: `session_process_request`.
--
-- The listing of a directory, the connection to an upstream and `sscanf` are operations of an
-- interface; the lookup, files, pipes and responses are those of the other modules.
pub mod Calls
pub mod Replies
pub mod Routed
pub mod Tests
use nw_lab.Buffer.{Buffer}
use nw_lab.Config.{Config, Lookup, ReqType, file_serve, reverse_proxy, redirect}
use nw_lab.Config.Resolve.{FileSystem, Found, config_lookup}
use nw_lab.Core.Pipe.{pipe_create}
use nw_lab.Core.Session.{Session, World, Upstream, session_destroy}
use nw_lab.Core.Session.Respond.{Memory, respond}
use nw_lab.Disk.File.{Os, File, file_create}
use nw_lab.Http.Request.{HttpReq}
use nw_lab.Prelude.{
  ℕ, Bool, true, false, not, ◌&&◌, ◌||◌, Bytes, List, [], ◌∷◌, Option, none, some, Exec, done,
  fault, Mallocs, ◌>>=◌, if◌then◌else◌, codes,
}
use nw_lab.Status.{Code, ok, e_notfound, e_permission}
use nw_lab.Text.{strcmp_eq}

-- What a request is served with: the configuration, the client's port and address, the answers of
-- the operating system and of the allocations. `scan_upstream` is `sscanf` with "%255[^:]:%u", a
-- fault where it leaves the port or the host unset.
pub record Env : Type 0 where
  pub config : Config
  pub port : ℕ
  pub client_ip : Bytes
  pub file_system : FileSystem
  pub given : Mallocs
  pub joins : Mallocs
  pub os : Os
  pub file_given : Bool
  pub source_given : Bool
  pub file_self : ℕ
  pub memory : Memory
  pub pipe_given : ℕ → Mallocs
  pub pipe_grown : Mallocs
  pub browse : (dir_path pathname : Bytes) → Option Buffer
  pub scan_upstream : Bytes → Exec (Bytes × ℕ)
  pub upstream_create : (host : Bytes) → (port : ℕ) → World → Exec (Option Upstream × World)

-- The session, unless it was destroyed.
abbrev pub Served : Type 0
Served = Option Session × World

abbrev buff_thresh : ℕ
buff_thresh = 1000000

unfoldable pub reply :
    Env
    → (status : ℕ) → (hs : Exec (List (Bytes × Bytes))) → (body : Option Buffer) → Session
    → World
    → Exec Served
reply env status hs body session w = respond env.memory status hs body session w.store >>= λ r.
    done (some r.1, record w { store = r.2 })

abbrev pub error_reply : Env → (status : ℕ) → Session → World → Exec Served
error_reply env status session w = reply env status (done []) none session w

-- After a response that was set, the session is given up.
unfoldable pub give_up : Session → World → Exec Served
give_up session w = session_destroy session w >>= λ w1. done (none, w1)

unfoldable pub is_listed : (ip : Bytes) → List Bytes → Bool
is_listed ip [] = false
is_listed ip (l ∷ list) = if strcmp_eq ip l then true else is_listed ip list

abbrev is_empty : List Bytes → Bool
is_empty [] = true
is_empty (x ∷ xs) = false

-- Not on the whitelist, where there is one, or on the blacklist.
unfoldable pub is_forbidden : (ip : Bytes) → Lookup → Bool
is_forbidden ip lookup =
    (not (is_empty lookup.ip_whitelist) && not (is_listed ip lookup.ip_whitelist))
    || is_listed ip lookup.ip_blacklist

abbrev pub content_type : Option Bytes → List (Bytes × Bytes)
content_type none = []
content_type (some mime_type) = (codes "Content-Type", mime_type) ∷ []

-- The head of the response, and the pipe that its body comes through.
unfoldable pub stream : Env → Option File → Session → World → Exec Served
unfolding give_up
stream env none session w = fault
stream env (some file) session w =
    respond env.memory 200 (done (content_type file.mime_type)) none session w.store >>= λ r.
    let w1 = record w { store = r.2 } in
    elim r.0 [
      | false ↦ done (some r.1, w1)
      | true ↦
          pipe_create (env.pipe_given 0) (env.pipe_grown 0) buff_thresh file.source r.1.file_sink
            w1.store
          >>= λ p. elim p.0 [
            | none ↦ give_up r.1 (record w1 { store = p.1 })
            | some _ ↦ done (some r.1, record w1 { store = p.1 })
          ]
    ]

unfoldable pub on_file : Env → Code → Option File → Session → World → Exec Served
unfolding stream
on_file env e_permission file session w = error_reply env 403 session w
on_file env e_notfound file session w = error_reply env 404 session w
on_file env ok file session w = stream env file session w
on_file env _ file session w = error_reply env 500 session w

unfoldable pub serve_file_path : Env → Option Bytes → Session → World → Exec Served
unfolding on_file
serve_file_path env none session w = error_reply env 404 session w
serve_file_path env (some file_path) session w =
    file_create env.os env.file_given env.source_given env.file_self file_path w.store >>= λ r.
    on_file env r.0 r.1 (record session { file = r.1 }) (record w { store = r.2 })

unfoldable pub serve_directory : Env → Option Buffer → Session → World → Exec Served
serve_directory env none session w = error_reply env 500 session w
serve_directory env (some html) session w =
    reply env 200 (done ((codes "Content-Type", codes "text/html") ∷ [])) (some html) session w

unfoldable pub serve_files :
    Env → (path : Bytes) → (dir_path : Option Bytes) → Lookup → Session → World → Exec Served
unfolding serve_directory serve_file_path
serve_files env path (some dir_path) lookup session w =
    serve_directory env (env.browse dir_path path) session w
serve_files env path none lookup session w = serve_file_path env lookup.file_path session w

-- A pipe to the upstream, and then one from it.
unfoldable pub connect : Env → Upstream → Session → World → Exec Served
unfolding give_up
connect env upstream session w =
    pipe_create (env.pipe_given 0) (env.pipe_grown 0) buff_thresh session.upstream_source
      upstream.sink w.store
    >>= λ to. elim to.0 [
      | none ↦ give_up session (record w { store = to.1 })
      | some _ ↦
          pipe_create (env.pipe_given 1) (env.pipe_grown 1) buff_thresh upstream.source
            session.upstream_sink to.1
          >>= λ from. elim from.0 [
            | none ↦ give_up session (record w { store = from.1 })
            | some _ ↦ done (some session, record w { store = from.1 })
          ]
    ]

unfoldable pub serve_upstream : Env → Option Bytes → Session → World → Exec Served
unfolding connect
serve_upstream env none session w = fault
serve_upstream env (some address) session w = env.scan_upstream address >>= λ a.
    env.upstream_create a.0 a.1 w >>= λ u. elim u.0 [
      | none ↦ error_reply env 500 session u.1
      | some upstream ↦ connect env upstream (record session { upstream = some upstream }) u.1
    ]

-- The header of a redirection; its value is copied.
abbrev pub location : Option Bytes → Exec (List (Bytes × Bytes))
location none = fault
location (some url) = done ((codes "Location", url) ∷ [])

-- A lookup of no type that is served: the response is set and the session destroyed.
unfoldable pub refuse : Env → Session → World → Exec Served
unfolding give_up
refuse env session w = respond env.memory 500 (done []) none session w.store >>= λ r.
    let w1 = record w { store = r.2 } in
    elim r.0 [ false ↦ done (some r.1, w1) | true ↦ give_up r.1 w1 ]

unfoldable pub serve : Env → (path : Bytes) → ReqType → Lookup → Session → World → Exec Served
unfolding serve_files serve_upstream refuse
serve env path file_serve lookup session w = serve_files env path lookup.dir_path lookup session w
serve env path reverse_proxy lookup session w = serve_upstream env lookup.upstream session w
serve env path redirect lookup session w =
    reply env lookup.http_status_code (location lookup.redirect_url) none session w
serve env path _ lookup session w = refuse env session w

abbrev pub status_of : Code → ℕ
status_of e_notfound = 404
status_of _ = 500

unfoldable pub on_found : Env → (path : Bytes) → Found → Session → World → Exec Served
unfolding serve is_forbidden
on_found env path (error, none) session w = error_reply env (status_of error) session w
on_found env path (error, some lookup) session w = elim (is_forbidden env.client_ip lookup) [
  | true ↦ error_reply env 403 (record session { lookup = some lookup }) w
  | false ↦ serve env path lookup.type lookup (record session { lookup = some lookup }) w
]

unfoldable pub process_request_of : Env → HttpReq → Option Bytes → Session → World → Exec Served
unfolding on_found
process_request_of env req none session w = error_reply env 400 session w
process_request_of env req (some path) session w =
    config_lookup env.file_system env.given env.joins env.config req env.port >>= λ found.
    on_found env path found session w

unfoldable pub process_request_with : Env → Option HttpReq → Session → World → Exec Served
unfolding process_request_of
process_request_with env none session w = error_reply env 400 session w
process_request_with env (some req) session w = process_request_of env req req.path session w

unfoldable pub session_process_request : Env → Session → World → Exec Served
unfolding process_request_with
session_process_request env session w = process_request_with env session.http_req session w

-- ===== src/Config/Resolve.antt =====
-- src/config/xps_config.c: `xps_config_lookup`.
pub mod Types
pub mod Answers
use nw_lab.Config.{
  Route, Server, Config, ReqType, file_serve, reverse_proxy, redirect, invalid, Lookup,
}
use nw_lab.Config.Find.{find_server, find_route}
use nw_lab.Http.Headers.{get_header}
use nw_lab.Http.Request.{HttpReq}
use nw_lab.Prelude.{
  ℕ, ◌+◌, Bool, true, false, not, Bytes, List, [], ◌∷◌, Option, none, some, Exec, done, fault,
  Mallocs, ◌>>=◌, if◌then◌else◌, codes,
}
use nw_lab.Status.{Code, ok, e_notfound}
use nw_lab.Text.{strcmp_eq, strcasecmp_eq}
use nw_lab.Utils.{path_join, str_create, FileKind, is_dir, is_file, is_abs_path}

-- What the file system answers: `stat`, and `realpath`.
pub record FileSystem : Type 0 where
  pub stat : Bytes → Option FileKind
  pub realpath : Bytes → Option Bytes

-- `*error` and the lookup.
abbrev pub Found : Type 0
Found = Code × Option Lookup

abbrev pub not_found : Found
not_found = (e_notfound, none)

unfoldable pub is_keep_alive : Option Bytes → Bool
is_keep_alive none = false
is_keep_alive (some connection) = strcasecmp_eq connection (codes "keep-alive")

unfoldable pub type_of : (type : Bytes) → ReqType
type_of type =
    if strcmp_eq type (codes "file_serve")
    then file_serve
    else if strcmp_eq type (codes "reverse_proxy")
    then reverse_proxy
    else if strcmp_eq type (codes "redirect")
    then redirect
    else invalid

-- After `memset(lookup, 0, ...)`, with the type.
abbrev pub blank_lookup : ReqType → (keep_alive : Bool) → Lookup
blank_lookup type keep_alive = record {
  type = type;
  file_path = none;
  dir_path = none;
  upstream = none;
  http_status_code = 0;
  redirect_url = none;
  keep_alive = keep_alive;
  ip_whitelist = [];
  ip_blacklist = [];
}

-- The first index file that is there, in the directory. `given i` answers the join of round `i`.
unfoldable pub find_index :
    FileSystem → Mallocs → ℕ → (resource_path : Bytes) → List Bytes → Exec (Option Bytes)
find_index fs given i resource_path [] = done none
find_index fs given i resource_path (index_file ∷ index) =
    path_join (given i) (some resource_path) (some index_file) >>= λ index_path.
    elim (is_file fs.stat index_path) [
      | true ↦ done (some index_path)
      | false ↦ find_index fs given (i + 1) resource_path index
    ]

-- An absolute path for the resource, if there is one.
unfoldable pub resolve : FileSystem → Bytes → Option Bytes
resolve fs resource_path =
    if not (is_abs_path resource_path) then fs.realpath resource_path else some resource_path

unfoldable pub in_directory : Lookup → (resource_path : Bytes) → Option Bytes → Lookup
in_directory lookup resource_path none = record lookup { dir_path = some resource_path }
in_directory lookup resource_path (some index_path) = record lookup { file_path = some index_path }

unfoldable pub serve_resource : FileSystem → Mallocs → Route → Lookup → Option Bytes → Exec Found
unfolding in_directory
serve_resource fs given route lookup none = done not_found
serve_resource fs given route lookup (some path) = elim (is_file fs.stat path) [
  | true ↦ done (ok, some (record lookup { file_path = some path }))
  | false ↦ elim (is_dir fs.stat path) [
    | true ↦ find_index fs given 0 path route.index >>= λ index_path.
        done (ok, some (in_directory lookup path index_path))
    | false ↦ done not_found
  ]
]

-- `given` answers the join of the directory and the path, `joins` those of the index files.
unfoldable pub serve_file :
    FileSystem → (given : Bool) → Mallocs → Route → Option Bytes → Lookup → Exec Found
unfolding serve_resource resolve
serve_file fs given joins route pathname lookup =
    path_join given route.dir_path pathname >>= λ resource_path.
    serve_resource fs joins route lookup (resolve fs resource_path)

-- The first upstream, if the route names one.
unfoldable pub proxy_to : (given : Bool) → List Bytes → Lookup → Exec Found
proxy_to given [] lookup = done (ok, some lookup)
proxy_to given (upstream ∷ upstreams) lookup =
    str_create given (some upstream) >>= λ u. done (ok, some (record lookup { upstream = u }))

unfoldable pub redirect_to : (given : Bool) → Route → Lookup → Exec Found
redirect_to given route lookup = str_create given route.redirect_url >>= λ url.
    done
      (ok, some (record lookup { http_status_code = route.http_status_code; redirect_url = url }))

unfoldable pub by_type : FileSystem → Mallocs → Mallocs → Route → Option Bytes → Lookup → Exec Found
unfolding serve_file proxy_to redirect_to
by_type fs given joins route pathname lookup = elim lookup.type [
  | file_serve ↦ serve_file fs (given 1) joins route pathname lookup
  | reverse_proxy ↦ proxy_to (given 1) route.upstreams lookup
  | redirect ↦ redirect_to (given 1) route lookup
  | _ ↦ done (ok, some lookup)
]

-- From the allocation of the lookup on, which is not checked.
unfoldable pub on_route :
    FileSystem → Mallocs → Mallocs → Route → Option Bytes → (keep_alive : Bool) → Exec Found
unfolding by_type type_of
on_route fs given joins route pathname keep_alive = elim (given 0) [
  | false ↦ fault
  | true ↦ elim route.type [
    | none ↦ fault
    | some type ↦ by_type fs given joins route pathname (blank_lookup (type_of type) keep_alive)
  ]
]

unfoldable pub on_server :
    FileSystem → Mallocs → Mallocs → Option Bytes → (keep_alive : Bool) → Option Server → Exec Found
unfolding on_route
on_server fs given joins pathname keep_alive none = done not_found
on_server fs given joins pathname keep_alive (some server) =
    find_route pathname server.routes >>= λ route. elim route [
      | none ↦ done not_found
      | some route ↦ on_route fs given joins route pathname keep_alive
    ]

-- `given` answers the allocations of the lookup and of its string, `joins` those of the paths of
-- index files; `port` is that of the client's listener.
unfoldable pub config_lookup :
    FileSystem → (given joins : Mallocs) → Config → HttpReq → (port : ℕ) → Exec Found
unfolding on_server is_keep_alive
config_lookup fs given joins config req port = do
  host ← get_header req.headers (codes "host")
  connection ← get_header req.headers (codes "Connection")
  on_server fs given joins req.path (is_keep_alive connection)
      (find_server port host config.servers)

-- ===== src/Config/Resolve/Types.antt =====
-- src/config/xps_config.c: what a route of each type is resolved to.
use nw_lab.Config.{
  Route, Server, ReqType, file_serve, reverse_proxy, redirect, metrics, invalid, Lookup,
}
use nw_lab.Config.Resolve.{
  FileSystem, Found, not_found, type_of, blank_lookup, find_index, in_directory, serve_resource,
  resolve, serve_file, proxy_to, redirect_to, by_type,
}
use nw_lab.Prelude.{
  ℕ, ◌+◌, ◌≡◌, refl, sym, ap, ◌∙◌, ◌⊎◌, inl, inr, Bool, true, false, Bytes, List, [], ◌∷◌, ◌++◌,
  Option, none, some, Exec, done, Mallocs, >>=-done, Bool-cases, Option-cases,
}
use nw_lab.Status.{ok}
use nw_lab.Utils.{path_join, str_create, is_file, is_dir, is_abs_path}

abbrev pub first_of : List Bytes → Option Bytes
first_of [] = none
first_of (x ∷ xs) = some x

abbrev pub joined : (a b : Bytes) → Bytes
joined a b = a ++ (b'/' ∷ b)

-- The resource that the path names in the directory: their join if that is absolute, else what
-- `realpath` makes of it.
abbrev pub IsResource : FileSystem → (dir path resource : Bytes) → Type 0
IsResource fs dir path resource =
    ((is_abs_path (joined dir path) ≡ true) × (resource ≡ joined dir path))
    ⊎ ((is_abs_path (joined dir path) ≡ false) × (fs.realpath (joined dir path) ≡ some resource))

abbrev pub NoResource : FileSystem → (dir path : Bytes) → Type 0
NoResource fs dir path =
    (is_abs_path (joined dir path) ≡ false) × (fs.realpath (joined dir path) ≡ none)

-- None of the names is that of a regular file in the directory.
abbrev pub NoFile : FileSystem → (dir : Bytes) → List Bytes → Type 0
NoFile fs dir [] = Unit {0}
NoFile fs dir (name ∷ names) = (is_file fs.stat (joined dir name) ≡ false) × NoFile fs dir names

-- The first of the names that is that of a regular file in the directory, joined to it.
pub record IsIndex (fs : FileSystem) (dir : Bytes) (names : List Bytes) (index_path : Bytes)
    : Type 0 where
  pub before : List Bytes
  pub name : Bytes
  pub after : List Bytes
  pub splits : names ≡ before ++ (name ∷ after)
  pub none_before : NoFile fs dir before
  pub path_is : index_path ≡ joined dir name
  pub file : is_file fs.stat index_path ≡ true

-- A resource that is a regular file is served itself; a directory by its first index file, or as a
-- directory where it has none.
abbrev pub Locates : FileSystem → Route → (resource : Bytes) → Lookup → Type 0
Locates fs route resource l =
    ((is_file fs.stat resource ≡ true) × (l.file_path ≡ some resource) × (l.dir_path ≡ none))
    ⊎ ((is_file fs.stat resource ≡ false)
        × (is_dir fs.stat resource ≡ true)
        × (((f : Bytes) × IsIndex fs resource route.index f
              × (l.file_path ≡ some f)
              × (l.dir_path ≡ none))
            ⊎ (NoFile fs resource route.index
                × (l.dir_path ≡ some resource)
                × (l.file_path ≡ none))))

-- The resource of the path is not there, or is neither a regular file nor a directory.
abbrev pub IsMissing : FileSystem → Route → (path : Bytes) → Type 0
IsMissing fs route path =
    (dir : Bytes) × (route.dir_path ≡ some dir)
    × (NoResource fs dir path
        ⊎ ((resource : Bytes) × IsResource fs dir path resource
            × (is_file fs.stat resource ≡ false)
            × (is_dir fs.stat resource ≡ false)))

-- A lookup says what its route asks for: the resource of the path in the route's directory, the first
-- upstream, the address and the status of a redirection.
abbrev pub Fits : FileSystem → Route → (path : Bytes) → ReqType → Lookup → Type 0
Fits fs route path file_serve l =
    (dir : Bytes) × (resource : Bytes) × (route.dir_path ≡ some dir)
    × IsResource fs dir path resource
    × Locates fs route resource l
Fits fs route path reverse_proxy l = l.upstream ≡ first_of route.upstreams
Fits fs route path redirect l =
    (l.redirect_url ≡ route.redirect_url) × (l.http_status_code ≡ route.http_status_code)
Fits fs route path _ l = Unit {0}

-- What a route of the type has to say.
abbrev pub Says : Route → ReqType → Type 0
Says route file_serve = (d : Bytes) × (route.dir_path ≡ some d)
Says route redirect = (u : Bytes) × (route.redirect_url ≡ some u)
Says route _ = Unit {0}

abbrev pub IsReady : Route → Type 0
IsReady route =
    (p : Bytes) × (route.req_path ≡ some p)
    × (t : Bytes) × (route.type ≡ some t)
    × Says route (type_of t)

abbrev pub AllReady : List Route → Type 0
AllReady [] = Unit {0}
AllReady (r ∷ routes) = IsReady r × AllReady routes

abbrev pub EachReady : List Server → Type 0
EachReady [] = Unit {0}
EachReady (s ∷ servers) = AllReady s.routes × EachReady servers

pub path_join_lem :
    (given : Bool) (a b : Bytes)
    → given ≡ true
    → path_join given (some a) (some b) ≡ done (joined a b)
unfolding path_join
path_join_lem given a b g = rw g

IsIndex-cons :
    (fs : FileSystem) (dir name f : Bytes) (names : List Bytes)
    → is_file fs.stat (joined dir name) ≡ false
    → IsIndex fs dir names f
    → IsIndex fs dir (name ∷ names) f
IsIndex-cons fs dir name f names miss first = record {
  before = name ∷ first.before;
  name = first.name;
  after = first.after;
  splits = ap (λ ns. name ∷ ns) first.splits;
  none_before = (miss, first.none_before);
  path_is = first.path_is;
  file = first.file;
}

pub find_index-IsIndex :
    (fs : FileSystem) (given : Mallocs) (i : ℕ) (dir : Bytes) (names : List Bytes)
    → ((n : ℕ) → given n ≡ true)
    → ((find_index fs given i dir names ≡ done none) × NoFile fs dir names)
      ⊎ ((f : Bytes) × (find_index fs given i dir names ≡ done (some f)) × IsIndex fs dir names f)
unfolding find_index
find_index-IsIndex fs given i dir [] g = inl (refl, tt)
find_index-IsIndex fs given i dir (name ∷ names) g =
    let run = path_join_lem (given i) dir name (g i) in
    elim (Bool-cases (is_file fs.stat (joined dir name))) [
      | inl hit ↦ inr (
        joined dir name,
        >>=-done _ run ∙ rw hit,
        record {
          before = [];
          name = name;
          after = names;
          splits = refl;
          none_before = tt;
          path_is = refl;
          file = hit;
        },
      )
      | inr miss ↦ elim (find_index-IsIndex fs given (i + 1) dir names g) [
        | inl (rest, no_file) ↦ inl (>>=-done _ run ∙ rw miss rest, (miss, no_file))
        | inr (f, rest, first) ↦
            inr (f, >>=-done _ run ∙ rw miss rest, IsIndex-cons fs dir name f names miss first)
      ]
    ]

-- What serving a route of a type ends with.
abbrev pub Served :
    FileSystem → Route → (path : Bytes) → ReqType → (keep_alive : Bool) → Exec Found → Type 0
Served fs route path type keep_alive m =
    ((m ≡ done not_found) × (type ≡ file_serve) × IsMissing fs route path)
    ⊎ ((l : Lookup) × (m ≡ done (ok, some l))
        × (l.type ≡ type)
        × (l.keep_alive ≡ keep_alive)
        × Fits fs route path type l
        × (l.ip_whitelist ≡ [])
        × (l.ip_blacklist ≡ []))

-- What the resource is, and what serving it ends with.
abbrev Located : FileSystem → Route → (resource : Bytes) → (keep_alive : Bool) → Exec Found → Type 0
Located fs route resource k m =
    ((m ≡ done not_found) × (is_file fs.stat resource ≡ false) × (is_dir fs.stat resource ≡ false))
    ⊎ ((l : Lookup) × (m ≡ done (ok, some l))
        × (l.type ≡ file_serve)
        × (l.keep_alive ≡ k)
        × Locates fs route resource l
        × (l.ip_whitelist ≡ [])
        × (l.ip_blacklist ≡ []))

serve_resource-Located :
    (fs : FileSystem) (joins : Mallocs) (route : Route) (k : Bool) (path : Bytes)
    → ((n : ℕ) → joins n ≡ true)
    → Located fs route path k
        (serve_resource fs joins route (blank_lookup file_serve k) (some path))
unfolding serve_resource in_directory
serve_resource-Located fs joins route k path g = elim (Bool-cases (is_file fs.stat path)) [
  | inl file ↦ inr (
    record (blank_lookup file_serve k) { file_path = some path },
    rw (file, serve_resource),
    refl,
    refl,
    inl (file, refl, refl),
    refl,
    refl,
  )
  | inr no_file ↦ elim (Bool-cases (is_dir fs.stat path)) [
    | inr no_dir ↦ inl (rw (no_file, serve_resource) (rw no_dir), no_file, no_dir)
    | inl dir ↦ elim (find_index-IsIndex fs joins 0 path route.index g) [
      | inl (run, no_index) ↦ inr (
        record (blank_lookup file_serve k) { dir_path = some path },
        rw (no_file, serve_resource) (rw dir (rw run)),
        refl,
        refl,
        inr (no_file, dir, inr (no_index, refl, refl)),
        refl,
        refl,
      )
      | inr (f, run, first) ↦ inr (
        record (blank_lookup file_serve k) { file_path = some f },
        rw (no_file, serve_resource) (rw dir (rw run)),
        refl,
        refl,
        inr (no_file, dir, inl (f, first, refl, refl)),
        refl,
        refl,
      )
    ]
  ]
]

resolve-IsResource :
    (fs : FileSystem) (dir path : Bytes)
    → ((resolve fs (joined dir path) ≡ none) × NoResource fs dir path)
      ⊎ ((resource : Bytes) × (resolve fs (joined dir path) ≡ some resource)
          × IsResource fs dir path resource)
unfolding resolve
resolve-IsResource fs dir path = elim (Bool-cases (is_abs_path (joined dir path))) [
  | inl here ↦ inr (joined dir path, rw (here, resolve), inl (here, refl))
  | inr relative ↦ elim (Option-cases (fs.realpath (joined dir path))) [
    | inl nothing ↦ inl (rw (relative, resolve) nothing, (relative, nothing))
    | inr (resource, real) ↦ inr (resource, rw (relative, resolve) real, inr (relative, real))
  ]
]

serve_file-Served :
    (fs : FileSystem) (given : Bool) (joins : Mallocs) (route : Route) (dir path : Bytes) (k : Bool)
    → given ≡ true
    → ((n : ℕ) → joins n ≡ true)
    → route.dir_path ≡ some dir
    → Served fs route path file_serve k
        (serve_file fs given joins route (some path) (blank_lookup file_serve k))
unfolding serve_file serve_resource
serve_file-Served fs given joins route dir path k g j has =
    let run : path_join given route.dir_path (some path) ≡ done (joined dir path) =
      rw has (path_join_lem given dir path g) in
    rw run (elim (resolve-IsResource fs dir path) [
      | inl (gone, nothing) ↦ rw gone (inl (refl, refl, (dir, has, inl nothing)))
      | inr (resource, found, is) ↦
          rw found (elim (serve_resource-Located fs joins route k resource j) [
            | inl (failed, no_file, no_dir) ↦
                inl (failed, refl, (dir, has, inr (resource, is, no_file, no_dir)))
            | inr (l, served, type, alive, located, white, black) ↦
                inr (l, served, type, alive, (dir, resource, has, is, located), white, black)
          ])
    ])

pub proxy_to-Served :
    (fs : FileSystem) (given : Bool) (route : Route) (path : Bytes) (k : Bool) (us : List Bytes)
    → given ≡ true
    → route.upstreams ≡ us
    → Served fs route path reverse_proxy k (proxy_to given us (blank_lookup reverse_proxy k))
unfolding proxy_to str_create
proxy_to-Served fs given route path k [] g e =
    inr (blank_lookup reverse_proxy k, refl, refl, refl, rw e, refl, refl)
proxy_to-Served fs given route path k (u ∷ us) g e = inr (
  record (blank_lookup reverse_proxy k) { upstream = some u },
  rw g,
  refl,
  refl,
  rw e,
  refl,
  refl,
)

pub by_type-Served :
    (fs : FileSystem) (given joins : Mallocs) (route : Route) (path : Bytes) (type : ReqType)
    (k : Bool)
    → ((n : ℕ) → given n ≡ true)
    → ((n : ℕ) → joins n ≡ true)
    → Says route type
    → Served fs route path type k (by_type fs given joins route (some path) (blank_lookup type k))
unfolding by_type redirect_to str_create
by_type-Served fs given joins route path file_serve k g j (dir, has) =
    serve_file-Served fs (given 1) joins route dir path k (g 1) j has
by_type-Served fs given joins route path reverse_proxy k g j says =
    proxy_to-Served fs (given 1) route path k route.upstreams (g 1) refl
by_type-Served fs given joins route path redirect k g j (u, has) = inr (
  record (blank_lookup redirect k) {
    redirect_url = some u;
    http_status_code = route.http_status_code;
  },
  rw has (rw (g 1)),
  refl,
  refl,
  (sym has, refl),
  refl,
  refl,
)
by_type-Served fs given joins route path metrics k g j says =
    inr (blank_lookup metrics k, refl, refl, refl, tt, refl, refl)
by_type-Served fs given joins route path invalid k g j says =
    inr (blank_lookup invalid k, refl, refl, refl, tt, refl, refl)

-- ===== src/Config/Parse.antt =====
-- src/config/xps_config.c: reading the configuration out of JSON.
--
-- The JSON library is an interface of what it answers for what it parsed. What the allocations of
-- structs and strings and the growth of the vectors answer is a parameter.
pub mod Described
pub mod Unmade
use nw_lab.Config.{Listener, Server}
use nw_lab.Config.Listeners.{parse_all_listener}
use nw_lab.Prelude.{
  ℕ, zero, suc, ◌+◌, Bool, true, false, Bytes, List, [], map, Option, none, some, Exec, done, fault,
  Mallocs, ◌>>=◌, if◌then◌else◌, codes,
}
use nw_lab.Utils.{str_create}
use nw_lab.Vec.{vec_push}

-- `json_object_get_string`, `json_object_get_number` with its cast to `u_int`,
-- `json_object_has_value`, `json_object_get_array`; `json_array_get_count` and the elements of an
-- array, where NULL is an array and an object like the others.
pub record Json : Type 1 where
  pub Object : Type 0
  pub Array : Type 0
  pub get_string : Object → Bytes → Option Bytes
  pub get_number : Object → Bytes → ℕ
  pub has_value : Object → Bytes → Bool
  pub get_array : Object → Bytes → Option Array
  pub count : Option Array → ℕ
  pub object_at : Option Array → ℕ → Object
  pub string_at : Option Array → ℕ → Option Bytes

-- `xps_config_route_s` and `xps_config_server_s` as they are read: a string in a list is NULL where its
-- copy failed, and an address list is none until `vec_init` is called on it.
pub record ParsedRoute : Type 0 where
  pub req_path : Option Bytes
  pub type : Option Bytes
  pub dir_path : Option Bytes
  pub index : List (Option Bytes)
  pub upstreams : List (Option Bytes)
  pub http_status_code : ℕ
  pub redirect_url : Option Bytes
  pub ip_whitelist : Option (List (Option Bytes))
  pub ip_blacklist : Option (List (Option Bytes))

pub record ParsedServer : Type 0 where
  pub listeners : List Listener
  pub hostnames : List (Option Bytes)
  pub routes : List ParsedRoute

pub record ParsedConfig : Type 0 where
  pub server_name : Option Bytes
  pub servers : List ParsedServer
  pub all_listeners : List Listener

-- What the copies of the items of an array and the pushes of them are answered.
pub record Filling : Type 0 where
  pub copied : Mallocs
  pub grown : Mallocs

pub record RouteAnswers : Type 0 where
  pub req_path : Bool
  pub type : Bool
  pub dir_path : Bool
  pub redirect_url : Bool
  pub index : Filling
  pub upstreams : Filling
  pub ip_whitelist : Filling
  pub ip_blacklist : Filling

-- The structs of the listeners and routes, the pushes of them, and the strings in them.
pub record ServerAnswers : Type 0 where
  pub listener_given : Mallocs
  pub hosts : Mallocs
  pub listeners_grown : Mallocs
  pub route_given : Mallocs
  pub routes : ℕ → RouteAnswers
  pub routes_grown : Mallocs
  pub hostnames : Filling

-- `all_grown i` answers the growth of the list of all listeners at server `i`.
pub record ConfigAnswers : Type 0 where
  pub config : Bool
  pub config_path : Bool
  pub server_given : Mallocs
  pub servers : ℕ → ServerAnswers
  pub servers_grown : Mallocs
  pub all_grown : ℕ → Mallocs

-- A struct or a block that is written to at once: NULL is not looked for.
abbrev pub allocated {ℓ} : {A : Type ℓ} → (given : Bool) → Exec A → Exec A
allocated true m = m
allocated false m = fault

-- The loop over an array: from index `i` on, `n` items are read and pushed.
unfoldable pub push_items {ℓ} :
    {A : Type ℓ} → (grown : Mallocs) → (item : ℕ → Exec A) → (n i : ℕ) → List A → Exec (List A)
push_items grown item zero i v = done v
push_items grown item (suc n) i v =
    item i >>= λ x. push_items grown item n (i + 1) (vec_push (grown i) v x)

-- A push to a vector; one that was never made has no block and no capacity to look at.
abbrev pub push_to {ℓ} :
    {A : Type ℓ} → (grown : Bool) → Option (List A) → A → Exec (Option (List A))
push_to grown none x = fault
push_to grown (some v) x = done (some (vec_push grown v x))

-- The list of all listeners is made of the listeners of the servers only.
abbrev pub bare : ParsedServer → Server
bare s = record { listeners = s.listeners; hostnames = []; routes = [] }

module _ (json : Json) where
  -- A string of an object, copied where it is there.
  unfoldable pub copy_string : (given : Bool) → json.Object → Bytes → Exec (Option Bytes)
  copy_string given o name = elim (json.get_string o name) [
    | none ↦ done none
    | some s ↦ str_create given (some s)
  ]

  unfoldable pub strings_of : Filling → Option json.Array → Exec (List (Option Bytes))
  strings_of f none = done []
  strings_of f (some a) =
      push_items f.grown (λ i. str_create (f.copied i) (json.string_at (some a) i))
        (json.count (some a)) 0 []

  -- The loop over an array of addresses, which are pushed to the vector.
  unfoldable pub push_addresses :
      Filling
      → json.Array
      → (n i : ℕ) → Option (List (Option Bytes))
      → Exec (Option (List (Option Bytes)))
  push_addresses f a zero i v = done v
  push_addresses f a (suc n) i v = str_create (f.copied i) (json.string_at (some a) i) >>= λ ip.
      push_to (f.grown i) v ip >>= λ v1. push_addresses f a n (i + 1) v1

  unfoldable pub addresses_of :
      Filling
      → Option json.Array
      → Option (List (Option Bytes))
      → Exec (Option (List (Option Bytes)))
  unfolding push_addresses
  addresses_of f none v = done v
  addresses_of f (some a) v = push_addresses f a (json.count (some a)) 0 v

  unfoldable pub parse_listener : (given : Bool) → json.Object → Exec Listener
  parse_listener given o = do
    host ← copy_string given o (codes "host")
    done (record { host = host; port = json.get_number o (codes "port") })

  -- `vec_init` is called on the lists of index files and upstreams, not on those of addresses.
  unfoldable pub parse_route : RouteAnswers → json.Object → Exec ParsedRoute
  parse_route g o = do
    req_path ← copy_string g.req_path o (codes "req_path")
    type ← copy_string g.type o (codes "type")
    dir_path ← copy_string g.dir_path o (codes "dir_path")
    redirect_url ← copy_string g.redirect_url o (codes "redirect_url")
    index ← strings_of g.index (json.get_array o (codes "index"))
    upstreams ← strings_of g.upstreams (json.get_array o (codes "upstreams"))
    ip_whitelist ← addresses_of g.ip_whitelist (json.get_array o (codes "ip_whitelist")) none
    ip_blacklist ← addresses_of g.ip_blacklist (json.get_array o (codes "ip_blacklist")) none
    done (record {
      req_path = req_path;
      type = type;
      dir_path = dir_path;
      index = index;
      upstreams = upstreams;
      http_status_code =
          if json.has_value o (codes "http_status_code")
          then json.get_number o (codes "http_status_code")
          else 0;
      redirect_url = redirect_url;
      ip_whitelist = ip_whitelist;
      ip_blacklist = ip_blacklist;
    })

  -- The objects of an array, if there is one: a struct for each, which `parse` fills.
  unfoldable pub objects_of {ℓ} :
      {A : Type ℓ}
      → (given grown : Mallocs) → (parse : ℕ → json.Object → Exec A) → Option json.Array
      → Exec (List A)
  objects_of given grown parse none = done []
  objects_of given grown parse (some a) =
      push_items grown (λ i. allocated (given i) (parse i (json.object_at (some a) i)))
        (json.count (some a)) 0 []

  unfoldable pub parse_server : ServerAnswers → json.Object → Exec ParsedServer
  parse_server g o = do
    listeners ←
        objects_of g.listener_given g.listeners_grown (λ i. parse_listener (g.hosts i))
          (json.get_array o (codes "listeners"))
    routes ←
        objects_of g.route_given g.routes_grown (λ i. parse_route (g.routes i))
          (json.get_array o (codes "routes"))
    hostnames ← strings_of g.hostnames (json.get_array o (codes "hostnames"))
    done (record { listeners = listeners; hostnames = hostnames; routes = routes })

  -- The loop over the servers, whose array is not tested for NULL.
  unfoldable pub parse_servers : ConfigAnswers → Option json.Array → Exec (List ParsedServer)
  unfolding push_items parse_server
  parse_servers g servers =
      push_items g.servers_grown
        (λ i. allocated (g.server_given i) (parse_server (g.servers i) (json.object_at servers i)))
        (json.count servers) 0 []

  -- The file as the library parsed it, or none.
  unfoldable pub config_create : ConfigAnswers → Option json.Object → Exec (Option ParsedConfig)
  unfolding parse_servers
  config_create g file = allocated g.config (
      allocated g.config_path (elim file [
        | none ↦ done none
        | some root ↦ parse_servers g (json.get_array root (codes "servers")) >>= λ servers. done (
            some (record {
              server_name = json.get_string root (codes "server_name");
              servers = servers;
              all_listeners = parse_all_listener g.all_grown 0 (map bare servers) [];
            }))
      ]))

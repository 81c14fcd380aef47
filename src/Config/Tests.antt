-- ===== src/Config/Tests.antt =====
-- The configuration on concrete input.
use nw_lab.Config.{Listener, Route, Server, Config}
use nw_lab.Config.Find.{find_server, find_route}
use nw_lab.Config.Find.Routes.{IsBest, AllShorter, find_route-IsBest}
use nw_lab.Config.Find.Servers.{NoneServes, IsFirst, find_server-IsFirst}
use nw_lab.Config.Listeners.{
  IsIn, IsServed, AllDistinct, parse_all_listener, parse_all_listener-AllDistinct,
}
use nw_lab.Config.Parse.{
  Json, Filling, RouteAnswers, ServerAnswers, ConfigAnswers, parse_route, config_create,
}
use nw_lab.Config.Parse.Described.{
  IsRoute, IsServer, GivesConfig, server_as_parsed, config_create-IsServers,
}
use nw_lab.Config.Parse.Unmade.{parse_route-HasFirst}
use nw_lab.Config.Resolve.{FileSystem, is_keep_alive, config_lookup, type_of}
use nw_lab.Config.Resolve.Answers.{Answer, config_lookup-Answer}
use nw_lab.Config.Resolve.Types.{EachReady}
use nw_lab.Http.Headers.{key_val, get_header}
use nw_lab.Http.Request.{HttpReq, fresh_req}
use nw_lab.Prelude.{
  ℕ, ◌<◌, ◌≡◌, refl, ◌⊎◌, inl, true, false, Bytes, [], ◌∷◌, Option, none, some, done, fault,
  Mallocs, codes, map, if◌then◌else◌,
}
use nw_lab.Text.{strcmp_eq, strcasecmp_eq}
use nw_lab.Utils.{FileKind, directory, regular}

abbrev web : Listener
web = record { host = some (codes "0.0.0.0"); port = 8001 }

abbrev api : Route
api = record {
  req_path = some (codes "/api");
  type = some (codes "reverse_proxy");
  dir_path = none;
  index = [];
  upstreams = codes "10.0.0.1:80" ∷ [];
  http_status_code = 0;
  redirect_url = none;
  ip_whitelist = none;
  ip_blacklist = none;
}

abbrev old : Route
old = record api {
  req_path = some (codes "/");
  type = some (codes "redirect");
  upstreams = [];
  http_status_code = 302;
  redirect_url = some (codes "/api/new");
}

abbrev site : Server
site = record { listeners = web ∷ []; hostnames = codes "a.org" ∷ []; routes = old ∷ api ∷ [] }

abbrev twin : Server
twin = record { listeners = web ∷ []; hostnames = []; routes = [] }

find_server-IsFirst_example :
    ((find_server 8001 (some (codes "b.org")) (site ∷ twin ∷ []) ≡ none)
      × NoneServes 8001 (some (codes "b.org")) (site ∷ twin ∷ []))
    ⊎ ((s : Server) × (find_server 8001 (some (codes "b.org")) (site ∷ twin ∷ []) ≡ some s)
        × IsFirst 8001 (some (codes "b.org")) (site ∷ twin ∷ []) s)
find_server-IsFirst_example = find_server-IsFirst 8001 (some (codes "b.org")) (site ∷ twin ∷ [])

find_route-IsBest_example :
    ((find_route (some (codes "/api/v")) (old ∷ api ∷ []) ≡ done none)
      × AllShorter (codes "/api/v") 1 (old ∷ api ∷ []))
    ⊎ ((r : Route) × (n : ℕ) × (find_route (some (codes "/api/v")) (old ∷ api ∷ []) ≡ done (some r))
        × (0 < n)
        × IsBest (codes "/api/v") (old ∷ api ∷ []) r n)
find_route-IsBest_example =
    find_route-IsBest (codes "/api/v") (old ∷ api ∷ [])
      (refl, (refl, (refl, (refl, (refl, (refl, tt))))))
      ((codes "/", refl), ((codes "/api", refl), tt))

abbrev pub given : Mallocs
given n = true

parse_all_listener-AllDistinct_example :
    AllDistinct (parse_all_listener (λ n. given) 0 (site ∷ twin ∷ []) [])
    × ((l : Listener)
        → (IsIn l (parse_all_listener (λ n. given) 0 (site ∷ twin ∷ []) [])
            → IsServed l (site ∷ twin ∷ []))
          × (IsServed l (site ∷ twin ∷ [])
              → IsIn l (parse_all_listener (λ n. given) 0 (site ∷ twin ∷ []) [])))
parse_all_listener-AllDistinct_example =
    parse_all_listener-AllDistinct (λ n. given) (site ∷ twin ∷ []) (λ n m. refl)

abbrev pub asked : HttpReq
asked = record fresh_req {
  path = some (codes "/api/v");
  headers = key_val (codes "Host") (codes "a.org") ∷ [];
}

abbrev pub disk : FileSystem
disk = record { stat = λ path. none; realpath = λ path. none }

abbrev pub served : Config
served = record { server_name = none; servers = site ∷ []; all_listeners = web ∷ [] }

-- A route that serves the files of a directory, in which the path names a directory with an index file.
abbrev shared : Route
shared = record api {
  req_path = some (codes "/");
  type = some (codes "file_serve");
  dir_path = some (codes "/srv");
  index = codes "index.htm" ∷ codes "index.html" ∷ [];
}

abbrev sharing : Config
sharing = record {
  server_name = none;
  servers = record site { routes = shared ∷ [] } ∷ [];
  all_listeners = web ∷ [];
}

abbrev kind_of : Bytes → Option FileKind
kind_of path =
    if strcmp_eq path (codes "/srv//api/v")
    then some directory
    else if strcmp_eq path (codes "/srv//api/v/index.html")
    then some regular
    else none

abbrev tree : FileSystem
tree = record { stat = kind_of; realpath = λ path. none }

config_lookup-Answer_example :
    Answer tree sharing
      (codes "/api/v")
      (some (codes "a.org"))
      8001
      (is_keep_alive none)
      (config_lookup tree given given sharing asked 8001)
config_lookup-Answer_example =
    config_lookup-Answer tree given given sharing asked 8001 (codes "/api/v") (some (codes "a.org"))
      none (λ n. refl) (λ n. refl) ready refl (refl, (refl, (refl, (refl, (refl, (refl, tt))))))
      host_found no_connection
  where
    ready : EachReady sharing.servers
    ready =
        unfold type_of strcmp_eq in
        (((codes "/", refl, codes "file_serve", refl, (codes "/srv", refl)), tt), tt)

    host_found : get_header asked.headers (codes "host") ≡ done (some (codes "a.org"))
    host_found = unfold get_header strcasecmp_eq in refl

    no_connection : get_header asked.headers (codes "Connection") ≡ done none
    no_connection = unfold get_header strcasecmp_eq in refl

-- A file with one server, one listener and one route; `ips` is the number of addresses that its route
-- allows.
data Node : Type 0 where
  root server listener route : Node

data Array : Type 0 where
  servers listeners routes upstreams whitelist : Array

abbrev string_in : Node → Bytes → Option Bytes
string_in root name = some (codes "nwlab")
string_in server name = none
string_in listener name = some (codes "0.0.0.0")
string_in route name =
    if strcmp_eq name (codes "req_path")
    then some (codes "/api")
    else if strcmp_eq name (codes "type")
    then some (codes "reverse_proxy")
    else none

abbrev array_in : (ips : ℕ) → Node → Bytes → Option Array
array_in ips root name = some servers
array_in ips server name =
    if strcmp_eq name (codes "listeners")
    then some listeners
    else if strcmp_eq name (codes "routes")
    then some routes
    else none
array_in ips listener name = none
array_in ips route name =
    if strcmp_eq name (codes "upstreams")
    then some upstreams
    else if strcmp_eq name (codes "ip_whitelist")
    then some whitelist
    else none

abbrev count_of : (ips : ℕ) → Option Array → ℕ
count_of ips none = 0
count_of ips (some whitelist) = ips
count_of ips (some _) = 1

abbrev node_at : Option Array → ℕ → Node
node_at (some servers) i = server
node_at (some listeners) i = listener
node_at _ i = route

abbrev document : (ips : ℕ) → Json
document ips = record {
  Object = Node;
  Array = Array;
  get_string = string_in;
  get_number = λ o name. 8001;
  has_value = λ o name. false;
  get_array = array_in ips;
  count = count_of ips;
  object_at = node_at;
  string_at = λ a i. some (codes "10.0.0.1:80");
}

abbrev read : Server
read = record { listeners = web ∷ []; hostnames = []; routes = api ∷ [] }

abbrev filled : Filling
filled = record { copied = given; grown = given }

abbrev route_filled : RouteAnswers
route_filled = record {
  req_path = true;
  type = true;
  dir_path = true;
  redirect_url = true;
  index = filled;
  upstreams = filled;
  ip_whitelist = filled;
  ip_blacklist = filled;
}

abbrev server_filled : ServerAnswers
server_filled = record {
  listener_given = given;
  hosts = given;
  listeners_grown = given;
  route_given = given;
  routes = λ i. route_filled;
  routes_grown = given;
  hostnames = filled;
}

abbrev all_filled : ConfigAnswers
all_filled = record {
  config = true;
  config_path = true;
  server_given = given;
  servers = λ i. server_filled;
  servers_grown = given;
  all_grown = λ n. given;
}

config_create-IsServers_example :
    config_create (document 0) all_filled (some root)
    ≡ done (
        some (record {
          server_name = some (codes "nwlab");
          servers = map server_as_parsed (read ∷ []);
          all_listeners = parse_all_listener (λ n. given) 0 (read ∷ []) [];
        }))
config_create-IsServers_example =
    config_create-IsServers (document 0) all_filled root (read ∷ []) gives (refl, (said, tt))
  where
    gives : GivesConfig all_filled
    gives = (
      refl,
      refl,
      λ n. refl,
      λ i. (
        λ n. refl,
        λ n. refl,
        λ n. refl,
        λ n. refl,
        λ j. (refl, refl, refl, refl, (λ n. refl, λ n. refl), (λ n. refl, λ n. refl)),
        λ n. refl,
        (λ n. refl, λ n. refl),
      ),
      λ n. refl,
    )

    api_said : IsRoute (document 0) route api
    api_said =
        unfold strcmp_eq in
        record {
          path = refl;
          type = refl;
          dir = refl;
          url = refl;
          index = refl;
          upstreams = (refl, (refl, tt));
          status = refl;
          whitelist = refl;
          no_whitelist = refl;
          blacklist = tt;
          no_blacklist = refl;
        }

    said : IsServer (document 0) server read
    said =
        unfold strcmp_eq in
        record {
          listeners = (refl, ((refl, refl), tt));
          routes = (refl, (api_said, tt));
          hostnames = refl;
        }

parse_route-HasFirst_example : parse_route (document 2) route_filled route ≡ fault
parse_route-HasFirst_example =
    parse_route-HasFirst (document 2) route_filled route [] (codes "10.0.0.1:80" ∷ [])
      (unfold strcmp_eq in refl) (unfold strcmp_eq in (refl, (refl, tt)))
      (inl (unfold strcmp_eq in (1, codes "10.0.0.1:80", refl, refl)))

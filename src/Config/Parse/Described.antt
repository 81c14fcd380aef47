-- ===== src/Config/Parse/Described.antt =====
-- src/config/xps_config.c: what the JSON of a configuration says, and what is read from it.
use nw_lab.Config.{Listener, Route, Server}
use nw_lab.Config.Listeners.{add_listeners, parse_all_listener}
use nw_lab.Config.Parse.{
  Json, ParsedRoute, ParsedServer, Filling, RouteAnswers, ServerAnswers, ConfigAnswers, bare,
  push_items, copy_string, strings_of, addresses_of, push_addresses, parse_listener, parse_route,
  objects_of, parse_server, parse_servers, config_create,
}
use nw_lab.Prelude.{
  ℕ, ◌+◌, ◌≡◌, refl, ap, ◌∙◌, Bool, true, Bytes, List, [], ◌∷◌, ◌++◌, map, Option, none, some, Exec,
  done, Mallocs, >>=-done, if◌then◌else◌, codes, length, append_assoc, append-nil, Option-cases,
  inl, inr,
}
use nw_lab.Utils.{str_create}

-- The items of the list fit the places from index `i` on.
abbrev pub AllAt {ℓ κ} : {A : Type ℓ} → (P : ℕ → A → Type κ) → ℕ → List A → Type κ
AllAt P i [] = Unit
AllAt P i (x ∷ xs) = P i x × AllAt P (i + 1) xs

-- Every allocation succeeds.
abbrev pub Always : Mallocs → Type 0
Always m = (n : ℕ) → m n ≡ true

abbrev pub Fills : Filling → Type 0
Fills f = Always f.copied × Always f.grown

abbrev pub GivesRoute : RouteAnswers → Type 0
GivesRoute g =
    (g.req_path ≡ true)
    × (g.type ≡ true)
    × (g.dir_path ≡ true)
    × (g.redirect_url ≡ true)
    × Fills g.index
    × Fills g.upstreams

abbrev pub GivesServer : ServerAnswers → Type 0
GivesServer g =
    Always g.listener_given
    × Always g.hosts
    × Always g.listeners_grown
    × Always g.route_given
    × ((i : ℕ) → GivesRoute (g.routes i))
    × Always g.routes_grown
    × Fills g.hostnames

abbrev pub GivesConfig : ConfigAnswers → Type 0
GivesConfig g =
    (g.config ≡ true)
    × (g.config_path ≡ true)
    × Always g.server_given
    × ((i : ℕ) → GivesServer (g.servers i))
    × Always g.servers_grown

-- A route and a server as they are read where no copy fails.
abbrev pub strings : List Bytes → List (Option Bytes)
strings xs = map some xs

abbrev pub as_parsed : Route → ParsedRoute
as_parsed r = record {
  req_path = r.req_path;
  type = r.type;
  dir_path = r.dir_path;
  index = strings r.index;
  upstreams = strings r.upstreams;
  http_status_code = r.http_status_code;
  redirect_url = r.redirect_url;
  ip_whitelist = none;
  ip_blacklist = none;
}

abbrev pub server_as_parsed : Server → ParsedServer
server_as_parsed s = record {
  listeners = s.listeners;
  hostnames = strings s.hostnames;
  routes = map as_parsed s.routes;
}

push_items-map {ℓ κ κ'} :
    {A : Type ℓ} {B : Type κ'} (P : ℕ → A → Type κ) (f : A → B) (grown : Mallocs)
    (item : ℕ → Exec B) (i : ℕ) (xs : List A) (v : List B)
    → Always grown
    → ((n : ℕ) (x : A) → P n x → item n ≡ done (f x))
    → AllAt P i xs
    → push_items grown item (length xs) i v ≡ done (v ++ map f xs)
unfolding push_items
push_items-map P f grown item i [] v g reads h = rw (append-nil v)
push_items-map P f grown item i (x ∷ xs) v g reads (e, h) =
    >>=-done _ (reads i x e)
    ∙ rw (g i) (
        push_items-map P f grown item (i + 1) xs (v ++ (f x ∷ [])) g reads h
        ∙ ap done (append_assoc v (f x ∷ []) (map f xs)))

-- The list of all listeners only depends on those of the servers.
parse_all_listener-bare :
    (grown : ℕ → Mallocs) (i : ℕ) (servers : List Server) (all : List Listener)
    → parse_all_listener grown i (map bare (map server_as_parsed servers)) all
      ≡ parse_all_listener grown i servers all
unfolding parse_all_listener
parse_all_listener-bare grown i [] all = refl
parse_all_listener-bare grown i (s ∷ servers) all =
    parse_all_listener-bare grown (i + 1) servers (add_listeners (grown i) 0 s.listeners all)

module _ (json : Json) where
  -- An array that is missing holds nothing.
  abbrev pub Holds :
      {A : Type 0} → (P : Option json.Array → ℕ → A → Type 0) → Option json.Array → List A → Type 0
  Holds P none xs = xs ≡ []
  Holds P (some a) xs = (json.count (some a) ≡ length xs) × AllAt (P (some a)) 0 xs

  abbrev pub IsString : Option json.Array → ℕ → Bytes → Type 0
  IsString a i s = json.string_at a i ≡ some s

  abbrev pub IsListener : json.Object → Listener → Type 0
  IsListener o l =
      (json.get_string o (codes "host") ≡ l.host) × (json.get_number o (codes "port") ≡ l.port)

  abbrev pub HasNone : Option json.Array → Type 0
  HasNone none = Unit
  HasNone (some a) = json.count (some a) ≡ 0

  abbrev pub status_in : json.Object → ℕ
  status_in o =
      if json.has_value o (codes "http_status_code")
      then json.get_number o (codes "http_status_code")
      else 0

  -- The object says what the route holds, and lists no addresses.
  pub record IsRoute (o : json.Object) (r : Route) : Type 0 where
    pub path : json.get_string o (codes "req_path") ≡ r.req_path
    pub type : json.get_string o (codes "type") ≡ r.type
    pub dir : json.get_string o (codes "dir_path") ≡ r.dir_path
    pub url : json.get_string o (codes "redirect_url") ≡ r.redirect_url
    pub index : Holds IsString (json.get_array o (codes "index")) r.index
    pub upstreams : Holds IsString (json.get_array o (codes "upstreams")) r.upstreams
    pub status : status_in o ≡ r.http_status_code
    pub whitelist : HasNone (json.get_array o (codes "ip_whitelist"))
    pub no_whitelist : r.ip_whitelist ≡ none
    pub blacklist : HasNone (json.get_array o (codes "ip_blacklist"))
    pub no_blacklist : r.ip_blacklist ≡ none

  pub record IsServer (o : json.Object) (s : Server) : Type 0 where
    pub listeners :
        Holds
          (λ a i. IsListener (json.object_at a i))
          (json.get_array o (codes "listeners"))
          s.listeners
    pub routes :
        Holds (λ a i. IsRoute (json.object_at a i)) (json.get_array o (codes "routes")) s.routes
    pub hostnames : Holds IsString (json.get_array o (codes "hostnames")) s.hostnames

  copy_string-get_string :
      (given : Bool) (o : json.Object) (name : Bytes)
      → given ≡ true
      → copy_string json given o name ≡ done (json.get_string o name)
  unfolding copy_string str_create
  copy_string-get_string given o name g = elim (Option-cases (json.get_string o name)) [
    | inl e ↦ rw (e, copy_string)
    | inr (s, e) ↦ rw (e, copy_string) (rw g)
  ]

  copied :
      (given : Bool) (o : Option Bytes) (s : Bytes)
      → given ≡ true
      → o ≡ some s
      → str_create given o ≡ done (some s)
  unfolding str_create
  copied given o s g e = rw (e, str_create) (rw g)

  strings_of-Holds :
      (f : Filling) (a : Option json.Array) (xs : List Bytes)
      → Fills f
      → Holds IsString a xs
      → strings_of json f a ≡ done (strings xs)
  unfolding strings_of
  strings_of-Holds f none xs g h = rw h
  strings_of-Holds f (some a) xs (g, grown) (n, h) = rw n (
      push_items-map (IsString (some a)) some f.grown _ 0 xs [] grown
        (λ i x. copied (f.copied i) _ x (g i)) h)

  pub addresses_of-HasNone :
      (f : Filling) (a : Option json.Array) → HasNone a → addresses_of json f a none ≡ done none
  unfolding addresses_of push_addresses
  addresses_of-HasNone f none h = refl
  addresses_of-HasNone f (some a) h = rw (h, addresses_of)

  parse_listener-IsListener :
      (given : Bool) (o : json.Object) (l : Listener)
      → given ≡ true
      → IsListener o l
      → parse_listener json given o ≡ done l
  unfolding parse_listener
  parse_listener-IsListener given o l g (h, p) =
      >>=-done _ (copy_string-get_string given o (codes "host") g) ∙ rw h (rw p)

  parse_route-IsRoute :
      (g : RouteAnswers) (o : json.Object) (r : Route)
      → GivesRoute g
      → IsRoute o r
      → parse_route json g o ≡ done (as_parsed r)
  unfolding parse_route
  parse_route-IsRoute g o r (path, type, dir, url, index, upstreams) is =
      >>=-done _ (copy_string-get_string g.req_path o (codes "req_path") path)
      ∙ >>=-done _ (copy_string-get_string g.type o (codes "type") type)
      ∙ >>=-done _ (copy_string-get_string g.dir_path o (codes "dir_path") dir)
      ∙ >>=-done _ (copy_string-get_string g.redirect_url o (codes "redirect_url") url)
      ∙ >>=-done _ (strings_of-Holds g.index _ _ index is.index)
      ∙ >>=-done _ (strings_of-Holds g.upstreams _ _ upstreams is.upstreams)
      ∙ >>=-done _ (addresses_of-HasNone g.ip_whitelist _ is.whitelist)
      ∙ >>=-done _ (addresses_of-HasNone g.ip_blacklist _ is.blacklist)
      ∙ rw is.path (rw is.type (rw is.dir (rw is.url (rw is.status refl))))

  objects_of-Holds :
      {A B : Type 0} (given grown : Mallocs) (parse : ℕ → json.Object → Exec B) (f : A → B)
      (Is : json.Object → A → Type 0) (a : Option json.Array) (xs : List A)
      → Always given
      → Always grown
      → ((i : ℕ) (o : json.Object) (x : A) → Is o x → parse i o ≡ done (f x))
      → Holds (λ a i. Is (json.object_at a i)) a xs
      → objects_of json given grown parse a ≡ done (map f xs)
  unfolding objects_of
  objects_of-Holds given grown parse f Is none xs g more reads h = rw h
  objects_of-Holds given grown parse f Is (some a) xs g more reads (n, h) = rw n (
      push_items-map (λ i. Is (json.object_at (some a) i)) f grown _ 0 xs [] more
        (λ i x is. rw (g i) (reads i _ x is)) h)

  map_id : {A : Type 0} (xs : List A) → map (λ x. x) xs ≡ xs
  map_id [] = refl
  map_id (x ∷ xs) = ap (λ ys. x ∷ ys) (map_id xs)

  parse_server-IsServer :
      (g : ServerAnswers) (o : json.Object) (s : Server)
      → GivesServer g
      → IsServer o s
      → parse_server json g o ≡ done (server_as_parsed s)
  unfolding parse_server
  parse_server-IsServer g o s (listener, hosts, listeners, route, in_routes, routes, names) is =
      >>=-done _ (
        objects_of-Holds g.listener_given g.listeners_grown _ (λ l. l) IsListener _ _ listener
          listeners (λ i o l. parse_listener-IsListener (g.hosts i) o l (hosts i)) is.listeners
        ∙ ap done (map_id s.listeners))
      ∙ >>=-done _ (
          objects_of-Holds g.route_given g.routes_grown _ as_parsed IsRoute _ _ route routes
            (λ i o r. parse_route-IsRoute (g.routes i) o r (in_routes i)) is.routes)
      ∙ >>=-done _ (strings_of-Holds g.hostnames _ _ names is.hostnames)

  -- The servers of the root object.
  abbrev pub IsServers : json.Object → List Server → Type 0
  IsServers root servers =
      (json.count (json.get_array root (codes "servers")) ≡ length servers)
      × AllAt (λ i. IsServer (json.object_at (json.get_array root (codes "servers")) i)) 0 servers

  parse_servers-IsServers :
      (g : ConfigAnswers) (root : json.Object) (servers : List Server)
      → GivesConfig g
      → IsServers root servers
      → parse_servers json g (json.get_array root (codes "servers"))
        ≡ done (map server_as_parsed servers)
  unfolding parse_servers
  parse_servers-IsServers g root servers (_, _, given, gives, grown) (n, h) =
      let array = json.get_array root (codes "servers") in
      rw n (
        push_items-map (λ i. IsServer (json.object_at array i)) server_as_parsed g.servers_grown _ 0
          servers [] grown
          (λ i s is. rw (given i) (parse_server-IsServer (g.servers i) _ s (gives i) is)) h)

  -- For a file whose root object describes servers without addresses in their routes' lists, where the
  -- allocations succeed, the configuration that is created has the server name of the root object,
  -- those servers, with a copy of each of their strings, and the list of all listeners of those
  -- servers. The growth of that list may fail.
  pub config_create-IsServers :
      (g : ConfigAnswers) (root : json.Object) (servers : List Server)
      → GivesConfig g
      → IsServers root servers
      → config_create json g (some root)
        ≡ done (
            some (record {
              server_name = json.get_string root (codes "server_name");
              servers = map server_as_parsed servers;
              all_listeners = parse_all_listener g.all_grown 0 servers [];
            }))
  unfolding config_create
  config_create-IsServers g root servers gives is =
      rw (gives.0, config_create)
        (rw gives.1 (
          >>=-done _ (parse_servers-IsServers g root servers gives is)
          ∙ rw (parse_all_listener-bare g.all_grown 0 servers [])))

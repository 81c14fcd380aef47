-- ===== src/Config/Find/Servers.antt =====
-- src/config/xps_config.c: the choice of a server block.
use nw_lab.Config.{Listener, Server}
use nw_lab.Config.Find.{
  has_matching_listener, is_one_of, has_matching_hostname, serves, find_server,
}
use nw_lab.Prelude.{
  ℕ, ◌≡◌, ◌↔◌, refl, ap, ◌⊎◌, inl, inr, true, Bytes, List, [], ◌∷◌, ◌++◌, Option, none, some, arith,
  Bool-cases,
}
use nw_lab.Text.{strcmp_iff}

-- One of the listeners has the port.
abbrev pub HasPort : ℕ → List Listener → Type 0
HasPort port [] = ⊥
HasPort port (l ∷ listeners) = (port ≡ l.port) ⊎ HasPort port listeners

abbrev pub IsIn : Bytes → List Bytes → Type 0
IsIn name [] = ⊥
IsIn name (n ∷ names) = (name ≡ n) ⊎ IsIn name names

-- No names are given, or the request names no host, or its host is one of them.
abbrev pub NamesHost : Option Bytes → List Bytes → Type 0
NamesHost host [] = Unit {0}
NamesHost none (name ∷ names) = Unit {0}
NamesHost (some host) (name ∷ names) = IsIn host (name ∷ names)

abbrev pub Serves : ℕ → Option Bytes → Server → Type 0
Serves port host server = HasPort port server.listeners × NamesHost host server.hostnames

has_matching_listener_iff :
    (port : ℕ) (listeners : List Listener)
    → (has_matching_listener port listeners ≡ true) ↔ HasPort port listeners
unfolding has_matching_listener
has_matching_listener_iff port [] = ground arith
has_matching_listener_iff port (l ∷ listeners) =
    ground (arith, has_matching_listener_iff port listeners)

is_one_of_iff :
    (host : Bytes) (names : List Bytes) → (is_one_of (some host) names ≡ true) ↔ IsIn host names
unfolding is_one_of
is_one_of_iff host [] = ground arith
is_one_of_iff host (name ∷ names) = ground (arith, is_one_of_iff host names, strcmp_iff host name)

has_matching_hostname_iff :
    (host : Option Bytes) (names : List Bytes)
    → (has_matching_hostname host names ≡ true) ↔ NamesHost host names
unfolding has_matching_hostname is_one_of
has_matching_hostname_iff host [] = ground arith
has_matching_hostname_iff none (name ∷ names) = ground arith
has_matching_hostname_iff (some host) (name ∷ names) = is_one_of_iff host (name ∷ names)

serves_iff :
    (port : ℕ) (host : Option Bytes) (server : Server)
    → (serves port host server ≡ true) ↔ Serves port host server
unfolding serves
serves_iff port host server = ground (
  arith,
  has_matching_listener_iff port server.listeners,
  has_matching_hostname_iff host server.hostnames,
)

abbrev pub NoneServes : ℕ → Option Bytes → List Server → Type 0
NoneServes port host [] = Unit {0}
NoneServes port host (server ∷ servers) = (¬ Serves port host server) × NoneServes port host servers

-- The first of the servers that serves the port and the host.
pub record IsFirst (port : ℕ) (host : Option Bytes) (servers : List Server) (s : Server)
    : Type 0 where
  pub before : List Server
  pub after : List Server
  pub splits : servers ≡ before ++ (s ∷ after)
  pub serving : Serves port host s
  pub first : NoneServes port host before

-- The server block that is found is the first one that has a listener on the port, and no
-- hostnames or the request's host among them, where a request without a host matches any names;
-- none is found only if there is no such block.
pub find_server-IsFirst :
    (port : ℕ) (host : Option Bytes) (servers : List Server)
    → ((find_server port host servers ≡ none) × NoneServes port host servers)
      ⊎ ((s : Server) × (find_server port host servers ≡ some s) × IsFirst port host servers s)
unfolding find_server
find_server-IsFirst port host [] = inl (refl, tt)
find_server-IsFirst port host (s ∷ servers) = elim (Bool-cases (serves port host s)) [
  | inl hit ↦ inr (
    s,
    rw hit,
    record {
      before = [];
      after = servers;
      splits = refl;
      serving = (serves_iff port host s).0 hit;
      first = tt;
    },
  )
  | inr miss ↦
      let not_here : ¬ Serves port host s =
        λ h. ground (arith, (serves_iff port host s).1 h, miss) in
      elim (find_server-IsFirst port host servers) [
        | inl (run, none_serves) ↦ inl (rw miss run, (not_here, none_serves))
        | inr (s', run, found) ↦ inr (
          s',
          rw miss run,
          record {
            before = s ∷ found.before;
            after = found.after;
            splits = ap (◌∷◌ s) found.splits;
            serving = found.serving;
            first = (not_here, found.first);
          },
        )
      ]
]

-- ===== src/Network/Structs.antt =====
-- src/network/ and src/core/xps_core.h: connections and listeners beside the other structs of the core.
--
-- A connection, a listener or a session is a struct by its address; one that was freed is not there.
-- What the sockets answer is a parameter of each operation.
use nw_lab.Core.Loop.Events.{Loop}
use nw_lab.Core.Pipe.{Store}
use nw_lab.Core.Session.{Session, World}
use nw_lab.Prelude.{ℕ, Bytes, List, Option}

-- `xps_connection_s`, its core apart, of which there is one.
pub record Connection : Type 0 where
  pub sock_fd : ℕ
  pub listener : Option ℕ
  pub remote_ip : Option Bytes
  pub source : ℕ
  pub sink : ℕ

-- `xps_listener_s`, its core apart.
pub record Listener : Type 0 where
  pub host : Bytes
  pub port : ℕ
  pub sock_fd : ℕ

-- `xps_core_s`, its configuration apart. `world` holds the pipes and the list of sessions; `next` is the
-- next unused address, and `out` holds what each socket has taken for its peer.
pub record CoreState : Type 0 where
  pub loop : Loop
  pub listeners : List (Option ℕ)
  pub connections : List (Option ℕ)
  pub world : World
  pub n_null_listeners : ℕ
  pub n_null_connections : ℕ
  pub listener_at : ℕ → Option Listener
  pub connection_at : ℕ → Option Connection
  pub session_at : ℕ → Option Session
  pub next : ℕ
  pub out : ℕ → Bytes

abbrev pub store_of : CoreState → Store
store_of c = c.world.store

abbrev pub with_store : Store → CoreState → CoreState
with_store s c = record c { world = record c.world { store = s } }

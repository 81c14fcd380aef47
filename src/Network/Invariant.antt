-- ===== src/Network/Invariant.antt =====
-- src/core/xps_core.h and src/network/: what holds of the structs of the core between two handlers.
use nw_lab.Core.Loop.Events.{Event}
use nw_lab.Core.Loop.Events.Watched.{IsWatched}
use nw_lab.Core.Loop.Marks.{Has, Unique}
use nw_lab.Core.Pipe.{End}
use nw_lab.Core.Pipe.Stored.{IsStore}
use nw_lab.Network.Structs.{Connection, Listener, CoreState, store_of}
use nw_lab.Prelude.{ℕ, ◌≤◌, ◌≡◌, ◌⊎◌, false, none, some}

-- Both ends of the connection `n` are there and know it.
pub record HasEnds (c : CoreState) (n : ℕ) (connection : Connection) : Type 0 where
  pub source : End
  pub source_is : (store_of c).source_at connection.source ≡ some source
  pub source_owner : source.owner ≡ n
  pub sink : End
  pub sink_is : (store_of c).sink_at connection.sink ≡ some sink
  pub sink_owner : sink.owner ≡ n

-- The struct behind `ptr` of an event is a connection with the event's descriptor, or a listener, whose
-- events are only about reading.
abbrev pub Owned : CoreState → Event → Type 0
Owned c event =
    ((connection : Connection) × (c.connection_at event.ptr ≡ some connection)
      × (connection.sock_fd ≡ event.fd))
    ⊎ ((listener : Listener) × (c.listener_at event.ptr ≡ some listener)
        × (listener.sock_fd ≡ event.fd)
        × (event.write_cb ≡ false))

-- No event of the core's loop has the descriptor.
abbrev pub IsFreshFd : CoreState → ℕ → Type 0
IsFreshFd c fd =
    (e : ℕ) (event : Event)
    → Has e c.loop.events
    → c.loop.event_at e ≡ some event
    → ¬ (event.fd ≡ fd)

pub record IsCore (c : CoreState) : Type 0 where
  pub store : IsStore (store_of c)
  pub watched : IsWatched c.loop
  pub ends :
      (n : ℕ) (connection : Connection)
      → c.connection_at n ≡ some connection
      → HasEnds c n connection
  pub unused : (n : ℕ) → c.next ≤ n → (c.connection_at n ≡ none) × (c.listener_at n ≡ none)
  pub apart :
      (n : ℕ) (connection : Connection)
      → c.connection_at n ≡ some connection
      → c.listener_at n ≡ none
  pub listed :
      (n : ℕ)
      → Has n c.connections
      → (connection : Connection) × (c.connection_at n ≡ some connection)
  pub unique : Unique c.connections
  pub owned :
      (e : ℕ) (event : Event) → Has e c.loop.events → c.loop.event_at e ≡ some event → Owned c event
  pub one_each :
      (e e' : ℕ) (event event' : Event)
      → Has e c.loop.events
      → c.loop.event_at e ≡ some event
      → Has e' c.loop.events
      → c.loop.event_at e' ≡ some event'
      → event.fd ≡ event'.fd
      → e ≡ e'

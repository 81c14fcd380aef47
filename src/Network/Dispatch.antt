-- ===== src/Network/Dispatch.antt =====
-- src/core/xps_loop.c and src/network/: the callbacks of connections and listeners, called by the loop.
--
-- The state of the core is an instance of the loop's interface. The pointer of an event leads to a
-- listener or to a connection, whose functions `xps_loop_attach` was given. Which clients wait at a
-- listener is a function of the core.
pub mod Called
pub mod Handles
pub mod Tests
use nw_lab.Core.Loop.Events.{Callbacks}
use nw_lab.Network.Connection.{loop_read_handler, loop_write_handler}
use nw_lab.Network.Listener.{Arrival, listener_connection_handler}
use nw_lab.Network.Structs.{CoreState}
use nw_lab.Prelude.{ℕ, List, none, some, Exec}

unfoldable pub core_read :
    (waiting : CoreState → ℕ → List Arrival) → (ptr : ℕ) → CoreState → Exec CoreState
core_read waiting ptr c = elim (c.listener_at ptr) [
  | some listener ↦ listener_connection_handler (waiting c ptr) ptr c
  | none ↦ loop_read_handler ptr c
]

abbrev pub core_callbacks : (waiting : CoreState → ℕ → List Arrival) → Callbacks
core_callbacks waiting = record {
  State = CoreState;
  loop = λ c. c.loop;
  with_loop = λ l c. record c { loop = l };
  read = core_read waiting;
  write = loop_write_handler;
}

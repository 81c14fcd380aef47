-- ===== src/Network/Listener.antt =====
-- src/network/xps_listener.c: the handler of a listener, which takes the clients that wait.
--
-- `accept` is a parameter: the list of the clients that it gives before it would block, each with the
-- answers to the calls that follow.
pub mod Rounds
pub mod Accepts
use nw_lab.Core.Loop.Events.{loop_detach}
use nw_lab.Core.Pipe.{put, deref, mark_null}
use nw_lab.Core.Session.{Session, World, Upstream}
use nw_lab.Core.Session.Accept.{session_create}
use nw_lab.Network.Connection.{Answers, connection_create, connection_destroy}
use nw_lab.Network.Structs.{Connection, CoreState}
use nw_lab.Prelude.{
  ℕ, suc, ◌-◌, ◌^◌, Bool, true, false, List, [], ◌∷◌, Option, none, some, Exec, done, Mallocs,
  ◌>>=◌,
}

-- What `accept` answers, none for an error other than that it would block, and what the allocations
-- of the connection, of the session, its pipes, the growth of the core's list of sessions and of the
-- pipes, and `epoll_ctl` at the removal of the descriptor are answered.
pub record Arrival : Type 0 where
  pub sock : Option ℕ
  pub connection : Answers
  pub given : Mallocs
  pub pipe_given : ℕ → Mallocs
  pub pipe_grown : Mallocs
  pub grown : Bool
  pub deleted : Bool

-- An error is -1, which goes on as a `u_int`.
abbrev pub fd_of : Arrival → ℕ
fd_of x = elim x.sock [ none ↦ 2 ^ 32 - 1 | some fd ↦ fd ]

abbrev pub ends_of : Connection → Upstream
ends_of connection = record { source = connection.source; sink = connection.sink }

-- `client->listener = listener`.
unfoldable pub set_listener : (listener n : ℕ) → CoreState → Exec CoreState
set_listener l n c = do
  connection ← deref (c.connection_at n)
  done (record c {
    connection_at = put c.connection_at n (some (record connection { listener = some l }));
  })

-- The session has the next address. Whether the handler goes on.
unfoldable pub on_session :
    Arrival → (n : ℕ) → Option Session × World → CoreState → Exec (Bool × CoreState)
on_session x n (none, w) c =
    connection_destroy x.deleted n (record c { world = w; next = suc c.next }) >>= λ c1.
    done (false, c1)
on_session x n (some session, w) c = done (
  true,
  record c { world = w; session_at = put c.session_at c.next (some session); next = suc c.next },
)

unfoldable pub on_client : Arrival → (listener n : ℕ) → CoreState → Exec (Bool × CoreState)
unfolding set_listener on_session
on_client x l n c = do
  c1 ← set_listener l n c
  connection ← deref (c1.connection_at n)
  r ← session_create x.given x.pipe_given x.pipe_grown x.grown c1.next (ends_of connection) c1.world
  on_session x n r c1

-- One round of the loop.
unfoldable pub accept_one : Arrival → (listener : ℕ) → CoreState → Exec (Bool × CoreState)
unfolding on_client
accept_one x l c = connection_create x.connection (fd_of x) c >>= λ r. elim r.0 [
  | none ↦ done (false, r.1)
  | some n ↦ on_client x l n r.1
]

-- Every round reads the listener, also the last one, in which `accept` would block.
unfoldable pub listener_connection_handler :
    List Arrival → (listener : ℕ) → CoreState → Exec CoreState
listener_connection_handler [] l c = deref (c.listener_at l) >>= λ listener. done c
listener_connection_handler (x ∷ xs) l c = deref (c.listener_at l) >>= λ listener.
    accept_one x l c >>= λ r. elim r.0 [
      | true ↦ listener_connection_handler xs l r.1
      | false ↦ done r.1
    ]

-- `deleted` answers `epoll_ctl`; the number of NULLs is not counted.
unfoldable pub listener_destroy : (deleted : Bool) → (listener : ℕ) → CoreState → Exec CoreState
listener_destroy deleted l c = do
  listener ← deref (c.listener_at l)
  r ← loop_detach deleted listener.sock_fd c.loop
  done (record c {
    loop = r.1;
    listeners = (mark_null l c.listeners).1;
    listener_at = put c.listener_at l none;
  })

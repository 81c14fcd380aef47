-- ===== src/Network/Connection.antt =====
-- src/network/xps_connection.c: connections, created and destroyed, and the handlers of their ends.
--
-- What `recv`, `send` and `epoll_ctl` answer is a parameter.
pub mod Receives
pub mod Sends
pub mod Drains
pub mod Attaches
pub mod Creates
pub mod Destroys
use nw_lab.Buffer.{Buffer, buffer_create, contents}
use nw_lab.Core.Loop.Events.{Event, loop_attach, loop_detach}
use nw_lab.Core.Pipe.{
  put, deref, mark_null, source_create, sink_create, source_destroy, sink_destroy,
}
use nw_lab.Core.Pipe.Ready.{set_source_ready, set_sink_ready}
use nw_lab.Core.Pipe.Transfer.{source_write, sink_read, sink_clear}
use nw_lab.Core.Session.{available_at}
use nw_lab.Memory.{Alloc, memcpy}
use nw_lab.Network.Structs.{Connection, CoreState, store_of, with_store}
use nw_lab.Prelude.{
  ℕ, suc, Bool, true, false, Bytes, ◌++◌, Option, none, some, Exec, done, Mallocs, ◌>>=◌, ◌==◌,
  if◌then◌else◌, length, take,
}
use nw_lab.Status.{ok}
use nw_lab.Vec.{vec_push}

-- What the allocations of a connection, of its ends and of its event are answered, `epoll_ctl`, the
-- growth of the two lists, and `get_remote_ip`.
pub record Answers : Type 0 where
  pub given : Mallocs
  pub added : Bool
  pub grown_events : Bool
  pub grown : Bool
  pub remote_ip : Option Bytes

-- A connection that was created, or NULL.
abbrev pub Created : Type 0
Created = Exec (Option ℕ × CoreState)

-- From `xps_loop_attach` on: its failure frees the ends and the connection.
unfoldable pub connection_attach : Answers → (self sock_fd source sink : ℕ) → CoreState → Created
connection_attach a self sock_fd source sink c =
    let event : Event = record { fd = sock_fd; ptr = self; read_cb = true; write_cb = true } in
    let (code, loop) = loop_attach (a.given 3) a.added a.grown_events event c.loop in
    elim code [
      | ok ↦ done (
        some self,
        record c {
          loop = loop;
          connections = vec_push a.grown c.connections (some self);
          connection_at = put c.connection_at self (
              some (record {
                sock_fd = sock_fd;
                listener = none;
                remote_ip = a.remote_ip;
                source = source;
                sink = sink;
              }));
        },
      )
      | _ ↦ do
        s1 ← source_destroy source (store_of c)
        s2 ← sink_destroy sink s1
        done (none, with_store s2 (record c { loop = loop }))
    ]

unfoldable pub connection_sink : Answers → (self sock_fd source : ℕ) → CoreState → Created
unfolding connection_attach
connection_sink a self sock_fd source c =
    let (sink, s) = sink_create (a.given 2) self (store_of c) in
    elim sink [
      | none ↦ source_destroy source s >>= λ s1. done (none, with_store s1 c)
      | some k ↦ connection_attach a self sock_fd source k (with_store s c)
    ]

unfoldable pub connection_create : Answers → (sock_fd : ℕ) → CoreState → Created
unfolding connection_sink
connection_create a sock_fd c = elim (a.given 0) [
  | false ↦ done (none, c)
  | true ↦
      let (source, s) = source_create (a.given 1) c.next (store_of c) in
      elim source [
        | none ↦ done (none, with_store s (record c { next = suc c.next }))
        | some i ↦
            connection_sink a c.next sock_fd i (with_store s (record c { next = suc c.next }))
      ]
]

-- `deleted` answers `epoll_ctl`; the code of `xps_loop_detach` is not looked at.
unfoldable pub connection_destroy : (deleted : Bool) → (connection : ℕ) → CoreState → Exec CoreState
connection_destroy deleted n c = do
  connection ← deref (c.connection_at n)
  r ← loop_detach deleted connection.sock_fd c.loop
  s1 ← source_destroy connection.source (store_of c)
  s2 ← sink_destroy connection.sink s1
  done (
      with_store s2 (record c {
        loop = r.1;
        connections = (mark_null n c.connections).1;
        connection_at = put c.connection_at n none;
      }))

-- `connection_loop_read_handler` and `connection_loop_write_handler`.
unfoldable pub loop_read_handler : (connection : ℕ) → CoreState → Exec CoreState
loop_read_handler n c = do
  connection ← deref (c.connection_at n)
  s ← set_source_ready connection.source true (store_of c)
  done (with_store s c)

unfoldable pub loop_write_handler : (connection : ℕ) → CoreState → Exec CoreState
loop_write_handler n c = do
  connection ← deref (c.connection_at n)
  s ← set_sink_ready connection.sink true (store_of c)
  done (with_store s c)

-- `connection_close`, where `peer_closed` is only logged.
abbrev pub connection_close : (deleted : Bool) → (connection : ℕ) → CoreState → Exec CoreState
connection_close deleted n c = connection_destroy deleted n c

-- What `recv` answers: `EAGAIN` or `EWOULDBLOCK`, another error, or the bytes, of which there are none
-- where the peer has closed.
pub data Received : Type 0 where
  recv_again recv_error : Received
  recv_bytes : Bytes → Received

-- What `send` answers; `send_taken n` for the first `n` bytes.
pub data Taken : Type 0 where
  send_again send_error : Taken
  send_taken : ℕ → Taken

-- The answers to the calls of a handler: the allocations of its buffer and of the pipe's copy of it,
-- the growth of the lists, and `epoll_ctl`.
pub record Handling : Type 0 where
  pub buff : Alloc
  pub copy : Alloc
  pub grown : Bool
  pub cleared : Mallocs
  pub deleted : Bool

-- The write to the pipe; a pipe that refuses closes the connection.
unfoldable pub forward : Handling → (n : ℕ) → Connection → Buffer → CoreState → Exec CoreState
forward h n connection buff c =
    source_write h.copy h.grown connection.source buff (store_of c) >>= λ r. elim r.0 [
      | ok ↦ done (with_store r.1 c)
      | _ ↦ connection_close h.deleted n (with_store r.1 c)
    ]

-- No byte was received where the peer has closed.
unfoldable pub on_filled : Handling → (n : ℕ) → Connection → Buffer → CoreState → Exec CoreState
unfolding forward
on_filled h n connection buff c = elim (buff.len == 0) [
  | true ↦ connection_close h.deleted n c
  | false ↦ forward h n connection buff c
]

unfoldable pub on_received :
    Handling → Received → (n : ℕ) → Connection → Buffer → CoreState → Exec CoreState
unfolding on_filled
on_received h recv_again n connection buff c =
    set_source_ready connection.source false (store_of c) >>= λ s. done (with_store s c)
on_received h recv_error n connection buff c = connection_close h.deleted n c
on_received h (recv_bytes bytes) n connection buff c =
    memcpy buff.data_block 0 bytes 0 (length bytes) >>= λ block.
    on_filled h n connection (record buff { len = length bytes; data_block = block }) c

-- The connection is looked at only once there is a buffer.
unfoldable pub receive : Handling → Received → (n : ℕ) → Option Buffer → CoreState → Exec CoreState
unfolding on_received
receive h answer n none c = done c
receive h answer n (some buff) c =
    deref (c.connection_at n) >>= λ connection. on_received h answer n connection buff c

-- `ptr` is the source.
unfoldable pub source_handler : Handling → Received → (source : ℕ) → CoreState → Exec CoreState
unfolding receive
source_handler h answer i c = do
  source ← deref ((store_of c).source_at i)
  buff ← buffer_create h.buff 100000 0 none
  receive h answer source.owner buff c

-- `connection_source_close_handler` and `connection_sink_close_handler`.
unfoldable pub source_close_handler : (deleted : Bool) → (source : ℕ) → CoreState → Exec CoreState
source_close_handler deleted i c = do
  source ← deref ((store_of c).source_at i)
  connection ← deref (c.connection_at source.owner)
  elim source.active [
    | true ↦ done c
    | false ↦ deref ((store_of c).sink_at connection.sink) >>= λ sink. elim sink.active [
      | true ↦ done c
      | false ↦ connection_close deleted source.owner c
    ]
  ]

unfoldable pub sink_close_handler : (deleted : Bool) → (sink : ℕ) → CoreState → Exec CoreState
sink_close_handler deleted k c = do
  end ← deref ((store_of c).sink_at k)
  connection ← deref (c.connection_at end.owner)
  source ← deref ((store_of c).source_at connection.source)
  elim source.active [
    | true ↦ done c
    | false ↦ deref ((store_of c).sink_at connection.sink) >>= λ sink. elim sink.active [
      | true ↦ done c
      | false ↦ connection_close deleted end.owner c
    ]
  ]

-- The socket takes bytes for its peer.
abbrev pub emit : (fd : ℕ) → Bytes → CoreState → CoreState
emit fd bytes c = record c { out = λ j. if j == fd then c.out j ++ bytes else c.out j }

unfoldable pub on_taken :
    Handling → Taken → (n : ℕ) → Connection → Buffer → CoreState → Exec CoreState
on_taken h send_again n connection buff c =
    set_sink_ready connection.sink false (store_of c) >>= λ s. done (with_store s c)
on_taken h send_error n connection buff c = connection_close h.deleted n c
on_taken h (send_taken write_n) n connection buff c = elim (write_n == 0) [
  | true ↦ done c
  | false ↦ sink_clear h.cleared connection.sink write_n (store_of c) >>= λ r.
      done (with_store r.1 (emit connection.sock_fd (take write_n (contents buff)) c))
]

-- The buffer that was read from the pipe is offered to the socket.
unfoldable pub offer :
    Handling → (send : Bytes → Taken) → (n : ℕ) → Option Buffer → CoreState → Exec CoreState
unfolding on_taken
offer h send n none c = done c
offer h send n (some buff) c = deref (c.connection_at n) >>= λ connection.
    on_taken h (send (contents buff)) n connection buff c

unfoldable pub send_available :
    Handling → (send : Bytes → Taken) → (sink n available : ℕ) → CoreState → Exec CoreState
unfolding offer
send_available h send k n available c = elim (available == 0) [
  | true ↦ done c
  | false ↦ sink_read h.buff k available (store_of c) >>= λ o. offer h send n o c
]

-- `ptr` is the sink; `send` answers for the buffer that it is given.
unfoldable pub sink_handler :
    Handling → (send : Bytes → Taken) → (sink : ℕ) → CoreState → Exec CoreState
unfolding send_available
sink_handler h send k c = do
  end ← deref ((store_of c).sink_at k)
  available ← available_at k (store_of c)
  send_available h send k end.owner available c

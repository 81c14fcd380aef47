-- ===== src/Core/Session.antt =====
-- src/core/xps_session.c: the handlers that move bytes between a client, an upstream and a file.
--
-- A session is a value beside the store of the pipes' ends. A handler that destroys its session
-- leaves none.
pub mod Buffers
pub mod Moves
pub mod Respond
pub mod Serve
pub mod Accept
pub mod Tests
use nw_lab.Buffer.{Buffer}
use nw_lab.Config.{Lookup}
use nw_lab.Core.Pipe.{Store, deref, mark_null, source_destroy, sink_destroy}
use nw_lab.Core.Pipe.Ready.{set_source_ready, set_sink_ready}
use nw_lab.Core.Pipe.Transfer.{source_write, sink_read, sink_clear}
use nw_lab.Disk.File.{File}
use nw_lab.Http.Request.{HttpReq}
use nw_lab.Memory.{Alloc}
use nw_lab.Prelude.{
  ℕ, ◌+◌, ◌%◌, ◌^◌, Bool, true, false, not, ◌&&◌, ◌||◌, List, Option, none, some, Exec, done, abort,
  Mallocs, ◌>>=◌, ◌==◌, ltb, if◌then◌else◌,
}
use nw_lab.Status.{Code, ok}

-- The ends of the connection to an upstream.
pub record Upstream : Type 0 where
  pub source : ℕ
  pub sink : ℕ

-- `xps_session_s`, its core and its client apart; `self` is its address.
pub record Session : Type 0 where
  pub self : ℕ
  pub upstream_connected : Bool
  pub upstream_error_res_set : Bool
  pub upstream_write_bytes : ℕ
  pub client_source : ℕ
  pub client_sink : ℕ
  pub upstream_source : ℕ
  pub upstream_sink : ℕ
  pub file_sink : ℕ
  pub to_client_buff : Option Buffer
  pub from_client_buff : Option Buffer
  pub file : Option File
  pub upstream : Option Upstream
  pub http_req : Option HttpReq
  pub lookup : Option Lookup

-- The store, and the core's list of sessions with its number of NULLs.
pub record World : Type 0 where
  pub store : Store
  pub sessions : List (Option ℕ)
  pub n_null_sessions : ℕ

abbrev is_set : Option Buffer → Bool
is_set none = false
is_set (some b) = true

unfoldable pub set_to_client_buff : Option Buffer → Session → Store → Exec (Session × Store)
set_to_client_buff buff session s = do
  s1 ← set_source_ready session.client_source (is_set buff) s
  s2 ← set_sink_ready session.upstream_sink (not (is_set buff)) s1
  s3 ← set_sink_ready session.file_sink (not (is_set buff)) s2
  done (record session { to_client_buff = buff }, s3)

unfoldable pub set_from_client_buff : Option Buffer → Session → Store → Exec (Session × Store)
set_from_client_buff buff session s = do
  s1 ← set_sink_ready session.client_sink (not (is_set buff)) s
  s2 ← set_source_ready session.upstream_source (is_set buff) s1
  done (record session { from_client_buff = buff }, s2)

-- Whether bytes can still flow to the upstream or to the client.
unfoldable pub flowing : (us cs uk ck fk : Bool) → (to from : Bool) → Bool
flowing us cs uk ck fk to from = (us && (ck || from)) || (cs && (uk || to)) || (cs && (fk || to))

unfoldable pub session_destroy : Session → World → Exec World
session_destroy session w = do
  s1 ← source_destroy session.client_source w.store
  s2 ← sink_destroy session.client_sink s1
  s3 ← source_destroy session.upstream_source s2
  s4 ← sink_destroy session.upstream_sink s3
  s5 ← sink_destroy session.file_sink s4
  let (found, sessions) = mark_null session.self w.sessions
  done (record {
    store = s5;
    sessions = sessions;
    n_null_sessions = if found then w.n_null_sessions + 1 else w.n_null_sessions;
  })

unfoldable pub session_check_destroy : Session → World → Exec (Option Session × World)
unfolding flowing
session_check_destroy session w = do
  us ← deref (w.store.source_at session.upstream_source)
  ck ← deref (w.store.sink_at session.client_sink)
  cs ← deref (w.store.source_at session.client_source)
  uk ← deref (w.store.sink_at session.upstream_sink)
  fk ← deref (w.store.sink_at session.file_sink)
  let to = is_set session.to_client_buff
  let from = is_set session.from_client_buff
  elim (flowing us.active cs.active uk.active ck.active fk.active to from) [
    | true ↦ done (some session, w)
    | false ↦ session_destroy session w >>= λ w'. done (none, w')
  ]

abbrev is_ok : Code → Bool
is_ok ok = true
is_ok _ = false

-- `xps_pipe_source_write` asserts that there is a buffer.
abbrev buffer_of : Option Buffer → Exec Buffer
buffer_of none = abort
buffer_of (some b) = done b

unfoldable pub client_source_handler :
    Alloc → (grown : Bool) → Session → World → Exec (Option Session × World)
client_source_handler a grown session w = do
  buff ← buffer_of session.to_client_buff
  r ← source_write a grown session.client_source buff w.store
  elim (is_ok r.0) [
    | false ↦ done (some session, record w { store = r.1 })
    | true ↦ set_to_client_buff none session r.1 >>= λ t.
        session_check_destroy t.0 (record w { store = t.1 })
  ]

-- `client_source_close_handler`, `client_sink_close_handler`, `file_sink_close_handler`.
unfoldable pub close_handler : Session → World → Exec (Option Session × World)
close_handler session w = session_check_destroy session w

abbrev upstream_error_res : Session → Session
upstream_error_res session = record session { upstream_error_res_set = true }

-- `upstream_source_close_handler` and `upstream_sink_close_handler`.
unfoldable pub upstream_close_handler : Session → World → Exec (Option Session × World)
upstream_close_handler session w =
    if not session.upstream_connected && not session.upstream_error_res_set
    then session_check_destroy (upstream_error_res session) w
    else session_check_destroy session w

-- `sink->pipe->buff_list->len`.
unfoldable pub available_at : ℕ → Store → Exec ℕ
available_at i s = do
  sink ← deref (s.sink_at i)
  p ← deref sink.pipe
  pipe ← deref (s.pipe_at p)
  done pipe.buff_list.len

unfoldable pub take_all_from :
    Alloc
    → (grown : Mallocs) → (fresh : Bool) → ℕ
    → (available : ℕ) → Session
    → World
    → Exec (Session × World)
unfolding available_at
take_all_from a grown fresh i available session w = sink_read a i available w.store >>= λ r.
    elim r [
      | none ↦ done (session, w)
      | some buff ↦ do
        t ← set_to_client_buff (some buff) session w.store
        to_clear ← if fresh then available_at i t.1 else done available
        r ← sink_clear grown i to_clear t.1
        done (t.0, record w { store = r.1 })
    ]

-- Everything that a pipe holds becomes the buffer for the client. What is cleared is the length
-- that the pipe has then, or the length that was read.
unfoldable pub move_to_client :
    Alloc
    → (grown : Mallocs) → (fresh : Bool) → (sink : ℕ) → Session
    → World
    → Exec (Session × World)
unfolding available_at take_all_from
move_to_client a grown fresh i session w = available_at i w.store >>= λ available.
    elim (available == 0) [
      | true ↦ done (session, w)
      | false ↦ take_all_from a grown fresh i available session w
    ]

unfoldable pub upstream_sink_handler :
    Alloc → (grown : Mallocs) → Session → World → Exec (Session × World)
upstream_sink_handler a grown session w =
    move_to_client a grown false session.upstream_sink
      (record session { upstream_connected = true }) w

unfoldable pub file_sink_handler :
    Alloc → (grown : Mallocs) → Session → World → Exec (Session × World)
file_sink_handler a grown session w = move_to_client a grown true session.file_sink session w

-- `session->upstream_source->pipe->buff_list->len`.
waiting_at : ℕ → Store → Exec ℕ
waiting_at i s = do
  source ← deref (s.source_at i)
  p ← deref source.pipe
  pipe ← deref (s.pipe_at p)
  done pipe.buff_list.len

-- The upstream counts as connected once it has taken some of what was written. The sum is an
-- `unsigned long` of 64 bits.
note_written : Buffer → Session → Store → Exec Session
unfolding waiting_at
note_written buff session s = elim session.upstream_connected [
  | true ↦ done session
  | false ↦ do
    waiting ← waiting_at session.upstream_source s
    let written = (session.upstream_write_bytes + buff.len) % 2 ^ 64
    done (record session {
      upstream_write_bytes = written;
      upstream_connected = ltb waiting written;
    })
]

unfoldable pub upstream_source_handler :
    Alloc → (grown : Bool) → Session → World → Exec (Option Session × World)
unfolding note_written
upstream_source_handler a grown session w = do
  buff ← buffer_of session.from_client_buff
  r ← source_write a grown session.upstream_source buff w.store
  elim (is_ok r.0) [
    | false ↦ done (some session, record w { store = r.1 })
    | true ↦ do
      noted ← note_written buff session r.1
      t ← set_from_client_buff none noted r.1
      session_check_destroy t.0 (record w { store = t.1 })
  ]

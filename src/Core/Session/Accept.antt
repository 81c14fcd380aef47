-- ===== src/Core/Session/Accept.antt =====
-- src/core/xps_session.c: `xps_session_create` and `client_sink_handler`.
pub mod Refused
pub mod Extra
pub mod Joined
pub mod Creates
pub mod Starts
pub mod Tests
use nw_lab.Buffer.{Buffer}
use nw_lab.Core.Pipe.{Store, source_create, sink_create, source_destroy, sink_destroy, pipe_create}
use nw_lab.Core.Pipe.Ready.{set_sink_ready}
use nw_lab.Core.Pipe.Transfer.{sink_read, sink_clear}
use nw_lab.Core.Session.{Session, World, Upstream, available_at, set_from_client_buff}
use nw_lab.Core.Session.Serve.{Env, Served, session_process_request}
use nw_lab.Http.Request.{HttpReq}
use nw_lab.Http.Request.Create.{Error, returned, http_req_create, http_req_serialize}
use nw_lab.Memory.{Alloc}
use nw_lab.Prelude.{
  ℕ, Bool, true, false, Option, none, some, Exec, done, fault, Mallocs, ◌>>=◌, ◌==◌,
}
use nw_lab.Status.{ok}
use nw_lab.Vec.{vec_push}

-- What the allocations of the handler are answered: of the buffer that is read, of the request, and of
-- the request's text.
pub record Answers : Type 0 where
  pub read : Alloc
  pub req : Bool
  pub line : Mallocs
  pub round : ℕ → Mallocs
  pub struct : Bool
  pub block : Bool
  pub given : Mallocs
  pub text : Alloc
  pub grown : Mallocs

-- The buffer goes to the upstream, and what the client's pipe holds then is cleared.
unfoldable pub take_from_client : Mallocs → Option Buffer → Session → World → Exec (Session × World)
take_from_client grown buff session w = do
  t ← set_from_client_buff buff session w.store
  to_clear ← available_at session.client_sink t.1
  r ← sink_clear grown session.client_sink to_clear t.1
  done (t.0, record w { store = r.1 })

-- A request that was made is stored, and written down for the upstream.
unfoldable pub accept : Answers → Env → Option HttpReq → Session → World → Exec Served
unfolding take_from_client
accept a env none session w = fault
accept a env (some req) session w = do
  text ← http_req_serialize a.struct a.block a.given a.text req
  t ← take_from_client a.grown text (record session { http_req = some req }) w
  session_process_request env t.0 t.1

-- Every error is answered by `session_process_request` without a request.
unfoldable pub on_created : Answers → Env → Error → Option HttpReq → Session → World → Exec Served
unfolding accept
on_created a env (returned ok) req session w = accept a env req session w
on_created a env _ req session w = session_process_request env session w

-- `none` if the fuel of the header loop runs out.
unfoldable pub on_buffer :
    Answers → Env → Option HttpReq → Buffer → Session → World → Exec (Option Served)
unfolding on_created
on_buffer a env none buff session w = http_req_create a.req a.line a.round buff >>= λ o. elim o [
  | none ↦ done none
  | some created ↦ on_created a env created.error created.req session w >>= λ r. done (some r)
]
on_buffer a env (some req) buff session w =
    take_from_client a.grown (some buff) session w >>= λ t. done (some (some t.0, t.1))

unfoldable pub client_sink_handler : Answers → Env → Session → World → Exec (Option Served)
unfolding on_buffer
client_sink_handler a env session w = available_at session.client_sink w.store >>= λ available.
    elim (available == 0) [
      | true ↦ done (some (some session, w))
      | false ↦ sink_read a.read session.client_sink available w.store >>= λ o. elim o [
        | none ↦ done (some (some session, w))
        | some buff ↦ on_buffer a env session.http_req buff session w
      ]
    ]

-- The ends of a session that were created, in the order of their creation.
pub record Ends : Type 0 where
  pub client_source : Option ℕ
  pub client_sink : Option ℕ
  pub upstream_source : Option ℕ
  pub upstream_sink : Option ℕ
  pub file_sink : Option ℕ

-- `given 1` to `given 5` answer the allocations of the ends.
unfoldable pub create_ends : (given : Mallocs) → (self : ℕ) → Store → Ends × Store
create_ends given self s =
    let (cs, s1) = source_create (given 1) self s in
    let (ck, s2) = sink_create (given 2) self s1 in
    let (us, s3) = source_create (given 3) self s2 in
    let (uk, s4) = sink_create (given 4) self s3 in
    let (fk, s5) = sink_create (given 5) self s4 in
    (
      record {
        client_source = cs;
        client_sink = ck;
        upstream_source = us;
        upstream_sink = uk;
        file_sink = fk;
      },
      s5,
    )

unfoldable pub destroy_source : Option ℕ → Store → Exec Store
destroy_source none s = done s
destroy_source (some i) s = source_destroy i s

unfoldable pub destroy_sink : Option ℕ → Store → Exec Store
destroy_sink none s = done s
destroy_sink (some i) s = sink_destroy i s

unfoldable pub destroy_ends : Ends → Store → Exec Store
unfolding destroy_source destroy_sink
destroy_ends ends s = do
  s1 ← destroy_source ends.client_source s
  s2 ← destroy_sink ends.client_sink s1
  s3 ← destroy_source ends.upstream_source s2
  s4 ← destroy_sink ends.upstream_sink s3
  destroy_sink ends.file_sink s4

-- A session without a request, on its five ends. `lookup` is none until it is set.
abbrev pub new_session : (self cs ck us uk fk : ℕ) → Session
new_session self cs ck us uk fk = record {
  self = self;
  upstream_connected = false;
  upstream_error_res_set = false;
  upstream_write_bytes = 0;
  client_source = cs;
  client_sink = ck;
  upstream_source = us;
  upstream_sink = uk;
  file_sink = fk;
  to_client_buff = none;
  from_client_buff = none;
  file = none;
  upstream = none;
  http_req = none;
  lookup = none;
}

-- The pipes from and to the client, whose ends are `client`. Where one is not created, the ends of
-- the session are destroyed and the session is freed; the core's list is left as it is.
unfoldable pub attach_client :
    (pipe_given : ℕ → Mallocs) (pipe_grown : Mallocs)
    → (client : Upstream) → Ends
    → Session
    → World
    → Exec Served
unfolding destroy_ends
attach_client pipe_given pipe_grown client ends session w =
    pipe_create (pipe_given 0) (pipe_grown 0) 1000000 client.source session.client_sink w.store
    >>= λ r. elim r.0 [
      | none ↦ destroy_ends ends r.1 >>= λ s. done (none, record w { store = s })
      | some _ ↦
          pipe_create (pipe_given 1) (pipe_grown 1) 1000000 session.client_source client.sink r.1
          >>= λ q. elim q.0 [
            | none ↦ destroy_ends ends q.1 >>= λ s. done (none, record w { store = s })
            | some _ ↦ done (some session, record w { store = q.1 })
          ]
    ]

-- The sinks of the new session become ready, and it is added to the core's list.
unfoldable pub add_session :
    (pipe_given : ℕ → Mallocs) (pipe_grown : Mallocs) (grown : Bool)
    → (client : Upstream) → Ends
    → Session
    → World
    → Exec Served
unfolding attach_client
add_session pipe_given pipe_grown grown client ends session w = do
  s1 ← set_sink_ready session.client_sink true w.store
  s2 ← set_sink_ready session.upstream_sink true s1
  s3 ← set_sink_ready session.file_sink true s2
  attach_client pipe_given pipe_grown client ends session
      (record w { store = s3; sessions = vec_push grown w.sessions (some session.self) })

-- All five ends are needed; else those that are there are destroyed.
unfoldable pub start_session :
    (pipe_given : ℕ → Mallocs) (pipe_grown : Mallocs) (grown : Bool)
    → (self : ℕ) → (client : Upstream) → Ends
    → (cs ck us uk fk : Option ℕ) → World
    → Exec Served
unfolding destroy_ends add_session
start_session pipe_given pipe_grown grown self client ends (some cs) (some ck) (some us) (some uk)
      (some fk) w =
    add_session pipe_given pipe_grown grown client ends (new_session self cs ck us uk fk) w
start_session pipe_given pipe_grown grown self client ends _ _ _ _ _ w =
    destroy_ends ends w.store >>= λ s. done (none, record w { store = s })

-- `given 0` answers the allocation of the session, whose address is `self`.
unfoldable pub session_create :
    (given : Mallocs) (pipe_given : ℕ → Mallocs) (pipe_grown : Mallocs) (grown : Bool)
    → (self : ℕ) → (client : Upstream) → World
    → Exec Served
unfolding create_ends start_session
session_create given pipe_given pipe_grown grown self client w = elim (given 0) [
  | false ↦ done (none, w)
  | true ↦
      let (ends, s1) = create_ends given self w.store in
      start_session pipe_given pipe_grown grown self client ends ends.client_source ends.client_sink
        ends.upstream_source ends.upstream_sink ends.file_sink (record w { store = s1 })
]

-- ===== src/Core/Session/Respond.antt =====
-- src/core/xps_session.c: a response is created, given headers and a body, serialised, and becomes the
-- buffer for the client.
use nw_lab.Buffer.{Buffer}
use nw_lab.Core.Pipe.{End, Store}
use nw_lab.Core.Pipe.Links.{Linked}
use nw_lab.Core.Session.{Session, set_to_client_buff}
use nw_lab.Core.Session.Buffers.{set_to_client_buff-Linked}
use nw_lab.Http.Headers.{KeyVal, set_header, key_val}
use nw_lab.Http.Headers.Serialize.{pairs, Short}
use nw_lab.Http.Response.{HttpRes, http_res_create, http_res_serialize, response_line_of}
use nw_lab.Http.Response.Serialize.{IsBody, response_bytes, http_res_serialize-response_bytes}
use nw_lab.Memory.{Alloc, Sized}
use nw_lab.Prelude.{
  ℕ, ◌+◌, ◌≡◌, ◌≢◌, refl, sym, ◌∙◌, Bool, true, false, Bytes, List, [], ◌∷◌, ◌++◌, Option, none,
  some, Exec, done, Mallocs, ◌>>=◌, >>=-done, length, codes, append_assoc, append-nil,
}

-- What the allocations of a response are answered: of the struct, of each header, of the text of the
-- headers, and of the buffer.
pub record Memory : Type 0 where
  pub res : Bool
  pub header : ℕ → Mallocs
  pub grown : Mallocs
  pub struct : Bool
  pub block : Bool
  pub lines : Mallocs
  pub buff : Alloc

-- The calls of `xps_http_set_header`, from the header with number `i` on.
unfoldable pub set_headers : Memory → (i : ℕ) → List (Bytes × Bytes) → List KeyVal → List KeyVal
set_headers m i [] headers = headers
set_headers m i ((k, v) ∷ hs) headers =
    set_headers m (i + 1) hs (set_header (m.header i) (m.grown i) headers k v).1

abbrev pub server : Bytes × Bytes
server = (codes "Server", codes "eXpServer")

-- `hs` are the headers behind `Server`; a value that is NULL is a fault. Whether there was memory for
-- the response.
unfoldable pub respond :
    Memory
    → (status : ℕ) → (hs : Exec (List (Bytes × Bytes))) → (body : Option Buffer) → Session
    → Store
    → Exec (Bool × Session × Store)
respond m status hs body session s = elim (http_res_create m.res status) [
  | none ↦ done (false, session, s)
  | some res ↦ do
    headers ← hs
    buff ←
        http_res_serialize m.struct m.block m.lines m.buff
          (record res { headers = set_headers m 0 (server ∷ headers) []; body = body })
    t ← set_to_client_buff buff session s
    done (true, t.0, t.1)
]

-- All allocations succeed.
pub record IsGiving (m : Memory) : Type 0 where
  pub res : m.res ≡ true
  pub header : (i n : ℕ) → m.header i n ≡ true
  pub grown : (n : ℕ) → m.grown n ≡ true
  pub struct : m.struct ≡ true
  pub block : m.block ≡ true
  pub lines : (n : ℕ) → m.lines n ≡ true
  pub sized : Sized m.buff
  pub small : m.buff.struct ≡ true
  pub large : (n : ℕ) → (b : Bytes) × (m.buff.block n ≡ some b)

-- The buffer that holds a response.
abbrev pub reply_buffer : (status : ℕ) → List (Bytes × Bytes) → Option Buffer → Buffer
reply_buffer status hs body =
    let bytes = response_bytes (response_line_of status) (server ∷ hs) body in
    record { size = length bytes; len = length bytes; pos = 0; data_block = bytes }

-- The ends of a session that a response touches.
pub record HasEnds (session : Session) (s : Store) : Type 0 where
  pub client_end : End
  pub upstream_end : End
  pub file_end : End
  pub client : s.source_at session.client_source ≡ some client_end
  pub upstream : s.sink_at session.upstream_sink ≡ some upstream_end
  pub file : s.sink_at session.file_sink ≡ some file_end
  pub apart : session.file_sink ≢ session.upstream_sink

set_headers-pairs :
    (m : Memory) (i : ℕ) (hs : List (Bytes × Bytes)) (headers : List KeyVal)
    → IsGiving m
    → set_headers m i hs headers ≡ headers ++ pairs hs
unfolding set_headers set_header
set_headers-pairs m i [] headers g = sym (append-nil headers)
set_headers-pairs m i ((k, v) ∷ hs) headers g =
    rw (g.header i 0, g.header i 1, g.header i 2, g.grown i)
      (set_headers-pairs m (i + 1) hs (headers ++ (key_val k v ∷ [])) g
        ∙ append_assoc headers (key_val k v ∷ []) (pairs hs))

-- What a response leaves: its bytes are the buffer for the client, whose source is ready; the links
-- stay mutual, and no pipe changes.
abbrev pub Responded : Session → (s s' : Store) → Type 0
Responded session s s' =
    Linked s'
    × (s'.pipe_at ≡ s.pipe_at)
    × ((e : End) × (s'.source_at session.client_source ≡ some e) × (e.ready ≡ true))

pub respond-Responded :
    (m : Memory) (status : ℕ) (hs : List (Bytes × Bytes)) (body : Option Buffer) (session : Session)
    (s : Store)
    → IsGiving m
    → Linked s
    → HasEnds session s
    → Short (server ∷ hs)
    → IsBody body
    → (s' : Store) × (respond m status (done hs) body session s
        ≡ done (true, record session { to_client_buff = some (reply_buffer status hs body) }, s'))
      × Responded session s s'
unfolding respond http_res_create set_headers response_line_of
respond-Responded m status hs body session s g l ends short is_body =
    let res : HttpRes = record {
      response_line = response_line_of status;
      headers = set_headers m 0 (server ∷ hs) [];
      body = body;
    } in
    let (block, given) = g.large _ in
    let wrote =
      http_res_serialize-response_bytes m.lines m.buff res (server ∷ hs) block g.lines g.sized
        g.small (set_headers-pairs m 0 (server ∷ hs) [] g) short is_body given in
    let (s', set, linked, pipes, ready, _, _) =
      set_to_client_buff-Linked session s (some (reply_buffer status hs body)) ends.client_end
        ends.upstream_end ends.file_end l ends.client ends.upstream ends.file ends.apart in
    (
      s',
      rw (g.res, g.struct, g.block) (>>=-done _ wrote ∙ >>=-done _ set),
      (linked, pipes, (record ends.client_end { ready = true }, ready, refl)),
    )

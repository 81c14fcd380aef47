-- ===== src/Core/Session/Serve/Calls.antt =====
-- src/core/xps_session.c: the responses that a session and its lookup call for.
use nw_lab.Buffer.{Buffer, IsBuffer}
use nw_lab.Config.{Lookup, file_serve, redirect}
use nw_lab.Config.Resolve.{Found, config_lookup}
use nw_lab.Core.Pipe.{Store}
use nw_lab.Core.Pipe.Links.{Linked}
use nw_lab.Core.Session.{Session, World}
use nw_lab.Core.Session.Respond.{
  server, IsGiving, HasEnds, reply_buffer, Responded, respond-Responded,
}
use nw_lab.Core.Session.Serve.{Env, Served, reply, is_forbidden}
use nw_lab.Disk.File.{file_create}
use nw_lab.Http.Headers.Serialize.{Short}
use nw_lab.Http.Request.{HttpReq}
use nw_lab.Http.Response.Serialize.{IsBody}
use nw_lab.Prelude.{
  ℕ, ◌≡◌, ◌≢◌, refl, false, Bytes, List, [], ◌∷◌, Option, none, some, Exec, done, >>=-done, codes,
}
use nw_lab.Status.{Code, ok, e_notfound, e_permission}

-- The status of a file that cannot be sent.
abbrev pub refusal : Code → ℕ
refusal e_permission = 403
refusal e_notfound = 404
refusal _ = 500

-- The response, its status, its headers behind `Server` and its body, that a lookup calls for.
pub data Calls (env : Env) (path : Bytes) (session : Session) (w : World)
    : Found → ℕ → List (Bytes × Bytes) → Option Buffer → Type 0 where
  not_found : Calls env path session w (e_notfound, none) 404 [] none
  listing :
      (c : Code) (l : Lookup) (d : Bytes) (html : Buffer)
      → is_forbidden env.client_ip l ≡ false
      → l.type ≡ file_serve
      → l.dir_path ≡ some d
      → env.browse d path ≡ some html
      → IsBuffer html
      → Calls env path session w
          (c, some l)
          200
          ((codes "Content-Type", codes "text/html") ∷ [])
          (some html)
  no_listing :
      (c : Code) (l : Lookup) (d : Bytes)
      → is_forbidden env.client_ip l ≡ false
      → l.type ≡ file_serve
      → l.dir_path ≡ some d
      → env.browse d path ≡ none
      → Calls env path session w (c, some l) 500 [] none
  no_file :
      (c : Code) (l : Lookup) (f : Bytes) (e : Code)
      → is_forbidden env.client_ip l ≡ false
      → l.type ≡ file_serve
      → l.dir_path ≡ none
      → l.file_path ≡ some f
      → file_create env.os env.file_given env.source_given env.file_self f w.store
        ≡ done (e, none, w.store)
      → e ≢ ok
      → Calls env path session w (c, some l) (refusal e) [] none
  redirected :
      (c : Code) (l : Lookup) (url : Bytes)
      → is_forbidden env.client_ip l ≡ false
      → l.type ≡ redirect
      → l.redirect_url ≡ some url
      → Calls env path session w (c, some l) l.http_status_code ((codes "Location", url) ∷ []) none

-- The response that a session calls for.
pub data Answers (env : Env) (session : Session) (w : World)
    : ℕ → List (Bytes × Bytes) → Option Buffer → Type 0 where
  no_request : session.http_req ≡ none → Answers env session w 400 [] none
  no_path :
      (req : HttpReq)
      → session.http_req ≡ some req
      → req.path ≡ none
      → Answers env session w 400 [] none
  looked_up :
      (req : HttpReq) (path : Bytes) (found : Found) {status : ℕ} {hs : List (Bytes × Bytes)}
      {body : Option Buffer}
      → session.http_req ≡ some req
      → req.path ≡ some path
      → config_lookup env.file_system env.given env.joins env.config req env.port ≡ done found
      → Calls env path session w found status hs body
      → Answers env session w status hs body

-- The session is kept, and the response is the buffer for its client.
abbrev pub Replied :
    (status : ℕ) → List (Bytes × Bytes) → Option Buffer → Session → World → Exec Served → Type 0
Replied status hs body session w m =
    (kept : Session) × (s' : Store) × (m ≡ done (some kept, record w { store = s' }))
    × (kept.to_client_buff ≡ some (reply_buffer status hs body))
    × Responded session w.store s'

pub reply-Replied :
    (env : Env) (status : ℕ) (hs : List (Bytes × Bytes)) (body : Option Buffer) (session : Session)
    (w : World)
    → IsGiving env.memory
    → Linked w.store
    → HasEnds session w.store
    → Short (server ∷ hs)
    → IsBody body
    → Replied status hs body session w (reply env status (done hs) body session w)
unfolding reply
reply-Replied env status hs body session w g l ends short is_body =
    let (s', run, after) =
      respond-Responded env.memory status hs body session w.store g l ends short is_body in
    (
      record session { to_client_buff = some (reply_buffer status hs body) },
      s',
      >>=-done _ run,
      refl,
      after,
    )

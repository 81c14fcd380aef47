-- ===== src/Core/Session/Accept/Refused.antt =====
-- src/core/xps_session.c: what `client_sink_handler` does with bytes that are no request.
use nw_lab.Buffer.{Buffer}
use nw_lab.Core.Pipe.{Pipe, Store}
use nw_lab.Core.Pipe.Links.{Linked}
use nw_lab.Core.Pipe.Transfer.{sink_read}
use nw_lab.Core.Session.{Session, World}
use nw_lab.Core.Session.Accept.{Answers, on_created, on_buffer, client_sink_handler}
use nw_lab.Core.Session.Moves.{available_at_lem}
use nw_lab.Core.Session.Respond.{IsGiving, HasEnds, reply_buffer}
use nw_lab.Core.Session.Serve.{Env, session_process_request}
use nw_lab.Core.Session.Serve.Calls.{no_request}
use nw_lab.Core.Session.Serve.Replies.{session_process_request-Replied}
use nw_lab.Http.Request.{HttpReq}
use nw_lab.Http.Request.Create.{Created, Error, returned, status, http_req_create}
use nw_lab.Prelude.{
  ℕ, ◌<◌, ◌≡◌, ◌≢◌, refl, ap, ◌∙◌, false, [], none, some, Option, done, ◌>>=◌, >>=-done, ◌==◌,
  arith,
}
use nw_lab.Status.{ok, e_fail, e_again, e_next, e_notfound, e_permission, e_eof}

on_error :
    (a : Answers) (env : Env) (e : Error) (req : Option HttpReq) (session : Session) (w : World)
    → e ≢ returned ok
    → on_created a env e req session w ≡ session_process_request env session w
unfolding on_created
on_error a env (status n) req session w wrong = refl
on_error a env (returned ok) req session w wrong = absurd (wrong refl)
on_error a env (returned e_fail) req session w wrong = refl
on_error a env (returned e_again) req session w wrong = refl
on_error a env (returned e_next) req session w wrong = refl
on_error a env (returned e_notfound) req session w wrong = refl
on_error a env (returned e_permission) req session w wrong = refl
on_error a env (returned e_eof) req session w wrong = refl

-- Where a session without a request reads a buffer from its client that no request can be made of,
-- with whatever error, and the allocations of the response succeed, the response 400 becomes the
-- buffer for the client, the session is kept, and no pipe changes: the pipe of the client keeps what
-- it holds.
pub client_sink_handler-refused :
    (a : Answers) (env : Env) (session : Session) (w : World) (p : ℕ) (pipe : Pipe) (b : Buffer)
    (created : Created)
    → IsGiving env.memory
    → Linked w.store
    → HasEnds session w.store
    → w.store.pipe_at p ≡ some pipe
    → pipe.sink ≡ some session.client_sink
    → 0 < pipe.buff_list.len
    → sink_read a.read session.client_sink pipe.buff_list.len w.store ≡ done (some b)
    → session.http_req ≡ none
    → http_req_create a.req a.line a.round b ≡ done (some created)
    → created.error ≢ returned ok
    → (kept : Session) × (s' : Store) × (client_sink_handler a env session w
        ≡ done (some (some kept, record w { store = s' })))
      × (kept.to_client_buff ≡ some (reply_buffer 400 [] none))
      × (s'.pipe_at ≡ w.store.pipe_at)
unfolding client_sink_handler
client_sink_handler-refused a env session w p pipe b created g l ends at has some_len read no_req
      made wrong =
    let (kept, s', run, set, (_, pipes, _)) =
      session_process_request-Replied env session w g l ends (no_request no_req)
        (omega arith, tt) in
    (
      kept,
      s',
      >>=-done _ (available_at_lem w.store p session.client_sink pipe l at has)
          ∙ rw not_empty (
              >>=-done _ read
              ∙ ap (λ o. on_buffer a env o b session w) no_req
              ∙ refused
              ∙ >>=-done _ run),
      set,
      pipes,
    )
  where
    not_empty : (pipe.buff_list.len == 0) ≡ false
    not_empty = ground arith

    refused :
        on_buffer a env none b session w
        ≡ (session_process_request env session w >>= λ r. done (some r))
    refused =
        unfold on_buffer in
        >>=-done _ made
        ∙ ap (λ m. m >>= λ r. done (some r))
            (on_error a env created.error created.req session w wrong)

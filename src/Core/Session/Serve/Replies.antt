-- ===== src/Core/Session/Serve/Replies.antt =====
-- src/core/xps_session.c: which response `session_process_request` sets.
use nw_lab.Buffer.{Buffer}
use nw_lab.Config.{Lookup}
use nw_lab.Config.Resolve.{Found}
use nw_lab.Core.Pipe.{Store}
use nw_lab.Core.Pipe.Links.{Linked}
use nw_lab.Core.Session.{Session, World}
use nw_lab.Core.Session.Respond.{server, IsGiving, HasEnds}
use nw_lab.Core.Session.Serve.{
  Env, reply, error_reply, on_file, serve_file_path, serve_directory, serve_files, serve, on_found,
  process_request_of, process_request_with, session_process_request, location,
}
use nw_lab.Disk.File.{File, file_create}
use nw_lab.Http.Headers.Serialize.{Short}
use nw_lab.Prelude.{
  ℕ, ◌≡◌, ◌≢◌, refl, ap, Bytes, List, [], ◌∷◌, Option, none, some, done, codes, arith,
}
use nw_lab.Status.{Code, ok, e_fail, e_again, e_next, e_notfound, e_permission, e_eof}
use nw_lab.Core.Session.Serve.Calls.{
  not_found, listing, no_listing, no_file, redirected, no_request, no_path, looked_up, refusal,
  Calls, Answers, Replied, reply-Replied,
}

server-Short : Short (server ∷ [])
server-Short = (omega arith, tt)

-- The file and the lookup of a session are not among its ends.
keep_ends :
    (session : Session) (s : Store) (f : Option File) (l : Lookup)
    → HasEnds session s
    → HasEnds (record session { file = f; lookup = some l }) s
keep_ends session s f l e = record {
  client_end = e.client_end;
  upstream_end = e.upstream_end;
  file_end = e.file_end;
  client = e.client;
  upstream = e.upstream;
  file = e.file;
  apart = e.apart;
}

module _ (env : Env) (session : Session) (w : World) (g : IsGiving env.memory)
    (linked : Linked w.store) (ends : HasEnds session w.store) where
  error :
      (status : ℕ) (f : Option File) (l : Lookup)
      → Replied status [] none session w
          (error_reply env status (record session { file = f; lookup = some l }) w)
  error status f l =
      reply-Replied env status [] none _ w g linked (keep_ends session w.store f l ends)
        server-Short tt

  on_file-refusal :
      (f : Option File) (l : Lookup) (e : Code)
      → e ≢ ok
      → Replied
          (refusal e)
          []
          none
          session
          w
          (on_file env e none (record session { file = f; lookup = some l }) w)
  unfolding on_file
  on_file-refusal f l ok n = absurd (n refl)
  on_file-refusal f l e_fail n = error 500 f l
  on_file-refusal f l e_again n = error 500 f l
  on_file-refusal f l e_next n = error 500 f l
  on_file-refusal f l e_notfound n = error 404 f l
  on_file-refusal f l e_permission n = error 403 f l
  on_file-refusal f l e_eof n = error 500 f l

  at_file :
      (o : Option Bytes) (l : Lookup) (f : Bytes) (e : Code)
      → o ≡ some f
      → file_create env.os env.file_given env.source_given env.file_self f w.store
        ≡ done (e, none, w.store)
      → e ≢ ok
      → Replied
          (refusal e)
          []
          none
          session
          w
          (serve_file_path env o (record session { lookup = some l }) w)
  unfolding serve_file_path
  at_file none l f e at run n = cc
  at_file (some o) l f e at run n =
      let same : o ≡ f = cc in
      let run_o : file_create env.os env.file_given env.source_given env.file_self o w.store
          ≡ done (e, none, w.store) =
        rw same run in
      rw run_o (on_file-refusal none l e n)

  to_location :
      (o : Option Bytes) (l : Lookup) (url : Bytes)
      → o ≡ some url
      → Short (server ∷ (codes "Location", url) ∷ [])
      → Replied l.http_status_code
          ((codes "Location", url) ∷ [])
          none
          session
          w
          (reply env l.http_status_code (location o) none (record session { lookup = some l }) w)
  to_location o l url at short = rw at (
      reply-Replied env l.http_status_code _ none _ w g linked
        (keep_ends session w.store session.file l ends) short tt)

  looking : Lookup → Session
  looking l = record session { lookup = some l }

  Calls-Replied :
      (path : Bytes) {found : Found} {status : ℕ} {hs : List (Bytes × Bytes)} {body : Option Buffer}
      → Calls env path session w found status hs body
      → Short (server ∷ hs)
      → Replied status hs body session w (on_found env path found session w)
  unfolding on_found serve serve_files serve_directory serve_file_path looking
  Calls-Replied path not_found short =
      reply-Replied env 404 [] none session w g linked ends server-Short tt
  Calls-Replied path (listing c l d html a t at b v) short =
      rw (a, on_found)
        (rw (ap (λ x. serve env path x l (looking l) w) t) (
          rw (ap (λ x. serve_files env path x l (looking l) w) at) (
            rw b (
              reply-Replied env 200 _ (some html) _ w g linked
                (keep_ends session w.store session.file l ends) short v))))
  Calls-Replied path (no_listing c l d a t at b) short =
      rw (a, on_found)
        (rw (ap (λ x. serve env path x l (looking l) w) t) (
          rw (ap (λ x. serve_files env path x l (looking l) w) at)
            (rw b (error 500 session.file l))))
  Calls-Replied path (no_file c l f e a t nd at run n) short =
      rw (a, on_found)
        (rw (ap (λ x. serve env path x l (looking l) w) t)
          (rw (ap (λ x. serve_files env path x l (looking l) w) nd) (at_file _ l f e at run n)))
  Calls-Replied path (redirected c l url a t at) short =
      rw (a, on_found)
        (rw (ap (λ x. serve env path x l (looking l) w) t)
          (to_location l.redirect_url l url at short))

  -- The response that the session calls for becomes the buffer for its client, whose source is then
  -- ready: where the allocations succeed, the links are mutual, the ends are there and no header line
  -- needs more than 100000 bytes, the session is kept, and neither the links nor a pipe change. The
  -- status is 400 without a request or its path, 404 where the lookup finds nothing, 200 with the
  -- listing of a directory and 500 without it, 403, 404 or 500 for a file that cannot be opened, and
  -- the route's for a redirection.
  pub session_process_request-Replied :
      {status : ℕ} {hs : List (Bytes × Bytes)} {body : Option Buffer}
      → Answers env session w status hs body
      → Short (server ∷ hs)
      → Replied status hs body session w (session_process_request env session w)
  unfolding session_process_request process_request_with process_request_of
  session_process_request-Replied (no_request e) short =
      rw (ap (λ o. process_request_with env o session w) e)
        (reply-Replied env 400 [] none session w g linked ends server-Short tt)
  session_process_request-Replied (no_path req e p) short =
      rw (ap (λ o. process_request_with env o session w) e) (
        rw (ap (λ o. process_request_of env req o session w) p)
          (reply-Replied env 400 [] none session w g linked ends server-Short tt))
  session_process_request-Replied (looked_up req path found e p run calls) short =
      rw (ap (λ o. process_request_with env o session w) e) (
        rw (ap (λ o. process_request_of env req o session w) p)
          (rw run (Calls-Replied path calls short)))

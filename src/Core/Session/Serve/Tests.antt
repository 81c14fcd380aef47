-- ===== src/Core/Session/Serve/Tests.antt =====
-- src/core/xps_session.c: serving a request on concrete input.
use nw_lab.Config.{Lookup, redirect}
use nw_lab.Config.Find.{
  find_server, find_route, best_route, consider, serves, has_matching_listener,
  has_matching_hostname, is_one_of,
}
use nw_lab.Config.Resolve.{
  config_lookup, on_server, on_route, by_type, redirect_to, type_of, is_keep_alive, blank_lookup,
}
use nw_lab.Config.Resolve.Types.{EachReady}
use nw_lab.Config.Tests.{served, asked, disk, given}
use nw_lab.Core.Session.{Session}
use nw_lab.Core.Session.Respond.{Memory, IsGiving, HasEnds}
use nw_lab.Core.Session.Serve.{Env, is_forbidden, is_listed, session_process_request}
use nw_lab.Core.Session.Serve.Replies.{session_process_request-Replied}
use nw_lab.Core.Session.Serve.Calls.{looked_up, redirected, Answers, Replied}
use nw_lab.Core.Session.Serve.Routed.{Routed, session_process_request-Routed}
use nw_lab.Core.Session.Tests.{session, world, store-Linked, zeroed, zeroed-Sized, unbound, bound}
use nw_lab.Disk.File.Tests.{os}
use nw_lab.Http.Headers.{get_header}
use nw_lab.Http.Request.{HttpReq}
use nw_lab.Prelude.{
  ◌≡◌, refl, true, false, [], ◌∷◌, none, some, fault, done, codes, arith, replicate,
}
use nw_lab.Status.{ok}
use nw_lab.Text.{strcmp_eq, strcasecmp_eq, strncmp_eq}
use nw_lab.Utils.{str_starts_with, str_create}

abbrev pub memory : Memory
memory = record {
  res = true;
  header = λ i. given;
  grown = given;
  struct = true;
  block = true;
  lines = given;
  buff = zeroed;
}

pub memory-IsGiving : IsGiving memory
memory-IsGiving = record {
  res = refl;
  header = λ i n. refl;
  grown = λ n. refl;
  struct = refl;
  block = refl;
  lines = λ n. refl;
  sized = zeroed-Sized;
  small = refl;
  large = λ n. (replicate n 0, refl);
}

abbrev pub env : Env
env = record {
  config = served;
  port = 8001;
  client_ip = codes "127.0.0.1";
  file_system = disk;
  given = given;
  joins = given;
  os = os;
  file_given = true;
  source_given = true;
  file_self = 20;
  memory = memory;
  pipe_given = λ i. given;
  pipe_grown = given;
  browse = λ dir_path pathname. none;
  scan_upstream = λ address. fault;
  upstream_create = λ host port w. done (none, w);
}

abbrev moved : HttpReq
moved = record asked { path = some (codes "/x") }

abbrev client : Session
client = record session { http_req = some moved }

abbrev moved_to : Lookup
moved_to = record (blank_lookup redirect false) {
  http_status_code = 302;
  redirect_url = some (codes "/api/new");
}

client-HasEnds : HasEnds client world.store
client-HasEnds = record {
  client_end = unbound;
  upstream_end = unbound;
  file_end = bound;
  client = refl;
  upstream = refl;
  file = refl;
  apart = ground arith;
}

client-Answers : Answers env client world 302 ((codes "Location", codes "/api/new") ∷ []) none
unfolding is_forbidden is_listed
client-Answers =
    looked_up moved (codes "/x") (ok, some moved_to) refl refl found
      (redirected ok moved_to (codes "/api/new") refl refl refl)
  where
    found : config_lookup disk given given served moved 8001 ≡ done (ok, some moved_to)
    found =
        unfold config_lookup get_header strcasecmp_eq on_server find_server serves
          has_matching_listener has_matching_hostname is_one_of find_route best_route consider
          str_starts_with strncmp_eq strcmp_eq on_route by_type redirect_to type_of is_keep_alive
          str_create in
        refl

session_process_request-Replied_example :
    Replied 302
      ((codes "Location", codes "/api/new") ∷ [])
      none
      client
      world
      (session_process_request env client world)
session_process_request-Replied_example =
    session_process_request-Replied env client world memory-IsGiving store-Linked client-HasEnds
      client-Answers (omega arith, (omega arith, tt))

session_process_request-Routed_example :
    Routed env
      (codes "/x")
      (some (codes "a.org"))
      client
      world
      (session_process_request env client world)
session_process_request-Routed_example =
    session_process_request-Routed env client world moved (codes "/x") (some (codes "a.org")) none
      refl (λ n. refl) (λ n. refl) ready refl (refl, (refl, tt)) host_found no_connection
  where
    ready : EachReady served.servers
    ready =
        unfold type_of strcmp_eq in
        (
          (
            (codes "/", refl, codes "redirect", refl, (codes "/api/new", refl)),
            ((codes "/api", refl, codes "reverse_proxy", refl, tt), tt),
          ),
          tt,
        )

    host_found : get_header moved.headers (codes "host") ≡ done (some (codes "a.org"))
    host_found = unfold get_header strcasecmp_eq in refl

    no_connection : get_header moved.headers (codes "Connection") ≡ done none
    no_connection = unfold get_header strcasecmp_eq in refl

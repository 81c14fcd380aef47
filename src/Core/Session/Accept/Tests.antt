-- ===== src/Core/Session/Accept/Tests.antt =====
-- src/core/xps_session.c: a client that sends "hello", which its pipe 0 holds for its sink 3.
use nw_lab.Buffer.{Buffer, buffer_create}
use nw_lab.Buffer.Lists.{buffer_list_read, read_loop}
use nw_lab.Core.Pipe.{Pipe, End, Store, put}
use nw_lab.Core.Pipe.Links.{Linked}
use nw_lab.Core.Pipe.Stored.{IsStore}
use nw_lab.Core.Pipe.Transfer.{sink_read, read_from}
use nw_lab.Core.Session.{Session, World, Upstream}
use nw_lab.Core.Session.Accept.{Answers, client_sink_handler, session_create}
use nw_lab.Core.Session.Accept.Joined.{IsServed}
use nw_lab.Core.Session.Accept.Refused.{client_sink_handler-refused}
use nw_lab.Core.Session.Accept.Starts.{AllGranted, session_create-IsServed}
use nw_lab.Core.Session.Respond.{HasEnds, reply_buffer}
use nw_lab.Core.Session.Serve.{Served}
use nw_lab.Core.Session.Serve.Tests.{env, memory-IsGiving}
use nw_lab.Core.Session.Tests.{session, store, world, file_pipe, bound, unbound, zeroed}
use nw_lab.Http.Request.{process_request_line}
use nw_lab.Http.Request.Create.{http_req_create, bad_request}
use nw_lab.Http.RequestLine.{parse_request_line}
use nw_lab.Memory.{memcpy}
use nw_lab.Prelude.{ℕ, ◌≡◌, refl, true, [], Option, none, some, done, Mallocs, codes, arith}

abbrev always : Mallocs
always n = true

abbrev answers : Answers
answers = record {
  read = zeroed;
  req = true;
  line = always;
  round = λ i. always;
  struct = true;
  block = true;
  given = always;
  text = zeroed;
  grown = always;
}

abbrev no_ends : ℕ → Option End
no_ends i = none

abbrev client_pipe : Pipe
client_pipe = record file_pipe { sink = some 3 }

abbrev talking : World
talking = record world {
  store = record store {
    pipe_at = put (λ i. none) 0 (some client_pipe);
    sink_at = put (put (put no_ends 3 (some bound)) 4 (some unbound)) 5 (some unbound);
  };
}

talking-Linked : Linked talking.store
talking-Linked = record { sources = λ p i. ground arith; sinks = λ p i. ground arith }

session-HasEnds : HasEnds session talking.store
session-HasEnds = record {
  client_end = unbound;
  upstream_end = unbound;
  file_end = unbound;
  client = refl;
  upstream = refl;
  file = refl;
  apart = ground arith;
}

abbrev heard : Buffer
heard = record { size = 5; len = 5; pos = 0; data_block = codes "hello" }

heard_lem : sink_read zeroed 3 5 talking.store ≡ done (some heard)
unfolding sink_read read_from buffer_list_read buffer_create read_loop memcpy
heard_lem = refl

unmade_lem : http_req_create true always (λ i. always) heard ≡ done (some (bad_request heard))
unfolding http_req_create process_request_line parse_request_line
unmade_lem = refl

client_sink_handler-refused_example :
    (kept : Session) × (s' : Store) × (client_sink_handler answers env session talking
      ≡ done (some (some kept, record talking { store = s' })))
    × (kept.to_client_buff ≡ some (reply_buffer 400 [] none))
    × (s'.pipe_at ≡ talking.store.pipe_at)
client_sink_handler-refused_example =
    client_sink_handler-refused answers env session talking 0 client_pipe heard (bad_request heard)
      memory-IsGiving talking-Linked session-HasEnds refl refl (omega arith) heard_lem refl
      unmade_lem (λ h. cc)

-- A client whose two ends have no pipe.
abbrev waiting : Store
waiting = record {
  pipe_at = λ i. none;
  source_at = put no_ends 1 (some unbound);
  sink_at = put no_ends 2 (some unbound);
  next = 3;
  pipes = [];
  n_null_pipes = 0;
}

waiting-IsStore : IsStore waiting
waiting-IsStore = record {
  linked = record { sources = λ p i. ground arith; sinks = λ p i. ground arith };
  unused = λ j le. record { pipe_is = refl; source_is = ground arith; sink_is = ground arith };
}

abbrev visited : World
visited = record world { store = waiting }

abbrev visitor : Upstream
visitor = record { source = 1; sink = 2 }

session_create-IsServed_example :
    (r : Served) × (session_create always (λ i. always) always true 7 visitor visited ≡ done r)
    × IsServed (AllGranted always (λ i. always)) 7 visitor waiting r
session_create-IsServed_example =
    session_create-IsServed always (λ i. always) always true 7 visitor visited waiting-IsStore
      (unbound, refl, refl) (unbound, refl, refl)

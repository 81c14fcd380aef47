-- ===== src/Core/Session/Tests.antt =====
-- A session on a concrete store: its file sink 4 reads pipe 0, its other ends have no pipe.
use nw_lab.Buffer.{Buffer, IsBuffer}
use nw_lab.Buffer.Lists.{BufferList}
use nw_lab.Buffer.Queued.{IsQueue}
use nw_lab.Core.Pipe.{Pipe, End, Store, put}
use nw_lab.Core.Pipe.Links.{Linked}
use nw_lab.Core.Session.{Session, World}
use nw_lab.Core.Session.Moves.{Moved, move_to_client-Moved}
use nw_lab.Memory.{Alloc, Sized}
use nw_lab.Prelude.{
  ℕ, refl, true, false, [], ◌∷◌, Option, none, some, codes, arith, replicate, length-replicate,
}

abbrev hello : Buffer
hello = record { size = 8; len = 5; pos = 0; data_block = codes "hello..." }

abbrev list : BufferList
list = record { list = some hello ∷ []; len = 5 }

hello-IsBuffer : IsBuffer hello
hello-IsBuffer = record { len_le = omega arith; size_le = omega arith }

list-IsQueue : IsQueue list
list-IsQueue = record { buffers = (hello-IsBuffer, tt); counted = refl }

abbrev pub file_pipe : Pipe
file_pipe = record { source = none; sink = some 4; buff_list = list; buff_thresh = 9 }

abbrev pub bound : End
bound = record { pipe = some 0; ready = true; active = true; owner = 7 }

abbrev pub unbound : End
unbound = record { pipe = none; ready = false; active = true; owner = 7 }

abbrev no_ends : ℕ → Option End
no_ends i = none

abbrev pub store : Store
store = record {
  pipe_at = put (λ i. none) 0 (some file_pipe);
  source_at = put (put no_ends 1 (some unbound)) 2 (some unbound);
  sink_at = put (put (put no_ends 3 (some unbound)) 4 (some bound)) 5 (some unbound);
  next = 8;
  pipes = some 0 ∷ [];
  n_null_pipes = 0;
}

pub store-Linked : Linked store
store-Linked = record { sources = λ p i. ground arith; sinks = λ p i. ground arith }

abbrev pub session : Session
session = record {
  self = 7;
  upstream_connected = false;
  upstream_error_res_set = false;
  upstream_write_bytes = 0;
  client_source = 1;
  client_sink = 3;
  upstream_source = 2;
  upstream_sink = 5;
  file_sink = 4;
  to_client_buff = none;
  from_client_buff = none;
  file = none;
  upstream = none;
  http_req = none;
  lookup = none;
}

abbrev pub world : World
world = record { store = store; sessions = some 7 ∷ []; n_null_sessions = 0 }

abbrev pub zeroed : Alloc
zeroed = record { struct = true; block = λ n. some (replicate n 0) }

pub zeroed-Sized : Sized zeroed
zeroed-Sized n b e = grind (arith, length-replicate {A = ℕ} n 0)

move_to_client-Moved_example : Moved zeroed true 0 4 file_pipe session world
move_to_client-Moved_example =
    move_to_client-Moved zeroed true session world 0 4 file_pipe unbound unbound bound
      (replicate 5 0) store-Linked refl refl refl (ground arith) refl refl list-IsQueue
      (omega arith) zeroed-Sized refl refl

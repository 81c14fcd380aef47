-- ===== src/Network/Tests.antt =====
-- Connections and listeners on a concrete core.
pub mod Sample
use nw_lab.Buffer.Queued.{queued}
use nw_lab.Memory.{Alloc, Sized}
use nw_lab.Network.Connection.{
  Answers, Handling, Received, Taken, recv_bytes, send_taken, source_handler, sink_handler,
  connection_create, connection_destroy,
}
use nw_lab.Network.Connection.Creates.{IsCreated, connection_create-IsCreated}
use nw_lab.Network.Connection.Destroys.{IsDestroyed, connection_destroy-IsDestroyed}
use nw_lab.Network.Connection.Drains.{IsTaking, IsGenerous, Delivered, run_sink, run_sink-Delivered}
use nw_lab.Network.Connection.Receives.{AfterReceive, source_handler-AfterReceive}
use nw_lab.Network.Connection.Sends.{IsDraining, AfterSend, sink_handler-AfterSend}
use nw_lab.Network.Invariant.{IsCore}
use nw_lab.Network.Listener.{Arrival, listener_connection_handler}
use nw_lab.Network.Listener.Accepts.{
  AllGranted, AllTaken, AreWaiting, KeepsConnections, KeepsEvents,
  listener_connection_handler-AllTaken,
}
use nw_lab.Network.Structs.{CoreState}
use nw_lab.Prelude.{
  ℕ, ◌≤◌, ◌<◌, ◌≡◌, refl, ◌⊎◌, true, List, [], ◌∷◌, Option, none, some, done, Bytes, codes, arith,
  length, replicate, length-replicate,
}
use nw_lab.Network.Tests.Sample.{
  list, list-IsQueue, pipe, end, store-Linked, connection, listener, core, core-IsCore, fresh,
}

abbrev zeroed : Alloc
zeroed = record { struct = true; block = λ n. some (replicate n 0) }

zeroed-Sized : Sized zeroed
zeroed-Sized n b e = grind (arith, length-replicate {A = ℕ} n 0)

abbrev handling : Handling
handling = record {
  buff = zeroed;
  copy = zeroed;
  grown = true;
  cleared = λ i. true;
  deleted = true;
}

abbrev message : Received
message = recv_bytes (codes "hi")

source_handler-AfterReceive_example :
    AfterReceive handling core 10 0 connection end pipe message
      (source_handler handling message 1 core)
source_handler-AfterReceive_example =
    source_handler-AfterReceive handling message core 10 1 0 connection end pipe
      (replicate 100000 0) (replicate 100000 0)
      (record {
        linked = store-Linked;
        connection_is = refl;
        source_is = refl;
        end_is = refl;
        owner_is = refl;
        pipe_is = refl;
        has = refl;
        queue = list-IsQueue;
      })
      (record {
        sized = zeroed-Sized;
        struct = refl;
        block_is = refl;
        copy_sized = zeroed-Sized;
        copy_struct = refl;
        copied_is = refl;
        grown = refl;
      })
      within
  where
    within : (bytes : Bytes) → message ≡ recv_bytes bytes → length bytes ≤ 100000
    within bytes e = let same : codes "hi" ≡ bytes = cc in rw (← same) (omega arith)

core-IsDraining : IsDraining core 10 2 0 connection end pipe
core-IsDraining = record {
  linked = store-Linked;
  connection_is = refl;
  sink_is = refl;
  end_is = refl;
  owner_is = refl;
  pipe_is = refl;
  has = refl;
  queue = list-IsQueue;
}

-- A socket that takes one byte of whatever it is offered, if there is one.
abbrev one_byte : Bytes → Taken
one_byte [] = send_taken 0
one_byte (x ∷ q) = send_taken 1

one_byte-IsTaking : IsTaking one_byte
one_byte-IsTaking = record { within = within; progress = progress }
  where
    within : (offered : Bytes) (w : ℕ) → one_byte offered ≡ send_taken w → w ≤ length offered
    within [] w e = ground arith
    within (x ∷ q) w e = ground arith

    progress :
        (offered : Bytes)
        → 0 < length offered
        → (w : ℕ) × (one_byte offered ≡ send_taken w) × (0 < w)
    progress [] pos = absurd (omega arith)
    progress (x ∷ q) pos = (1, refl, omega arith)

handling-IsGenerous : IsGenerous handling
handling-IsGenerous = record {
  sized = zeroed-Sized;
  struct = refl;
  block = λ n. (replicate n 0, refl);
  cleared = refl;
}

sink_handler-AfterSend_example :
    let q = queued list.list in
    ((q ≡ []) × (sink_handler handling one_byte 2 core ≡ done core))
    ⊎ ((0 < length q)
        × AfterSend handling core 10 0 connection end pipe
            (one_byte q)
            (sink_handler handling one_byte 2 core))
sink_handler-AfterSend_example =
    sink_handler-AfterSend handling one_byte core 10 2 0 connection end pipe (replicate 5 0)
      core-IsDraining zeroed-Sized refl refl refl one_byte-IsTaking.within

run_sink-Delivered_example :
    Delivered handling 10 2 0 connection end handling-IsGenerous core pipe
      (run_sink 5 handling (λ i. one_byte) 2 core)
run_sink-Delivered_example =
    run_sink-Delivered handling 10 2 0 connection end handling-IsGenerous 5 (λ i. one_byte) core
      pipe (λ i. one_byte-IsTaking) core-IsDraining (omega arith)

abbrev granted : Answers
granted = record {
  given = λ i. true;
  added = true;
  grown_events = true;
  grown = true;
  remote_ip = none;
}

connection_create-IsCreated_example :
    (r : Option ℕ × CoreState) × (connection_create granted 7 core ≡ done r)
    × IsCreated granted 7 core r.0 r.1
connection_create-IsCreated_example =
    connection_create-IsCreated granted 7 core core-IsCore (fresh 7 (omega arith) (omega arith))

connection_destroy-IsDestroyed_example :
    (c' : CoreState) × (connection_destroy true 10 core ≡ done c')
    × IsDestroyed 10 connection core c'
connection_destroy-IsDestroyed_example =
    connection_destroy-IsDestroyed core 10 connection core-IsCore refl

abbrev pub arrival : ℕ → Arrival
arrival fd = record {
  sock = some fd;
  connection = granted;
  given = λ i. true;
  pipe_given = λ i j. true;
  pipe_grown = λ i. true;
  grown = true;
  deleted = true;
}

abbrev arrivals : List Arrival
arrivals = arrival 7 ∷ arrival 8 ∷ []

listener_connection_handler-AllTaken_example :
    (c' : CoreState) × (listener_connection_handler arrivals 11 core ≡ done c')
    × IsCore c'
    × KeepsConnections core c'
    × KeepsEvents core c'
    × (AllGranted arrivals → AllTaken 11 arrivals c')
listener_connection_handler-AllTaken_example =
    listener_connection_handler-AllTaken arrivals 11 core core-IsCore listener refl (
      fresh 7 (omega arith) (omega arith),
      ((λ e. absurd (omega arith)), tt),
      refl,
      (fresh 8 (omega arith) (omega arith), tt, refl, tt),
    )

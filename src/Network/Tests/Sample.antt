-- ===== src/Network/Tests/Sample.antt =====
-- Connections and listeners on a concrete core: connection 10 with source 1, sink 2 and descriptor 6,
-- whose two ends share pipe 0, and listener 11 with descriptor 5.
use nw_lab.Buffer.{Buffer, IsBuffer}
use nw_lab.Buffer.Lists.{BufferList}
use nw_lab.Buffer.Queued.{IsQueue}
use nw_lab.Core.Loop.Events.{Event, Loop}
use nw_lab.Core.Loop.Events.Watched.{IsWatched}
use nw_lab.Core.Pipe.{Pipe, End, Store, put}
use nw_lab.Core.Pipe.Links.{Linked}
use nw_lab.Core.Pipe.Stored.{IsStore}
use nw_lab.Network.Invariant.{HasEnds, IsFreshFd, IsCore}
use nw_lab.Network.Structs.{Connection, Listener, CoreState}
use nw_lab.Prelude.{
  ℕ, ◌≡◌, ◌≢◌, refl, inl, inr, true, false, [], ◌∷◌, none, some, codes, arith, ◌==◌, Bool-cases,
}

abbrev pub hello : Buffer
hello = record { size = 8; len = 5; pos = 0; data_block = codes "hello..." }

abbrev pub list : BufferList
list = record { list = some hello ∷ []; len = 5 }

pub list-IsQueue : IsQueue list
list-IsQueue = record { buffers = (hello-IsBuffer, tt); counted = refl }
  where
    hello-IsBuffer : IsBuffer hello
    hello-IsBuffer = record { len_le = omega arith; size_le = omega arith }

abbrev pub pipe : Pipe
pipe = record { source = some 1; sink = some 2; buff_list = list; buff_thresh = 9 }

abbrev pub end : End
end = record { pipe = some 0; ready = true; active = true; owner = 10 }

abbrev pub store : Store
store = record {
  pipe_at = put (λ i. none) 0 (some pipe);
  source_at = put (λ i. none) 1 (some end);
  sink_at = put (λ i. none) 2 (some end);
  next = 6;
  pipes = some 0 ∷ [];
  n_null_pipes = 0;
}

pub store-Linked : Linked store
store-Linked = record { sources = λ p i. ground arith; sinks = λ p i. ground arith }

pub store-IsStore : IsStore store
store-IsStore = record {
  linked = store-Linked;
  unused =
      λ j le. record { pipe_is = ground arith; source_is = ground arith; sink_is = ground arith };
}

abbrev pub connection : Connection
connection = record { sock_fd = 6; listener = some 11; remote_ip = none; source = 1; sink = 2 }

abbrev pub listener : Listener
listener = record { host = codes "localhost"; port = 8001; sock_fd = 5 }

abbrev pub connection_event : Event
connection_event = record { fd = 6; ptr = 10; read_cb = true; write_cb = true }

abbrev pub listener_event : Event
listener_event = record { fd = 5; ptr = 11; read_cb = true; write_cb = false }

abbrev pub loop : Loop
loop = record {
  event_at = put (put (λ e. none) 4 (some listener_event)) 3 (some connection_event);
  events = some 4 ∷ some 3 ∷ [];
  n_null_events = 0;
  next = 5;
}

pub loop-IsWatched : IsWatched loop
loop-IsWatched = record {
  live = λ e has. elim has [
    | inl here ↦ (listener_event, rw (← here) refl)
    | inr more ↦ elim more [
      | inl here ↦ (connection_event, rw (← here) refl)
      | inr nothing ↦ absurd nothing
    ]
  ];
  unique = (λ has. elim has [ inl e ↦ absurd (omega arith) | inr x ↦ x ], (λ x. x, tt));
  fresh = λ e has. elim has [
    | inl here ↦ omega arith
    | inr more ↦ elim more [ inl here ↦ omega arith | inr nothing ↦ absurd nothing ]
  ];
  counted = refl;
}

abbrev pub core : CoreState
core = record {
  loop = loop;
  listeners = some 11 ∷ [];
  connections = none ∷ some 10 ∷ [];
  world = record { store = store; sessions = []; n_null_sessions = 0 };
  n_null_listeners = 0;
  n_null_connections = 0;
  listener_at = put (λ n. none) 11 (some listener);
  connection_at = put (λ n. none) 10 (some connection);
  session_at = λ n. none;
  next = 20;
  out = λ fd. [];
}

-- The struct at the only address that is in use.
pub only {ℓ} :
    {A : Type ℓ} (p : ℕ) (v : A) (n : ℕ) (found : A)
    → put (λ j. none) p (some v) n ≡ some found
    → (n ≡ p) × (v ≡ found)
only p v n found at = elim (Bool-cases (n == p)) [
  | inl hit ↦ (ground arith, let e : some v ≡ some found = rw hit at at in cc)
  | inr miss ↦ absurd (let e : none ≡ some found = rw miss at at in cc)
]

pub core-ends : HasEnds core 10 connection
core-ends = record {
  source = end;
  source_is = refl;
  source_owner = refl;
  sink = end;
  sink_is = refl;
  sink_owner = refl;
}

pub core-IsCore : IsCore core
core-IsCore = record {
  store = store-IsStore;
  watched = loop-IsWatched;
  ends =
      λ n found at. let (here, same) = only 10 connection n found at in rw (here, ← same) core-ends;
  unused = λ n le. (ground arith, ground arith);
  apart = λ n found at. let (here, same) = only 10 connection n found at in rw here refl;
  listed = λ n has. elim has [
    | inl here ↦ (connection, rw (← here) refl)
    | inr nothing ↦ absurd nothing
  ];
  unique = (λ x. x, tt);
  owned = λ e event has at. elim has [
    | inl here ↦
        let one : some listener_event ≡ some event = rw (← here) at at in
        let same : listener_event ≡ event = cc in rw (← same) (inr (listener, refl, refl, refl))
    | inr more ↦ elim more [
      | inl here ↦
          let one : some connection_event ≡ some event = rw (← here) at at in
          let same : connection_event ≡ event = cc in rw (← same) (inl (connection, refl, refl))
      | inr nothing ↦ absurd nothing
    ]
  ];
  one_each = λ e e' event event' has at has' at' same. ground arith;
}

pub fresh : (fd : ℕ) → fd ≢ 5 → fd ≢ 6 → IsFreshFd core fd
fresh fd differs differs' e event has at same = ground arith

-- ===== src/Core/Loop/Tests.antt =====
-- src/core/xps_loop.c: lists with NULLs, and an event that is freed, on concrete input.
use nw_lab.Core.Loop.Events.{Event, Loop, Callbacks, handle_event}
use nw_lab.Core.Loop.Events.Freed.{handle_event-freed}
use nw_lab.Core.Loop.Nulls.{Slots, CoreLists, Filtered, filter_nulls, filter_nulls-Filtered}
use nw_lab.Core.Pipe.{put}
use nw_lab.Prelude.{
  ◌≡◌, refl, true, false, [], ◌∷◌, ◌++◌, none, some, done, fault, Mallocs, replicate,
}

-- 33 NULLs around two structs.
abbrev holes : Slots
holes = record { items = some 1 ∷ (replicate 33 none ++ (some 2 ∷ [])); n_null = 33 }

abbrev core : CoreLists
core = record {
  events = holes;
  listeners = holes;
  connections = holes;
  pipes = holes;
  sessions = holes;
}

abbrev grows : Mallocs
grows n = true

filter_nulls-Filtered_example :
    let out = filter_nulls (λ i. grows) core in
    Filtered holes out.events
    × Filtered holes out.listeners
    × Filtered holes out.connections
    × Filtered holes out.pipes
    × Filtered holes out.sessions
filter_nulls-Filtered_example =
    filter_nulls-Filtered (λ i. grows) core (λ i n. refl)
      (record {
        events = refl;
        listeners = refl;
        connections = refl;
        pipes = refl;
        sessions = refl;
      })

-- The event of a connection behind a place that is NULL.
abbrev connected : Event
connected = record { fd = 6; ptr = 40; read_cb = true; write_cb = true }

abbrev events : Loop
events = record {
  event_at = put (λ e. none) 5 (some connected);
  events = none ∷ some 5 ∷ [];
  n_null_events = 1;
  next = 9;
}

abbrev quiet : Callbacks
quiet = record {
  State = Loop;
  loop = λ l. l;
  with_loop = λ l s. l;
  read = λ ptr s. done s;
  write = λ ptr s. done s;
}

handle_event-freed_example :
    handle_event quiet true 5 (record { readable = false; broken = true; writable = true }) events
    ≡ fault
handle_event-freed_example =
    handle_event-freed quiet 5 connected events (none ∷ []) [] (λ l s. refl) refl refl tt

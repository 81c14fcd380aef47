-- ===== src/Core/Loop/Events.antt =====
-- src/core/xps_loop.c: the events of descriptors, and their dispatch.
--
-- An event is a struct by its address, like the ends of pipes; one that was freed is not there. What
-- `epoll_ctl` answers is a parameter.
pub mod Freed
pub mod Watched
pub mod Attached
use nw_lab.Core.Pipe.{put, deref, mark_null}
use nw_lab.Prelude.{
  ℕ, suc, ◌+◌, Bool, true, false, List, [], ◌∷◌, Option, none, some, Exec, done, ◌>>=◌, ◌==◌,
  if◌then◌else◌,
}
use nw_lab.Status.{Code, ok, e_fail}
use nw_lab.Vec.{vec_push}

-- `loop_event_s`: a callback is there or NULL. `close_cb` is never called.
pub record Event : Type 0 where
  pub fd : ℕ
  pub ptr : ℕ
  pub read_cb : Bool
  pub write_cb : Bool

-- The events of `xps_loop_s`.
pub record Loop : Type 0 where
  pub event_at : ℕ → Option Event
  pub events : List (Option ℕ)
  pub n_null_events : ℕ
  pub next : ℕ

unfoldable pub event_create : (given : Bool) → Event → Loop → Option ℕ × Loop
event_create given event loop =
    if given
    then (
      some loop.next,
      record loop { event_at = put loop.event_at loop.next (some event); next = suc loop.next },
    )
    else (none, loop)

unfoldable pub event_destroy : ℕ → Loop → Loop
event_destroy e loop = record loop { event_at = put loop.event_at e none }

-- `added` is whether `epoll_ctl` took the descriptor.
unfoldable pub loop_attach : (given added grown : Bool) → Event → Loop → Code × Loop
unfolding event_create event_destroy
loop_attach given added grown event loop =
    let (address, loop1) = event_create given event loop in
    elim address [
      | none ↦ (e_fail, loop1)
      | some e ↦
          if added
          then (ok, record loop1 { events = vec_push grown loop1.events (some e) })
          else (e_fail, event_destroy e loop1)
    ]

-- The first event of the list with the descriptor.
unfoldable pub find_event : (fd : ℕ) → List (Option ℕ) → Loop → Exec (Option ℕ)
find_event fd [] loop = done none
find_event fd (none ∷ events) loop = find_event fd events loop
find_event fd (some e ∷ events) loop = deref (loop.event_at e) >>= λ event. elim (event.fd == fd) [
  | true ↦ done (some e)
  | false ↦ find_event fd events loop
]

-- The event is freed, and its place in the list becomes NULL.
unfoldable pub forget_event : ℕ → Loop → Loop
unfolding event_destroy
forget_event e loop = record (event_destroy e loop) {
  events = (mark_null e loop.events).1;
  n_null_events = loop.n_null_events + 1;
}

-- Nothing is returned where no event has the descriptor. `deleted` is what `epoll_ctl` answers.
unfoldable pub loop_detach : (deleted : Bool) → (fd : ℕ) → Loop → Exec (Option Code × Loop)
unfolding forget_event
loop_detach deleted fd loop = find_event fd loop.events loop >>= λ found. elim found [
  | none ↦ done (none, loop)
  | some e ↦ if deleted then done (some ok, forget_event e loop) else done (some e_fail, loop)
]

-- `EPOLLIN`, `EPOLLERR` or `EPOLLHUP`, and `EPOLLOUT`.
pub record Flags : Type 0 where
  pub readable : Bool
  pub broken : Bool
  pub writable : Bool

-- A state that holds the events, and what the callbacks for reading and writing do to it.
pub record Callbacks : Type 1 where
  pub State : Type 0
  pub loop : State → Loop
  pub with_loop : Loop → State → State
  pub read : (ptr : ℕ) → State → Exec State
  pub write : (ptr : ℕ) → State → Exec State

unfoldable pub is_attached : ℕ → List (Option ℕ) → Bool
is_attached e [] = false
is_attached e (none ∷ events) = is_attached e events
is_attached e (some x ∷ events) = if x == e then true else is_attached e events

module _ (cb : Callbacks) where
  unfoldable pub on_readable : ℕ → Bool → cb.State → Exec cb.State
  on_readable e false w = done w
  on_readable e true w = deref ((cb.loop w).event_at e) >>= λ event. elim event.read_cb [
    | true ↦ cb.read event.ptr w
    | false ↦ done w
  ]

  unfoldable pub on_broken : (deleted : Bool) → ℕ → Bool → cb.State → Exec cb.State
  on_broken deleted e false w = done w
  on_broken deleted e true w = do
    event ← deref ((cb.loop w).event_at e)
    r ← loop_detach deleted event.fd (cb.loop w)
    done (cb.with_loop r.1 w)

  unfoldable pub on_writable : ℕ → Bool → cb.State → Exec cb.State
  on_writable e false w = done w
  on_writable e true w = deref ((cb.loop w).event_at e) >>= λ event. elim event.write_cb [
    | true ↦ cb.write event.ptr w
    | false ↦ done w
  ]

  -- An event that `epoll_wait` reported, if it is still in the list.
  unfoldable pub handle_event : (deleted : Bool) → ℕ → Flags → cb.State → Exec cb.State
  handle_event deleted e flags w = elim (is_attached e (cb.loop w).events) [
    | false ↦ done w
    | true ↦ do
      w1 ← on_readable e flags.readable w
      w2 ← on_broken deleted e flags.broken w1
      on_writable e flags.writable w2
  ]

  -- `deleted i` answers `epoll_ctl` at event `i`.
  unfoldable pub handle_epoll_events :
      (deleted : ℕ → Bool) → (i : ℕ) → List (ℕ × Flags) → cb.State → Exec cb.State
  handle_epoll_events deleted i [] w = done w
  handle_epoll_events deleted i ((e, flags) ∷ events) w =
      handle_event (deleted i) e flags w >>= λ w1. handle_epoll_events deleted (i + 1) events w1

-- ===== src/Network/Dispatch/Handles.antt =====
-- src/core/xps_loop.c: the events that are reported to the core.
use nw_lab.Core.Loop.Events.{
  Event, Flags, handle_epoll_events, handle_event, is_attached, on_broken, on_writable,
}
use nw_lab.Core.Loop.Events.Watched.{loop_detach-rest}
use nw_lab.Core.Loop.Marks.{Has}
use nw_lab.Core.Pipe.Flow.{bind_deref}
use nw_lab.Network.Invariant.{IsCore}
use nw_lab.Network.Listener.{Arrival}
use nw_lab.Network.Listener.Accepts.{AreWaiting}
use nw_lab.Network.Structs.{CoreState}
use nw_lab.Prelude.{
  ℕ, ◌+◌, ◌≡◌, refl, ap, ◌∙◌, inl, inr, Bool, true, false, ◌&&◌, List, [], ◌∷◌, some, done, ◌>>=◌,
  Bool-cases, >>=-done,
}
use nw_lab.Network.Dispatch.{core_callbacks}
use nw_lab.Network.Dispatch.Called.{
  fewer_events-IsCore, chosen, not_chosen, is_attached-Has, on_readable-Returns,
  on_writable-Returns,
}

-- An event that is not reported as broken and as writable at once.
abbrev pub IsOrderly : Flags → Type 0
IsOrderly flags = (flags.broken && flags.writable) ≡ false

abbrev pub AllOrderly : List (ℕ × Flags) → Type 0
AllOrderly [] = Unit {0}
AllOrderly ((e, flags) ∷ events) = IsOrderly flags × AllOrderly events

module _ (waiting : CoreState → ℕ → List Arrival)
    (new : (c : CoreState) (l : ℕ) → IsCore c → AreWaiting c (waiting c l)) where
  on_broken-IsCore :
      (c : CoreState) (e : ℕ) (event : Event)
      → IsCore c
      → c.loop.event_at e ≡ some event
      → (c' : CoreState) × (on_broken (core_callbacks waiting) true e true c ≡ done c') × IsCore c'
  unfolding on_broken
  on_broken-IsCore c e event w at =
      let (r, run, watched, was, _) = loop_detach-rest event.fd c.loop w.watched w.one_each in
      (
        record c { loop = r.1 },
        bind_deref _ event _ at ∙ >>=-done _ run,
        fewer_events-IsCore c r.1 w watched
            (λ x found has there. let (old, before, _) = was x found has there in (old, before)),
      )

  not_written : (c : CoreState) (e : ℕ) → on_writable (core_callbacks waiting) e false c ≡ done c
  unfolding on_writable
  not_written c e = refl

  after_read :
      (c : CoreState) (e : ℕ) (event : Event) (broken writable : Bool)
      → IsCore c
      → Has e c.loop.events
      → c.loop.event_at e ≡ some event
      → (broken && writable) ≡ false
      → (c' : CoreState) × ((on_broken (core_callbacks waiting) true e broken c >>= λ c2.
            on_writable (core_callbacks waiting) e writable c2)
          ≡ done c')
        × IsCore c'
  unfolding on_broken
  after_read c e event false writable w has at orderly =
      let (c', run, core, _) = on_writable-Returns waiting new c e event writable w has at in
      (c', run, core)
  after_read c e event true false w has at orderly =
      let (c', run, core) = on_broken-IsCore c e event w at in
      (c', >>=-done _ run ∙ not_written c' e, core)
  after_read c e event true true w has at orderly = cc

  -- One event of those that `epoll_wait` reported.
  handle_event-IsCore :
      (c : CoreState) (e : ℕ) (flags : Flags)
      → IsCore c
      → IsOrderly flags
      → (c' : CoreState) × (handle_event (core_callbacks waiting) true e flags c ≡ done c')
        × IsCore c'
  unfolding handle_event
  handle_event-IsCore c e flags w orderly = elim (Bool-cases (is_attached e c.loop.events)) [
    | inr gone ↦ (c, not_chosen _ _ _ gone, w)
    | inl there ↦
        let has = is_attached-Has e c.loop.events there in
        let (event, at) = w.watched.live e has in
        let (c1, run1, w1, kept) =
          on_readable-Returns waiting new c e event flags.readable w has at in
        let (has1, at1) = kept e event has at in
        let (c', run, core) =
          after_read c1 e event flags.broken flags.writable w1 has1 at1 orderly in
        (c', chosen _ _ _ there ∙ >>=-done _ run1 ∙ run, core)
  ]

  -- Where the invariant of the core holds, the descriptors of clients that wait at a listener are always
  -- new and all different, `epoll_ctl` removes what it is asked to, and no event is reported as broken
  -- and as writable at once: the core handles any list of reported events, whether they are still
  -- attached or not, without a fault, and the invariant holds again.
  pub handle_epoll_events-IsCore :
      (deleted : ℕ → Bool) (i : ℕ) (events : List (ℕ × Flags)) (c : CoreState)
      → IsCore c
      → ((n : ℕ) → deleted n ≡ true)
      → AllOrderly events
      → (c' : CoreState) × (handle_epoll_events (core_callbacks waiting) deleted i events c
          ≡ done c')
        × IsCore c'
  unfolding handle_epoll_events
  handle_epoll_events-IsCore deleted i [] c w removes orderly = (c, refl, w)
  handle_epoll_events-IsCore deleted i ((e, flags) ∷ events) c w removes (first, orderly) =
      let (c1, run1, w1) = handle_event-IsCore c e flags w first in
      let (c', run, core) =
        handle_epoll_events-IsCore deleted (i + 1) events c1 w1 removes orderly in
      (
        c',
        ap
              (λ b. handle_event (core_callbacks waiting) b e flags c >>= λ c2.
                handle_epoll_events (core_callbacks waiting) deleted (i + 1) events c2)
              (removes i)
            ∙ >>=-done _ run1
            ∙ run,
        core,
      )

-- ===== src/Core/Loop/Events/Freed.antt =====
-- src/core/xps_loop.c: an event that is reported as broken and as writable.
use nw_lab.Core.Loop.Events.{
  Event, Loop, Callbacks, find_event, loop_detach, event_destroy, forget_event, is_attached,
  on_readable, on_broken, on_writable, handle_event,
}
use nw_lab.Core.Pipe.{deref}
use nw_lab.Core.Pipe.Flow.{bind_deref}
use nw_lab.Core.Pipe.Links.{put_at}
use nw_lab.Prelude.{
  ℕ, ◌≡◌, ◌≢◌, ap, ◌∙◌, true, false, List, [], ◌∷◌, ◌++◌, Option, none, some, Exec, done, fault,
  ◌>>=◌, >>=-done, ◌==◌, arith, Bool-cases, inl, inr,
}
use nw_lab.Status.{ok}

-- The events are there, and have other descriptors.
abbrev pub AllOthers : Loop → Event → List (Option ℕ) → Type 0
AllOthers loop event [] = Unit {0}
AllOthers loop event (none ∷ events) = AllOthers loop event events
AllOthers loop event (some x ∷ events) =
    ((other : Event) × (loop.event_at x ≡ some other) × (other.fd ≢ event.fd))
    × AllOthers loop event events

module _ (loop : Loop) (e : ℕ) (event : Event) (there : loop.event_at e ≡ some event) where
  find_event-first :
      (before after : List (Option ℕ))
      → AllOthers loop event before
      → find_event event.fd (before ++ (some e ∷ after)) loop ≡ done (some e)
  unfolding find_event
  find_event-first [] after others =
      let same : (event.fd == event.fd) ≡ true = ground arith in
      bind_deref _ event _ there ∙ rw same
  find_event-first (none ∷ before) after others = find_event-first before after others
  find_event-first (some x ∷ before) after ((other, at, apart), others) =
      let differ : (other.fd == event.fd) ≡ false = ground arith in
      bind_deref _ other _ at ∙ rw differ (find_event-first before after others)

  is_attached-append :
      (before after : List (Option ℕ)) → is_attached e (before ++ (some e ∷ after)) ≡ true
  unfolding is_attached
  is_attached-append [] after = let same : (e == e) ≡ true = ground arith in rw same
  is_attached-append (none ∷ before) after = is_attached-append before after
  is_attached-append (some x ∷ before) after = elim (Bool-cases (x == e)) [
    | inl hit ↦ rw hit
    | inr miss ↦ rw miss (is_attached-append before after)
  ]

  -- The event is detached and freed.
  loop_detach-forget_event :
      (before after : List (Option ℕ))
      → loop.events ≡ before ++ (some e ∷ after)
      → AllOthers loop event before
      → loop_detach true event.fd loop ≡ done (some ok, forget_event e loop)
  unfolding loop_detach
  loop_detach-forget_event before after splits others =
      let found : find_event event.fd loop.events loop ≡ done (some e) =
        ap (λ es. find_event event.fd es loop) splits ∙ find_event-first before after others in
      >>=-done _ found

forget_event-gone : (loop : Loop) (e : ℕ) → (forget_event e loop).event_at e ≡ none
unfolding forget_event event_destroy
forget_event-gone loop e = put_at loop.event_at e none

-- Where `epoll_ctl` removes the descriptor, an attached event, the first one with its descriptor, that
-- is reported as broken and as writable, is freed by the first report and dereferenced for the
-- second: handling it is a fault.
pub handle_event-freed :
    (cb : Callbacks) (e : ℕ) (event : Event) (w : cb.State) (before after : List (Option ℕ))
    → ((l : Loop) (s : cb.State) → cb.loop (cb.with_loop l s) ≡ l)
    → (cb.loop w).event_at e ≡ some event
    → (cb.loop w).events ≡ before ++ (some e ∷ after)
    → AllOthers (cb.loop w) event before
    → handle_event cb true e (record { readable = false; broken = true; writable = true }) w ≡ fault
unfolding handle_event on_readable on_broken on_writable
handle_event-freed cb e event w before after kept there splits others =
    rw (listed, handle_event) (>>=-done _ broken ∙ ap (λ o. deref o >>= write) gone)
  where
    listed : is_attached e (cb.loop w).events ≡ true
    listed = rw splits (is_attached-append (cb.loop w) e event there before after)

    left : cb.State
    left = cb.with_loop (forget_event e (cb.loop w)) w

    broken : on_broken cb true e true w ≡ done left
    broken =
        bind_deref _ event _ there
        ∙ >>=-done _ (loop_detach-forget_event (cb.loop w) e event there before after splits others)

    gone : (cb.loop left).event_at e ≡ none
    gone =
        ap (λ l. l.event_at e) (kept (forget_event e (cb.loop w)) w)
        ∙ forget_event-gone (cb.loop w) e

    write : Event → Exec cb.State
    write event = elim event.write_cb [ true ↦ cb.write event.ptr left | false ↦ done left ]

-- ===== src/Core/Loop/Events/Attached.antt =====
-- src/core/xps_loop.c: what `xps_loop_attach` leaves of the events.
use nw_lab.Core.Loop.Events.{Event, Loop, event_create, event_destroy, loop_attach}
use nw_lab.Core.Loop.Events.Watched.{IsWatched}
use nw_lab.Core.Loop.Marks.{Has}
use nw_lab.Core.Pipe.{put}
use nw_lab.Prelude.{ℕ, ◌≡◌, refl, ◌⊎◌, inl, inr, Bool, true, false, ◌&&◌, some, arith}
use nw_lab.Status.{ok, e_fail, Code}
use nw_lab.Vec.{vec_push}

-- The event is new in the list, or the list and its events are as before.
abbrev pub IsAttached : (given added grown : Bool) → Event → (loop : Loop) → Code × Loop → Type 0
IsAttached given added grown event loop r =
    ((r.0 ≡ ok)
      × (r.1.events ≡ vec_push grown loop.events (some loop.next))
      × (r.1.event_at ≡ put loop.event_at loop.next (some event)))
    ⊎ ((r.0 ≡ e_fail)
        × (r.1.events ≡ loop.events)
        × ((e : ℕ) → Has e loop.events → r.1.event_at e ≡ loop.event_at e)
        × ((given && added) ≡ false))

pub loop_attach-IsAttached :
    (given added grown : Bool) (event : Event) (loop : Loop)
    → IsWatched loop
    → IsAttached given added grown event loop (loop_attach given added grown event loop)
unfolding loop_attach event_create event_destroy
loop_attach-IsAttached false added grown event loop w = inr (refl, refl, λ e has. refl, refl)
loop_attach-IsAttached true false grown event loop w =
    inr (refl, refl, λ e has. let low = w.fresh e has in ground arith, refl)
loop_attach-IsAttached true true grown event loop w = inl (refl, refl, refl)

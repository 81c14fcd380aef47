-- ===== src/Network/Dispatch/Tests.antt =====
-- Reported events on a concrete core, where one client with a new descriptor waits at every listener.
use nw_lab.Core.Loop.Events.{Event, Flags, handle_epoll_events}
use nw_lab.Core.Loop.Marks.{Has}
use nw_lab.Network.Dispatch.{core_callbacks}
use nw_lab.Network.Dispatch.Handles.{handle_epoll_events-IsCore}
use nw_lab.Network.Invariant.{IsCore}
use nw_lab.Network.Listener.{Arrival}
use nw_lab.Network.Listener.Accepts.{AreWaiting}
use nw_lab.Network.Structs.{CoreState}
use nw_lab.Network.Tests.{arrival}
use nw_lab.Network.Tests.Sample.{core, core-IsCore}
use nw_lab.Prelude.{
  ℕ, suc, ◌+◌, ◌≤◌, ◌≡◌, refl, inl, inr, true, false, List, [], ◌∷◌, Option, none, some, done,
  arith,
}

-- A number that no descriptor of the list's events reaches.
abbrev fd_at : Option Event → ℕ
fd_at none = 0
fd_at (some event) = event.fd

abbrev above : List (Option ℕ) → (ℕ → Option Event) → ℕ
above [] event_at = 0
above (none ∷ events) event_at = above events event_at
above (some e ∷ events) event_at = suc (fd_at (event_at e) + above events event_at)

below_above :
    (e : ℕ) (events : List (Option ℕ)) (event_at : ℕ → Option Event)
    → Has e events
    → suc (fd_at (event_at e)) ≤ above events event_at
below_above e [] event_at has = absurd has
below_above e (none ∷ events) event_at has = below_above e events event_at has
below_above e (some x ∷ events) event_at has = elim has [
  | inl here ↦ rw here (omega arith)
  | inr later ↦ omega (arith, below_above e events event_at later)
]

abbrev one_client : CoreState → ℕ → List Arrival
one_client c l = arrival (above c.loop.events c.loop.event_at) ∷ []

one_client-AreWaiting : (c : CoreState) (l : ℕ) → IsCore c → AreWaiting c (one_client c l)
one_client-AreWaiting c l w = (
  λ e event has at same.
      let low = below_above e c.loop.events c.loop.event_at has in
      let fd_is : fd_at (c.loop.event_at e) ≡ event.fd = rw at refl in omega (arith, fd_is),
  tt,
  refl,
  tt,
)

-- The listener has a client, and the connection is broken.
abbrev reports : List (ℕ × Flags)
reports =
    (4, record { readable = true; broken = false; writable = false })
    ∷ (3, record { readable = false; broken = true; writable = false })
    ∷ []

handle_epoll_events-IsCore_example :
    (c' : CoreState) × (handle_epoll_events (core_callbacks one_client) (λ n. true) 0 reports core
      ≡ done c')
    × IsCore c'
handle_epoll_events-IsCore_example =
    handle_epoll_events-IsCore one_client one_client-AreWaiting (λ n. true) 0 reports core
      core-IsCore (λ n. refl) (refl, (refl, tt))

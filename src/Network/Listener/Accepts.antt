-- ===== src/Network/Listener/Accepts.antt =====
-- src/network/xps_listener.c: all clients that wait are taken.
use nw_lab.Core.Loop.Events.{Event}
use nw_lab.Core.Loop.Marks.{Has}
use nw_lab.Core.Pipe.Flow.{bind_deref}
use nw_lab.Network.Invariant.{IsFreshFd, IsCore}
use nw_lab.Network.Listener.{Arrival, fd_of, listener_connection_handler}
use nw_lab.Network.Listener.Rounds.{IsGranted, HasClient, accept_one-IsAccepted}
use nw_lab.Network.Structs.{Connection, Listener, CoreState}
use nw_lab.Prelude.{
  ℕ, ◌≡◌, ◌≢◌, refl, sym, ap, ◌∙◌, ◌⊎◌, inl, inr, true, List, [], ◌∷◌, some, done, Bool-cases,
  >>=-done,
}

-- No client of the list has the descriptor.
abbrev pub NoneHas : ℕ → List Arrival → Type 0
NoneHas fd [] = Unit {0}
NoneHas fd (x ∷ xs) = (fd_of x ≢ fd) × NoneHas fd xs

-- The clients' descriptors are new and all different, and `epoll_ctl` would remove them.
abbrev pub AreWaiting : CoreState → List Arrival → Type 0
AreWaiting c [] = Unit {0}
AreWaiting c (x ∷ xs) =
    IsFreshFd c (fd_of x) × NoneHas (fd_of x) xs × (x.deleted ≡ true) × AreWaiting c xs

abbrev pub AllGranted : List Arrival → Type 0
AllGranted [] = Unit {0}
AllGranted (x ∷ xs) = IsGranted x × AllGranted xs

abbrev pub AllTaken : (listener : ℕ) → List Arrival → CoreState → Type 0
AllTaken l [] c = Unit {0}
AllTaken l (x ∷ xs) c = HasClient l (fd_of x) c × AllTaken l xs c

-- Connections stay as they are.
abbrev pub KeepsConnections : (c c' : CoreState) → Type 0
KeepsConnections c c' =
    (m : ℕ) (connection : Connection)
    → c.connection_at m ≡ some connection
    → c'.connection_at m ≡ some connection

-- Events stay as they are.
abbrev pub KeepsEvents : (c c' : CoreState) → Type 0
KeepsEvents c c' =
    (e : ℕ) (event : Event)
    → Has e c.loop.events
    → c.loop.event_at e ≡ some event
    → Has e c'.loop.events × (c'.loop.event_at e ≡ some event)

AreWaiting-later :
    (fd : ℕ) (xs : List Arrival) (c c' : CoreState)
    → ((e : ℕ) (event : Event)
        → Has e c'.loop.events
        → c'.loop.event_at e ≡ some event
        → (event.fd ≡ fd) ⊎ (Has e c.loop.events × (c.loop.event_at e ≡ some event)))
    → NoneHas fd xs
    → AreWaiting c xs
    → AreWaiting c' xs
AreWaiting-later fd [] c c' events apart waiting = tt
AreWaiting-later fd (x ∷ xs) c c' events (differ, apart) (fresh, others, deleted, waiting) = (
  λ e event has at same. elim (events e event has at) [
    | inl new ↦ differ (sym same ∙ new)
    | inr (there, was) ↦ fresh e event there was same
  ],
  others,
  deleted,
  AreWaiting-later fd xs c c' events apart waiting,
)

-- Where the invariant of the core holds, the listener is there, and the descriptors of the clients that
-- wait are new and all different and can be removed from epoll: the handler of the listener returns,
-- whatever else is answered, and the invariant holds again. Every connection and every event that was there stays as it
-- is. Where every allocation succeeds and `epoll_ctl` takes every descriptor, each client that waits
-- has a connection of the listener with its descriptor.
pub listener_connection_handler-AllTaken :
    (xs : List Arrival) (l : ℕ) (c : CoreState)
    → IsCore c
    → (listener : Listener) → c.listener_at l ≡ some listener
    → AreWaiting c xs
    → (c' : CoreState) × (listener_connection_handler xs l c ≡ done c')
      × IsCore c'
      × KeepsConnections c c'
      × KeepsEvents c c'
      × (AllGranted xs → AllTaken l xs c')
unfolding listener_connection_handler
listener_connection_handler-AllTaken [] l c w listener there waiting = (
  c,
  bind_deref _ listener _ there,
  w,
  λ m connection at. at,
  λ e event has at. (has, at),
  λ granted. tt,
)
listener_connection_handler-AllTaken (x ∷ xs) l c w listener there
      (fresh, others, deleted, waiting) =
    let (q, run, accepted) = accept_one-IsAccepted x l c w fresh deleted in
    let rest =
      listener_connection_handler-AllTaken xs l q.1 accepted.core listener
        (ap (λ m. m l) accepted.listeners ∙ there)
        (AreWaiting-later (fd_of x) xs c q.1 accepted.events others waiting) in
    elim (Bool-cases q.0) [
      | inr stops ↦ (
        q.1,
        bind_deref _ listener _ there ∙ >>=-done _ run ∙ rw stops refl,
        accepted.core,
        accepted.old,
        accepted.old_events,
        λ (granted, _). absurd (let goes = accepted.allowed granted in cc),
      )
      | inl goes ↦
          let (c', run', core, kept, kept_events, taken) = rest in
          let (n, connection, session, at, fd, listens, _, _, _) = accepted.served goes in
          (
            c',
            bind_deref _ listener _ there ∙ >>=-done _ run ∙ rw goes run',
            core,
            λ m found there. kept m found (accepted.old m found there),
            λ e event has there.
                let (has', there') = accepted.old_events e event has there in
                kept_events e event has' there',
            λ (_, granted). ((n, connection, kept n connection at, fd, listens), taken granted),
          )
    ]

-- ===== src/Network/Listener/Rounds.antt =====
-- src/network/xps_listener.c: one client that is taken, and all that wait.
use nw_lab.Core.Loop.Events.{Event}
use nw_lab.Core.Loop.Marks.{Has}
use nw_lab.Core.Pipe.{put}
use nw_lab.Core.Pipe.Flow.{bind_deref}
use nw_lab.Core.Pipe.Links.{put_at}
use nw_lab.Core.Session.{Session}
use nw_lab.Core.Session.Accept.Joined.{IsFree, AreJoined, IsServed}
use nw_lab.Core.Session.Accept.Starts.{AllGranted, session_create-IsServed}
use nw_lab.Core.Session.Serve.{Served}
use nw_lab.Network.Connection.Creates.{IsCreated, connection_create-IsCreated}
use nw_lab.Network.Connection.Destroys.{connection_destroy-IsDestroyed}
use nw_lab.Network.Invariant.{IsFreshFd, IsCore}
use nw_lab.Network.Kept.{with_world-IsCore, replaced-IsCore}
use nw_lab.Network.Listener.{
  Arrival, fd_of, ends_of, set_listener, on_session, on_client, accept_one,
}
use nw_lab.Network.Structs.{Connection, CoreState, store_of}
use nw_lab.Prelude.{
  ℕ, suc, ◌≡◌, refl, sym, ap, ◌∙◌, ◌⊎◌, inl, inr, Bool, true, false, none, some, done, arith, ◌==◌,
  Bool-cases, Option-cases, >>=-done, some-none,
}

-- Every allocation for a client succeeds, and `epoll_ctl` takes its descriptor.
abbrev pub IsGranted : Arrival → Type 0
IsGranted x =
    ((i : ℕ) → x.connection.given i ≡ true)
    × (x.connection.added ≡ true)
    × ((i : ℕ) → x.given i ≡ true)
    × ((i j : ℕ) → x.pipe_given i j ≡ true)

-- A connection of the listener with the client's descriptor.
abbrev pub HasClient : (listener fd : ℕ) → CoreState → Type 0
HasClient l fd c =
    (n : ℕ) × (connection : Connection) × (c.connection_at n ≡ some connection)
    × (connection.sock_fd ≡ fd)
    × (connection.listener ≡ some l)

-- Such a connection, with a session that two pipes join it to.
abbrev pub HasServed : (listener fd : ℕ) → CoreState → Type 0
HasServed l fd c =
    (n : ℕ) × (connection : Connection) × (session : Session) × (c.connection_at n
      ≡ some connection)
    × (connection.sock_fd ≡ fd)
    × (connection.listener ≡ some l)
    × (c.session_at session.self ≡ some session)
    × AreJoined connection.source session.client_sink (store_of c)
    × AreJoined session.client_source connection.sink (store_of c)

-- What one round leaves, and whether the handler goes on.
pub record IsAccepted (x : Arrival) (l : ℕ) (c : CoreState) (r : Bool × CoreState) : Type 0 where
  pub core : IsCore r.1
  pub listeners : r.1.listener_at ≡ c.listener_at
  pub old :
      (m : ℕ) (connection : Connection)
      → c.connection_at m ≡ some connection
      → r.1.connection_at m ≡ some connection
  pub events :
      (e : ℕ) (event : Event)
      → Has e r.1.loop.events
      → r.1.loop.event_at e ≡ some event
      → (event.fd ≡ fd_of x) ⊎ (Has e c.loop.events × (c.loop.event_at e ≡ some event))
  pub old_events :
      (e : ℕ) (event : Event)
      → Has e c.loop.events
      → c.loop.event_at e ≡ some event
      → Has e r.1.loop.events × (r.1.loop.event_at e ≡ some event)
  pub served : r.0 ≡ true → HasServed l (fd_of x) r.1
  pub allowed : IsGranted x → r.0 ≡ true

module _ (x : Arrival) (l : ℕ) (c : CoreState) (fresh : IsFreshFd c (fd_of x))
    (deleted : x.deleted ≡ true) (n : ℕ) (c1 : CoreState)
    (created : IsCreated x.connection (fd_of x) c (some n) c1) (connection : Connection)
    (at_n : c1.connection_at n ≡ some connection) (fd_is : connection.sock_fd ≡ fd_of x)
    (source_free : IsFree (store_of c1).source_at connection.source)
    (sink_free : IsFree (store_of c1).sink_at connection.sink)
    (new : c.connection_at n ≡ none) where
  abbrev listened : Connection
  listened = record connection { listener = some l }

  abbrev with_listener : CoreState
  with_listener = record c1 { connection_at = put c1.connection_at n (some listened) }

  with_listener-IsCore : IsCore with_listener
  with_listener-IsCore = replaced-IsCore c1 n connection listened created.core at_n refl refl refl

  still :
      (m : ℕ) (found : Connection)
      → c.connection_at m ≡ some found
      → with_listener.connection_at m ≡ some found
  still m found at = elim (Bool-cases (m == n)) [
    | inl hit ↦
        let here : m ≡ n = ground arith in
        absurd (some-none (sym at ∙ ap c.connection_at here ∙ new))
    | inr miss ↦ rw miss (created.old m found at)
  ]

  served_or_destroyed :
      (r : Served)
      → IsServed
          (AllGranted x.given x.pipe_given)
          with_listener.next
          (ends_of listened)
          (store_of with_listener)
          r
      → (q : Bool × CoreState) × (on_session x n r with_listener ≡ done q) × IsAccepted x l c q
  unfolding on_session
  served_or_destroyed (none, w) served =
      let closing : CoreState = record with_listener { world = w; next = suc c1.next } in
      let core : IsCore closing =
        with_world-IsCore with_listener w c1.session_at (suc c1.next) with_listener-IsCore
          served.store served.keeps (omega arith) in
      let (c2, run, gone) =
        connection_destroy-IsDestroyed closing n listened core (put_at c1.connection_at n _) in
      (
        (false, c2),
        rw (deleted, on_session) (>>=-done _ run),
        record {
          core = gone.core;
          listeners = gone.listeners ∙ created.listeners;
          old = λ m found at.
              gone.others m (λ here. some-none (sym at ∙ ap c.connection_at here ∙ new))
              ∙ still m found at;
          events = λ e event has at.
              let (there, was) = gone.left e event has at in created.events e event there was;
          old_events = λ e event has at.
              let (there, was) = created.old_events e event has at in
              gone.kept_events e event there was (λ same. fresh e event has at (same ∙ fd_is));
          served = λ e. absurd (cc);
          allowed = λ (_, _, given, pipe_given).
              absurd (let (session, e) = served.allowed (given, pipe_given) in cc);
        },
      )
  served_or_destroyed (some session, w) served =
      let (named, inward, outward) = served.joined session refl in
      (
        (
          true,
          record with_listener {
            world = w;
            session_at = put c1.session_at c1.next (some session);
            next = suc c1.next;
          },
        ),
        refl,
        record {
          core =
              with_world-IsCore with_listener w (put c1.session_at c1.next (some session))
                (suc c1.next) with_listener-IsCore served.store served.keeps (omega arith);
          listeners = created.listeners;
          old = still;
          events = created.events;
          old_events = created.old_events;
          served = λ e. (
            n,
            listened,
            session,
            put_at c1.connection_at n _,
            fd_is,
            refl,
            rw named (put_at c1.session_at c1.next _),
            inward,
            outward,
          );
          allowed = λ granted. refl;
        },
      )

  on_client-IsAccepted : (q : Bool × CoreState) × (on_client x l n c1 ≡ done q) × IsAccepted x l c q
  unfolding on_client set_listener
  on_client-IsAccepted =
      let (r, run, served) =
        session_create-IsServed x.given x.pipe_given x.pipe_grown x.grown with_listener.next
          (ends_of listened) with_listener.world with_listener-IsCore.store source_free sink_free in
      let (q, run', accepted) = served_or_destroyed r served in
      (
        q,
        >>=-done _ (bind_deref _ connection _ at_n)
            ∙ bind_deref _ listened _ (put_at c1.connection_at n _)
            ∙ >>=-done _ run
            ∙ run',
        accepted,
      )

-- One round of the loop returns, and the invariant holds again.
pub accept_one-IsAccepted :
    (x : Arrival) (l : ℕ) (c : CoreState)
    → IsCore c
    → IsFreshFd c (fd_of x)
    → x.deleted ≡ true
    → (q : Bool × CoreState) × (accept_one x l c ≡ done q) × IsAccepted x l c q
unfolding accept_one
accept_one-IsAccepted x l c w fresh deleted =
    let (r, run, created) = connection_create-IsCreated x.connection (fd_of x) c w fresh in
    elim (Option-cases r.0) [
      | inl failed ↦ (
        (false, r.1),
        >>=-done _ run ∙ rw failed refl,
        record {
          core = created.core;
          listeners = created.listeners;
          old = created.old;
          events = created.events;
          old_events = created.old_events;
          served = λ e. absurd (cc);
          allowed = λ (given, added, _, _). absurd (created.allowed given added failed);
        },
      )
      | inr (n, is_made) ↦
          let made : IsCreated x.connection (fd_of x) c (some n) r.1 = rw is_made at created in
          let (connection, at_n, fd_is, source_free, sink_free, new) = made.made n refl in
          let (q, run', accepted) =
            on_client-IsAccepted x l c fresh deleted n r.1 made connection at_n fd_is source_free
              sink_free new in
          (q, >>=-done _ run ∙ rw is_made run', accepted)
    ]

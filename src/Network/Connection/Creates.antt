-- ===== src/Network/Connection/Creates.antt =====
-- src/network/xps_connection.c: a connection that is created.
use nw_lab.Core.Loop.Events.{Event, Loop, loop_attach}
use nw_lab.Core.Loop.Events.Attached.{loop_attach-IsAttached}
use nw_lab.Core.Loop.Events.Watched.{loop_attach-IsWatched}
use nw_lab.Core.Loop.Marks.{Has, Has-vec_push}
use nw_lab.Core.Pipe.{Store, source_create, sink_create}
use nw_lab.Core.Pipe.Keeps.{
  IsNew, KeepsEnds, KeepsEnds-refl, KeepsEnds-trans, KeepsOwners-absent, IsSourceMade,
  source_create-IsSourceMade, sink_create-IsSinkMade, source_destroy-KeepsEnds,
  sink_destroy-KeepsEnds,
}
use nw_lab.Core.Pipe.Links.{put_at}
use nw_lab.Core.Session.Accept.Joined.{IsFree}
use nw_lab.Network.Connection.{Answers, connection_attach, connection_sink, connection_create}
use nw_lab.Core.Pipe.Stored.{IsStore}
use nw_lab.Network.Connection.Attaches.{attach_to, attach_to-IsCore, kept_connection, which_event}
use nw_lab.Network.Invariant.{HasEnds, IsFreshFd, IsCore}
use nw_lab.Network.Kept.{HasEnds-later, with_store-IsCore, same_events-IsCore}
use nw_lab.Network.Structs.{Connection, CoreState, store_of, with_store}
use nw_lab.Prelude.{
  ℕ, suc, ◌≤◌, ◌≡◌, ◌≢◌, refl, sym, ap, ◌∙◌, ◌⊎◌, inl, inr, true, Option, none, some, done, arith,
  Bool-cases, Option-cases, >>=-done,
}

-- What the creation of a connection leaves: a new connection at `o`, with two ends that have no pipe,
-- or none.
pub record IsCreated (a : Answers) (sock_fd : ℕ) (c : CoreState) (o : Option ℕ) (c' : CoreState)
    : Type 0 where
  pub core : IsCore c'
  pub keeps : KeepsEnds (store_of c) (store_of c')
  pub old :
      (m : ℕ) (connection : Connection)
      → c.connection_at m ≡ some connection
      → c'.connection_at m ≡ some connection
  pub listeners : c'.listener_at ≡ c.listener_at
  pub next_le : c.next ≤ c'.next
  pub made :
      (n : ℕ)
      → o ≡ some n
      → (connection : Connection) × (c'.connection_at n ≡ some connection)
        × (connection.sock_fd ≡ sock_fd)
        × IsFree (store_of c').source_at connection.source
        × IsFree (store_of c').sink_at connection.sink
        × (c.connection_at n ≡ none)
  pub events :
      (e : ℕ) (event : Event)
      → Has e c'.loop.events
      → c'.loop.event_at e ≡ some event
      → (event.fd ≡ sock_fd) ⊎ (Has e c.loop.events × (c.loop.event_at e ≡ some event))
  pub old_events :
      (e : ℕ) (event : Event)
      → Has e c.loop.events
      → c.loop.event_at e ≡ some event
      → Has e c'.loop.events × (c'.loop.event_at e ≡ some event)
  pub unmade : o ≡ none → (c'.connection_at ≡ c.connection_at) × (c'.connections ≡ c.connections)
  pub allowed : ((i : ℕ) → a.given i ≡ true) → a.added ≡ true → o ≢ none

module _ (a : Answers) (sock_fd : ℕ) (c : CoreState) (w : IsCore c)
    (fresh : IsFreshFd c sock_fd) where
  -- The address of the connection is used up.
  abbrev bumped : CoreState
  bumped = record c { next = suc c.next }

  bumped-IsCore : IsCore bumped
  bumped-IsCore = record {
    store = w.store;
    watched = w.watched;
    ends = λ n connection at.
        HasEnds-later c bumped n connection (w.ends n connection at) (KeepsEnds-refl (store_of c));
    unused = λ n le. w.unused n (omega arith);
    apart = w.apart;
    listed = w.listed;
    unique = w.unique;
    owned = w.owned;
    one_each = w.one_each;
  }

  -- A connection that was not created.
  without_connection :
      (s : Store) (loop : Loop)
      → IsCore (with_store s (record bumped { loop = loop }))
      → KeepsEnds (store_of c) s
      → loop.events ≡ c.loop.events
      → ((e : ℕ) → Has e c.loop.events → loop.event_at e ≡ c.loop.event_at e)
      → (((i : ℕ) → a.given i ≡ true) → a.added ≡ true → ⊥)
      → IsCreated a sock_fd c none (with_store s (record bumped { loop = loop }))
  without_connection s loop core keeps events same refused = record {
    old_events = λ e event has at. (rw events has, same e has ∙ at);
    events = λ e event has at.
        let old : Has e c.loop.events = rw events at has in inr (old, sym (same e old) ∙ at);
    core = core;
    keeps = keeps;
    old = λ m connection at. at;
    listeners = refl;
    next_le = omega arith;
    made = λ n e. absurd (cc);
    unmade = λ e. (refl, refl);
    allowed = λ all added e. refused all added;
  }

  module _ (s : Store) (i k : ℕ) (store : IsStore s) (keeps : KeepsEnds (store_of c) s)
      (source_is : IsNew (store_of c).source_at s.source_at c.next (some i))
      (sink_is : IsNew (store_of c).sink_at s.sink_at c.next (some k)) where
    abbrev with_ends : CoreState
    with_ends = with_store s bumped

    abbrev new_event : Event
    new_event = record { fd = sock_fd; ptr = c.next; read_cb = true; write_cb = true }

    abbrev new_connection : Connection
    new_connection = record {
      sock_fd = sock_fd;
      listener = none;
      remote_ip = a.remote_ip;
      source = i;
      sink = k;
    }

    with_ends-IsCore : IsCore with_ends
    with_ends-IsCore = with_store-IsCore bumped s bumped-IsCore store keeps

    new_ends : HasEnds with_ends c.next new_connection
    new_ends =
        let (_, source, source_at, source_owner, _) = source_is i refl in
        let (_, sink, sink_at, sink_owner, _) = sink_is k refl in
        record {
          source = source;
          source_is = source_at;
          source_owner = source_owner;
          sink = sink;
          sink_is = sink_at;
          sink_owner = sink_owner;
        }

    connection_attach-IsCreated :
        (r : Option ℕ × CoreState) × (connection_attach a c.next sock_fd i k with_ends ≡ done r)
        × IsCreated a sock_fd c r.0 r.1
    unfolding connection_attach
    connection_attach-IsCreated =
        let watched =
          loop_attach-IsWatched (a.given 3) a.added a.grown_events new_event c.loop w.watched in
        let (_, source, source_at, _, source_free) = source_is i refl in
        let (_, sink, sink_at, _, sink_free) = sink_is k refl in
        let (code, loop) = loop_attach (a.given 3) a.added a.grown_events new_event c.loop in
        elim (loop_attach-IsAttached (a.given 3) a.added a.grown_events new_event c.loop
          w.watched) [
            | inl (is_ok, events, event_at) ↦ (
              (some c.next, attach_to with_ends c.next new_connection loop a.grown),
              rw (is_ok, connection_attach) refl,
              record {
                core =
                    attach_to-IsCore with_ends c.next new_connection loop new_event a.grown_events
                      a.grown with_ends-IsCore fresh (w.unused c.next (omega arith)) (omega arith)
                      new_ends watched events event_at refl refl;
                keeps = keeps;
                old = λ m found at.
                    kept_connection c c.next new_connection m found
                      (w.unused c.next (omega arith)).0 at;
                listeners = refl;
                next_le = omega arith;
                made = λ n e.
                    let here : c.next ≡ n = cc in
                    rw (← here) (
                      new_connection,
                      put_at c.connection_at c.next _,
                      refl,
                      (source, source_at, source_free),
                      (sink, sink_at, sink_free),
                      (w.unused c.next (omega arith)).0,
                    );
                events = λ e event has at.
                    elim (which_event with_ends c.next new_connection loop new_event a.grown_events
                      a.grown with_ends-IsCore fresh (w.unused c.next (omega arith)) (omega arith)
                      new_ends watched events event_at refl refl e event has at) [
                        | inl (_, same) ↦ inl (ap (λ x. x.fd) same)
                        | inr old_one ↦ inr old_one
                      ];
                old_events = λ e event has at.
                    let low = w.watched.fresh e has in
                    (
                      rw events (Has-vec_push a.grown_events c.loop.events c.loop.next e has),
                      ap (λ m. m e) event_at ∙ ground arith,
                    );
                unmade = λ e. absurd (cc);
                allowed = λ all added e. cc;
              },
            )
            | inr (failed, events, event_at, refused) ↦
                let (absent, _, _, _, _) = source_is i refl in
                let (sink_absent, _, _, _, _) = sink_is k refl in
                let (s1, run1, w1, k1, sources1, sinks1) =
                  source_destroy-KeepsEnds (store_of c) s i source store keeps absent source_at in
                let (s2, run2, w2, k2, sinks2, sources2) =
                  sink_destroy-KeepsEnds (store_of c) s1 k sink w1 k1 sink_absent
                    (ap (λ m. m k) sinks1 ∙ sink_at) in
                (
                  (none, with_store s2 (record bumped { loop = loop })),
                  rw (failed, connection_attach) (>>=-done _ run1 ∙ >>=-done _ run2),
                  without_connection s2 loop
                      (with_store-IsCore (record bumped { loop = loop }) s2
                        (same_events-IsCore bumped loop bumped-IsCore watched events event_at) w2
                        k2)
                      k2 events event_at
                      (λ all added. let yes_given = all 3 in let no_way = refused in ground arith),
                )
          ]

  sink_create-given : (s : Store) → a.given 2 ≡ true → (sink_create (a.given 2) c.next s).0 ≢ none
  unfolding sink_create
  sink_create-given s given e = ground arith

  source_create-given :
      (s : Store) → a.given 1 ≡ true → (source_create (a.given 1) c.next s).0 ≢ none
  unfolding source_create
  source_create-given s given e = ground arith

  -- From the creation of the sink on.
  connection_sink-IsCreated :
      (i : ℕ) (s : Store)
      → IsSourceMade c.next (store_of c) (some i) s
      → (r : Option ℕ × CoreState) × (connection_sink a c.next sock_fd i (with_store s bumped)
          ≡ done r)
        × IsCreated a sock_fd c r.0 r.1
  unfolding connection_sink
  connection_sink-IsCreated i s m1 =
      let m2 = sink_create-IsSinkMade (a.given 2) c.next s m1.store in
      let (sink, s2) = sink_create (a.given 2) c.next s in
      let (absent, source, source_at, owner, free) = m1.fresh i refl in
      let source_at2 : s2.source_at i ≡ some source = ap (λ m. m i) m2.same_sources ∙ source_at in
      let keeps = KeepsEnds-trans (store_of c) s s2 m1.keeps m2.keeps in
      elim (Option-cases sink) [
        | inl no_sink ↦
            let (s3, run, w3, k3, _, _) =
              source_destroy-KeepsEnds (store_of c) s2 i source m2.store keeps absent source_at2 in
            (
              (none, with_store s3 bumped),
              rw (no_sink, connection_sink) (>>=-done _ run),
              without_connection s3 c.loop (with_store-IsCore bumped s3 bumped-IsCore w3 k3) k3 refl
                  (λ e has. refl) (λ all added. sink_create-given s (all 2) no_sink),
            )
        | inr (k, sink_is) ↦
            let (r, run, created) =
              connection_attach-IsCreated s2 i k m2.store keeps
                (λ j e.
                  let here : i ≡ j = cc in rw (← here) (absent, source, source_at2, owner, free))
                (λ j e.
                  let (gone, end, at, end_owner, end_free) = m2.fresh j (sink_is ∙ e) in
                  (
                    KeepsOwners-absent (store_of c).sink_at s.sink_at j m1.keeps.sinks gone,
                    end,
                    at,
                    end_owner,
                    end_free,
                  )) in
            (r, rw (sink_is, connection_sink) run, created)
      ]

  -- Where the invariant of the core holds and no event has the descriptor, creating a connection returns,
  -- whatever the allocations and `epoll_ctl` answer, and the invariant holds again. Every connection and
  -- every end of a pipe that was there stays. A connection that is created has the descriptor and two
  -- new ends without a pipe; else the connections are as before. It is created where the allocations
  -- succeed and `epoll_ctl` takes the descriptor.
  pub connection_create-IsCreated :
      (r : Option ℕ × CoreState) × (connection_create a sock_fd c ≡ done r)
      × IsCreated a sock_fd c r.0 r.1
  unfolding connection_create
  connection_create-IsCreated = elim (Bool-cases (a.given 0)) [
    | inr refused ↦ (
      (none, c),
      rw (refused, connection_create) refl,
      record {
        core = w;
        keeps = KeepsEnds-refl (store_of c);
        old = λ m connection at. at;
        listeners = refl;
        next_le = omega arith;
        made = λ n e. absurd (cc);
        events = λ e event has at. inr (has, at);
        old_events = λ e event has at. (has, at);
        unmade = λ e. (refl, refl);
        allowed = λ all added e. let yes_given = all 0 in cc;
      },
    )
    | inl allowed ↦
        let m1 = source_create-IsSourceMade (a.given 1) c.next (store_of c) w.store in
        let (source, s1) = source_create (a.given 1) c.next (store_of c) in
        elim (Option-cases source) [
          | inl no_source ↦ (
            (none, with_store s1 bumped),
            rw (allowed, connection_create) (rw (no_source, connection_create) refl),
            without_connection s1 c.loop
                (with_store-IsCore bumped s1 bumped-IsCore m1.store m1.keeps) m1.keeps refl
                (λ e has. refl) (λ all added. source_create-given (store_of c) (all 1) no_source),
          )
          | inr (i, source_is) ↦
              let made : IsSourceMade c.next (store_of c) (some i) s1 = rw source_is at m1 in
              let (r, run, created) = connection_sink-IsCreated i s1 made in
              (r, rw (allowed, connection_create) (rw (source_is, connection_create) run), created)
        ]
  ]

-- ===== src/Network/Connection/Destroys.antt =====
-- src/network/xps_connection.c: a connection that is destroyed.
use nw_lab.Core.Loop.Events.{Event}
use nw_lab.Core.Loop.Events.Watched.{NoneWith, loop_detach-rest}
use nw_lab.Core.Loop.Marks.{Has, nulls, mark_null-Has, mark_null-Unique, nulls-mark_null_found}
use nw_lab.Core.Pipe.{put, mark_null}
use nw_lab.Core.Pipe.Flow.{bind_deref}
use nw_lab.Core.Pipe.Links.{put_at}
use nw_lab.Core.Pipe.Stored.{source_destroy-IsStore, sink_destroy-IsStore}
use nw_lab.Network.Structs.{Connection, CoreState, store_of, with_store}
use nw_lab.Network.Invariant.{HasEnds, IsCore}
use nw_lab.Network.Connection.{connection_destroy}
use nw_lab.Prelude.{
  ℕ, ◌+◌, ◌≡◌, ◌≢◌, refl, sym, ap, ◌∙◌, inl, inr, true, none, some, done, arith, ◌==◌, Bool-cases,
  >>=-done,
}

-- The connection is gone, no event has its descriptor any more, and its place in the core's list is NULL.
-- The number of NULLs of that list is not changed.
pub record IsDestroyed (n : ℕ) (connection : Connection) (c c' : CoreState) : Type 0 where
  pub core : IsCore c'
  pub gone : c'.connection_at n ≡ none
  pub others : (m : ℕ) → m ≢ n → c'.connection_at m ≡ c.connection_at m
  pub listeners : c'.listener_at ≡ c.listener_at
  pub no_event : NoneWith connection.sock_fd c'.loop.events c'.loop
  pub left :
      (e : ℕ) (event : Event)
      → Has e c'.loop.events
      → c'.loop.event_at e ≡ some event
      → Has e c.loop.events × (c.loop.event_at e ≡ some event)
  pub kept_events :
      (e : ℕ) (event : Event)
      → Has e c.loop.events
      → c.loop.event_at e ≡ some event
      → ¬ (event.fd ≡ connection.sock_fd)
      → Has e c'.loop.events × (c'.loop.event_at e ≡ some event)
  pub unlisted : ¬ Has n c'.connections
  pub null_more : Has n c.connections → nulls c'.connections ≡ nulls c.connections + 1
  pub not_counted : c'.n_null_connections ≡ c.n_null_connections

module _ (c : CoreState) (n : ℕ) (connection : Connection) (w : IsCore c)
    (at_n : c.connection_at n ≡ some connection) where
  ends : HasEnds c n connection
  ends = w.ends n connection at_n

  -- The connection that another address holds.
  other :
      (m : ℕ) (found : Connection)
      → put c.connection_at n none m ≡ some found
      → (m ≢ n) × (c.connection_at m ≡ some found)
  other m found e = elim (Bool-cases (m == n)) [
    | inl hit ↦ absurd (let at : none ≡ some found = rw hit at e in cc)
    | inr miss ↦ (λ x. ground arith, rw miss at e)
  ]

  -- Its owner tells the source of a connection from those of the others.
  source_apart :
      (m : ℕ) (found : Connection)
      → m ≢ n
      → (there : HasEnds c m found) → found.source ≢ connection.source
  source_apart m found differ there same =
      let e : (store_of c).source_at connection.source ≡ some there.source =
        rw same at there.source_is in
      let one : some ends.source ≡ some there.source = sym ends.source_is ∙ e in
      let owner : ends.source.owner ≡ there.source.owner = ground arith in
      differ (sym there.source_owner ∙ sym owner ∙ ends.source_owner)

  sink_apart :
      (m : ℕ) (found : Connection)
      → m ≢ n
      → (there : HasEnds c m found) → found.sink ≢ connection.sink
  sink_apart m found differ there same =
      let e : (store_of c).sink_at connection.sink ≡ some there.sink = rw same at there.sink_is in
      let one : some ends.sink ≡ some there.sink = sym ends.sink_is ∙ e in
      let owner : ends.sink.owner ≡ there.sink.owner = ground arith in
      differ (sym there.sink_owner ∙ sym owner ∙ ends.sink_owner)

  -- A connection with another descriptor is another one.
  kept :
      (m : ℕ) (found : Connection)
      → found.sock_fd ≢ connection.sock_fd
      → c.connection_at m ≡ some found
      → put c.connection_at n none m ≡ some found
  kept m found differ at = elim (Bool-cases (m == n)) [
    | inl hit ↦ absurd (
        differ (
          let here : c.connection_at n ≡ some found = let e : m ≡ n = ground arith in rw (← e) at in
          let one : some connection ≡ some found = sym at_n ∙ here in ground arith))
    | inr miss ↦ rw miss at
  ]

-- Where the invariant of the core holds and `epoll_ctl` removes the descriptor, destroying a
-- connection returns, and the invariant holds again. The connection is gone, the others are as they
-- were, no event has its descriptor, the events of other descriptors stay, and the core's list does
-- not hold it any more. Where it stood there, the list has one NULL more, which the core's number of
-- NULLs does not count.
pub connection_destroy-IsDestroyed :
    (c : CoreState) (n : ℕ) (connection : Connection)
    → IsCore c
    → c.connection_at n ≡ some connection
    → (c' : CoreState) × (connection_destroy true n c ≡ done c') × IsDestroyed n connection c c'
unfolding connection_destroy
connection_destroy-IsDestroyed c n connection w at_n =
    let own = ends c n connection w at_n in
    let (r, detached, watched, rest, others) =
      loop_detach-rest connection.sock_fd c.loop w.watched w.one_each in
    let (s1, run1, w1, sources1, sinks1) =
      source_destroy-IsStore (store_of c) connection.source own.source w.store own.source_is in
    let (s2, run2, w2, sinks2, sources2) =
      sink_destroy-IsStore s1 connection.sink own.sink w1
        (ap (λ m. m connection.sink) sinks1 ∙ own.sink_is) in
    (
      with_store s2 (record c {
        loop = r.1;
        connections = (mark_null n c.connections).1;
        connection_at = put c.connection_at n none;
      }),
      bind_deref _ connection _ at_n ∙ >>=-done _ detached ∙ >>=-done _ run1 ∙ >>=-done _ run2,
      record {
        core = record {
          store = w2;
          watched = watched;
          ends = λ m found at.
              let (differ, there) = other c n connection w at_n m found at in
              let h = w.ends m found there in
              let so = source_apart c n connection w at_n m found differ h in
              let si = sink_apart c n connection w at_n m found differ h in
              record {
                source = h.source;
                source_is =
                    ap (λ t. t found.source) (sources2 ∙ sources1)
                    ∙ (let e = h.source_is in ground arith);
                source_owner = h.source_owner;
                sink = h.sink;
                sink_is =
                    ap (λ t. t found.sink) (sinks2 ∙ ap (λ t. put t connection.sink none) sinks1)
                    ∙ (let e = h.sink_is in ground arith);
                sink_owner = h.sink_owner;
              };
          unused = λ m le. let (u, v) = w.unused m le in (ground arith, v);
          apart = λ m found at. w.apart m found (other c n connection w at_n m found at).1;
          listed = λ m has.
              let (there, differ) = mark_null-Has n m c.connections w.unique has in
              let (found, at) = w.listed m there in (found, ground arith);
          unique = mark_null-Unique n c.connections w.unique;
          owned = λ e event has at.
              let (has', at', fd_apart) = rest e event has at in
              elim (w.owned e event has' at') [
                | inl (found, at_ptr, same) ↦ inl (
                  found,
                  kept c n connection w at_n event.ptr found (λ e. fd_apart (sym same ∙ e)) at_ptr,
                  same,
                )
                | inr listens ↦ inr listens
              ];
          one_each = λ e e' event event' has at has' at'.
              let (h, a, _) = rest e event has at in
              let (h', a', _) = rest e' event' has' at' in w.one_each e e' event event' h a h' a';
        };
        gone = put_at c.connection_at n none;
        others = λ m differ. ground arith;
        listeners = refl;
        no_event = λ e event has at. (rest e event has at).2;
        left = λ e event has at. let (there, was, _) = rest e event has at in (there, was);
        kept_events = others;
        unlisted = λ has. (mark_null-Has n n c.connections w.unique has).1 refl;
        null_more = nulls-mark_null_found n c.connections;
        not_counted = refl;
      },
    )

-- ===== src/Network/Kept.antt =====
-- src/network/: what stays of the core while the store of the pipes changes.
use nw_lab.Core.Loop.Events.{Loop}
use nw_lab.Core.Loop.Events.Watched.{IsWatched}
use nw_lab.Core.Loop.Marks.{Has}
use nw_lab.Core.Pipe.{Store, put}
use nw_lab.Core.Pipe.Keeps.{KeepsEnds, KeepsEnds-refl}
use nw_lab.Core.Pipe.Stored.{IsStore}
use nw_lab.Core.Session.{Session, World}
use nw_lab.Network.Invariant.{HasEnds, IsCore}
use nw_lab.Network.Structs.{Connection, CoreState, store_of, with_store}
use nw_lab.Prelude.{
  ℕ, ◌≤◌, ◌≡◌, refl, sym, ap, ◌∙◌, inl, inr, Option, some, arith, ◌==◌, Bool-cases, Option-cases,
  some-none,
}

pub HasEnds-later :
    (c c' : CoreState) (n : ℕ) (connection : Connection)
    → HasEnds c n connection
    → KeepsEnds (store_of c) (store_of c')
    → HasEnds c' n connection
HasEnds-later c c' n connection h k =
    let (source, source_is, source_owner) = k.sources connection.source h.source h.source_is in
    let (sink, sink_is, sink_owner) = k.sinks connection.sink h.sink h.sink_is in
    record {
      source = source;
      source_is = source_is;
      source_owner = source_owner ∙ h.source_owner;
      sink = sink;
      sink_is = sink_is;
      sink_owner = sink_owner ∙ h.sink_owner;
    }

pub with_store-IsCore :
    (c : CoreState) (s : Store)
    → IsCore c
    → IsStore s
    → KeepsEnds (store_of c) s
    → IsCore (with_store s c)
with_store-IsCore c s w store k = record {
  store = store;
  watched = w.watched;
  ends =
      λ n connection at. HasEnds-later c (with_store s c) n connection (w.ends n connection at) k;
  unused = w.unused;
  apart = w.apart;
  listed = w.listed;
  unique = w.unique;
  owned = w.owned;
  one_each = w.one_each;
}

-- The events of the list are as they were.
pub same_events-IsCore :
    (c : CoreState) (loop : Loop)
    → IsCore c
    → IsWatched loop
    → loop.events ≡ c.loop.events
    → ((e : ℕ) → Has e c.loop.events → loop.event_at e ≡ c.loop.event_at e)
    → IsCore (record c { loop = loop })
same_events-IsCore c loop w watched events same = record {
  store = w.store;
  watched = watched;
  ends = λ n connection at.
      HasEnds-later c (record c { loop = loop }) n connection (w.ends n connection at)
        (KeepsEnds-refl (store_of c));
  unused = w.unused;
  apart = w.apart;
  listed = w.listed;
  unique = w.unique;
  owned = λ e event has at. let old = was e has in w.owned e event old (sym (same e old) ∙ at);
  one_each = λ e e' event event' has at has' at'.
      let old = was e has in
      let old' = was e' has' in
      w.one_each e e' event event' old (sym (same e old) ∙ at) old' (sym (same e' old') ∙ at');
}
  where
    was : (e : ℕ) → Has e loop.events → Has e c.loop.events
    was e has = rw events at has

-- Sessions come and go beside the connections, and addresses are used up.
pub with_world-IsCore :
    (c : CoreState) (w : World) (sessions : ℕ → Option Session) (next : ℕ)
    → IsCore c
    → IsStore w.store
    → KeepsEnds (store_of c) w.store
    → c.next ≤ next
    → IsCore (record c { world = w; session_at = sessions; next = next })
with_world-IsCore c w sessions next core store k le = record {
  store = store;
  watched = core.watched;
  ends = λ n connection at.
      HasEnds-later c (record c { world = w; session_at = sessions; next = next }) n connection
        (core.ends n connection at) k;
  unused = λ n above. core.unused n (omega arith);
  apart = core.apart;
  listed = core.listed;
  unique = core.unique;
  owned = core.owned;
  one_each = core.one_each;
}

-- A connection is replaced by one with the same descriptor and the same ends.
module _ (c : CoreState) (n : ℕ) (connection changed : Connection) (w : IsCore c)
    (at_n : c.connection_at n ≡ some connection) (same_fd : changed.sock_fd ≡ connection.sock_fd)
    (same_source : changed.source ≡ connection.source)
    (same_sink : changed.sink ≡ connection.sink) where
  abbrev replaced : CoreState
  replaced = record c { connection_at = put c.connection_at n (some changed) }

  was :
      (m : ℕ) (found : Connection)
      → replaced.connection_at m ≡ some found
      → (old : Connection) × (c.connection_at m ≡ some old)
        × (found.sock_fd ≡ old.sock_fd)
        × (found.source ≡ old.source)
        × (found.sink ≡ old.sink)
  was m found at = elim (Bool-cases (m == n)) [
    | inl hit ↦
        let here : m ≡ n = ground arith in
        let one : some changed ≡ some found = rw hit at at in
        let e : changed ≡ found = cc in
        (
          connection,
          ap c.connection_at here ∙ at_n,
          rw (← e) same_fd,
          rw (← e) same_source,
          rw (← e) same_sink,
        )
    | inr miss ↦ (found, rw miss at at, refl, refl, refl)
  ]

  pub is_still :
      (m : ℕ) (found : Connection)
      → c.connection_at m ≡ some found
      → (now : Connection) × (replaced.connection_at m ≡ some now) × (now.sock_fd ≡ found.sock_fd)
  is_still m found at = elim (Bool-cases (m == n)) [
    | inl hit ↦
        let here : m ≡ n = ground arith in
        let one : some found ≡ some connection = sym at ∙ ap c.connection_at here ∙ at_n in
        let e : found ≡ connection = cc in (changed, rw hit refl, rw e same_fd)
    | inr miss ↦ (found, rw miss at, refl)
  ]

  pub replaced-IsCore : IsCore (record c { connection_at = put c.connection_at n (some changed) })
  replaced-IsCore = record {
    store = w.store;
    watched = w.watched;
    ends = λ m found at.
        let (old, there, _, source_same, sink_same) = was m found at in
        let h = w.ends m old there in
        record {
          source = h.source;
          source_is = rw source_same h.source_is;
          source_owner = h.source_owner;
          sink = h.sink;
          sink_is = rw sink_same h.sink_is;
          sink_owner = h.sink_owner;
        };
    unused = λ m le.
        let (gone, none_either) = w.unused m le in
        (
          elim (Option-cases (replaced.connection_at m)) [
            | inl e ↦ e
            | inr (found, at) ↦
                let (old, there, _, _, _) = was m found at in absurd (some-none (sym there ∙ gone))
          ],
          none_either,
        );
    apart = λ m found at. let (old, there, _, _, _) = was m found at in w.apart m old there;
    listed = λ m has.
        let (found, at) = w.listed m has in
        let (now, there, _) = is_still m found at in (now, there);
    unique = w.unique;
    owned = λ e event has at. elim (w.owned e event has at) [
      | inl (found, at_ptr, fd) ↦
          let (now, there, fd_same) = is_still event.ptr found at_ptr in
          inl (now, there, fd_same ∙ fd)
      | inr listens ↦ inr listens
    ];
    one_each = w.one_each;
  }

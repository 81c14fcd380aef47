-- ===== src/Network/Dispatch/Called.antt =====
-- src/network/: what the callbacks of connections and listeners leave of the core.
use nw_lab.Core.Loop.Events.{Event, Loop, is_attached, on_readable, on_writable}
use nw_lab.Core.Loop.Events.Watched.{IsWatched}
use nw_lab.Core.Loop.Marks.{Has}
use nw_lab.Core.Pipe.Flow.{bind_deref}
use nw_lab.Core.Pipe.Keeps.{KeepsEnds-refl}
use nw_lab.Core.Pipe.Readied.{set_source_ready-KeepsEnds, set_sink_ready-KeepsEnds}
use nw_lab.Network.Connection.{loop_read_handler, loop_write_handler}
use nw_lab.Network.Invariant.{Owned, IsCore}
use nw_lab.Network.Kept.{HasEnds-later, with_store-IsCore}
use nw_lab.Network.Listener.{Arrival}
use nw_lab.Network.Listener.Accepts.{AreWaiting, KeepsEvents, listener_connection_handler-AllTaken}
use nw_lab.Network.Structs.{Connection, CoreState, store_of, with_store}
use nw_lab.Prelude.{
  ℕ, ◌≡◌, refl, sym, ◌∙◌, inl, inr, Bool, true, false, List, [], ◌∷◌, Option, none, some, Exec,
  done, ◌==◌, arith, Bool-cases, >>=-done,
}
use nw_lab.Network.Dispatch.{core_read, core_callbacks}

-- The loop has fewer events.
pub fewer_events-IsCore :
    (c : CoreState) (loop : Loop)
    → IsCore c
    → IsWatched loop
    → ((e : ℕ) (event : Event)
        → Has e loop.events
        → loop.event_at e ≡ some event
        → Has e c.loop.events × (c.loop.event_at e ≡ some event))
    → IsCore (record c { loop = loop })
fewer_events-IsCore c loop w watched was = record {
  store = w.store;
  watched = watched;
  ends = λ n connection at.
      HasEnds-later c (record c { loop = loop }) n connection (w.ends n connection at)
        (KeepsEnds-refl (store_of c));
  unused = w.unused;
  apart = w.apart;
  listed = w.listed;
  unique = w.unique;
  owned = λ e event has at. let (old, there) = was e event has at in w.owned e event old there;
  one_each = λ e e' event event' has at has' at'.
      let (old, there) = was e event has at in
      let (old', there') = was e' event' has' at' in
      w.one_each e e' event event' old there old' there';
}

pub chosen : (b : Bool) (m k : Exec CoreState) → b ≡ true → (elim b [ true ↦ m | false ↦ k ]) ≡ m
chosen true m k e = refl
chosen false m k e = cc

pub not_chosen :
    (b : Bool) (m k : Exec CoreState) → b ≡ false → (elim b [ true ↦ m | false ↦ k ]) ≡ k
not_chosen true m k e = cc
not_chosen false m k e = refl

pub is_attached-Has :
    (e : ℕ) (events : List (Option ℕ)) → is_attached e events ≡ true → Has e events
unfolding is_attached
is_attached-Has e [] h = cc
is_attached-Has e (none ∷ events) h = is_attached-Has e events h
is_attached-Has e (some x ∷ events) h = elim (Bool-cases (x == e)) [
  | inl hit ↦ inl (ground arith)
  | inr miss ↦ inr (is_attached-Has e events (rw miss at h))
]

-- A callback keeps the invariant and the events.
abbrev pub Returns : CoreState → Exec CoreState → Type 0
Returns c m = (c' : CoreState) × (m ≡ done c') × IsCore c' × KeepsEvents c c'

same_events : (c : CoreState) → KeepsEvents c c
same_events c e event has at = (has, at)

module _ (c : CoreState) (w : IsCore c) (n : ℕ) (connection : Connection)
    (at_n : c.connection_at n ≡ some connection) where
  loop_read_handler-Returns : Returns c (loop_read_handler n c)
  unfolding loop_read_handler
  loop_read_handler-Returns =
      let h = w.ends n connection at_n in
      let (s, run, store, keeps) =
        set_source_ready-KeepsEnds connection.source true (store_of c) h.source w.store
          h.source_is in
      (
        with_store s c,
        bind_deref _ connection _ at_n ∙ >>=-done _ run,
        with_store-IsCore c s w store keeps,
        λ e event has at. (has, at),
      )

  loop_write_handler-Returns : Returns c (loop_write_handler n c)
  unfolding loop_write_handler
  loop_write_handler-Returns =
      let h = w.ends n connection at_n in
      let (s, run, store, keeps, _, _) =
        set_sink_ready-KeepsEnds connection.sink true (store_of c) h.sink w.store h.sink_is in
      (
        with_store s c,
        bind_deref _ connection _ at_n ∙ >>=-done _ run,
        with_store-IsCore c s w store keeps,
        λ e event has at. (has, at),
      )

module _ (waiting : CoreState → ℕ → List Arrival)
    (new : (c : CoreState) (l : ℕ) → IsCore c → AreWaiting c (waiting c l)) where
  core_read-Returns :
      (c : CoreState) (event : Event)
      → IsCore c
      → Owned c event
      → Returns c (core_read waiting event.ptr c)
  unfolding core_read
  core_read-Returns c event w (inl (connection, at, _)) =
      rw (w.apart event.ptr connection at, core_read)
        (loop_read_handler-Returns c w event.ptr connection at)
  core_read-Returns c event w (inr (listener, at, _, _)) =
      let (c', run, core, _, events, _) =
        listener_connection_handler-AllTaken (waiting c event.ptr) event.ptr c w listener at
          (new c event.ptr w) in
      (c', rw (at, core_read) run, core, events)

  pub on_readable-Returns :
      (c : CoreState) (e : ℕ) (event : Event) (flag : Bool)
      → IsCore c
      → Has e c.loop.events
      → c.loop.event_at e ≡ some event
      → Returns c (on_readable (core_callbacks waiting) e flag c)
  unfolding on_readable
  on_readable-Returns c e event false w has at = (c, refl, w, same_events c)
  on_readable-Returns c e event true w has at = elim (Bool-cases event.read_cb) [
    | inl there ↦
        let (c', run, core, events) = core_read-Returns c event w (w.owned e event has at) in
        (c', bind_deref _ event _ at ∙ chosen _ _ _ there ∙ run, core, events)
    | inr nothing ↦ (c, bind_deref _ event _ at ∙ not_chosen _ _ _ nothing, w, same_events c)
  ]

  pub on_writable-Returns :
      (c : CoreState) (e : ℕ) (event : Event) (flag : Bool)
      → IsCore c
      → Has e c.loop.events
      → c.loop.event_at e ≡ some event
      → Returns c (on_writable (core_callbacks waiting) e flag c)
  unfolding on_writable
  on_writable-Returns c e event false w has at = (c, refl, w, same_events c)
  on_writable-Returns c e event true w has at = elim (Bool-cases event.write_cb) [
    | inl there ↦ elim (w.owned e event has at) [
      | inl (connection, at_ptr, _) ↦
          let (c', run, core, events) =
            loop_write_handler-Returns c w event.ptr connection at_ptr in
          (c', bind_deref _ event _ at ∙ chosen _ _ _ there ∙ run, core, events)
      | inr (_, _, _, silent) ↦ absurd (let e = sym there ∙ silent in cc)
    ]
    | inr nothing ↦ (c, bind_deref _ event _ at ∙ not_chosen _ _ _ nothing, w, same_events c)
  ]

-- ===== src/Network/Connection/Attaches.antt =====
-- src/network/xps_connection.c: a connection that is attached to the loop.
use nw_lab.Core.Loop.Events.{Event, Loop}
use nw_lab.Core.Loop.Events.Watched.{IsWatched}
use nw_lab.Core.Loop.Marks.{Has, vec_push-Has, vec_push-Unique}
use nw_lab.Core.Pipe.{put}
use nw_lab.Core.Pipe.Links.{put_at}
use nw_lab.Network.Invariant.{HasEnds, IsFreshFd, IsCore}
use nw_lab.Network.Kept.{HasEnds-later}
use nw_lab.Core.Pipe.Keeps.{KeepsEnds-refl}
use nw_lab.Network.Structs.{Connection, CoreState, store_of}
use nw_lab.Prelude.{
  ℕ, ◌<◌, ◌≡◌, ◌≢◌, sym, ap, ◌∙◌, ◌⊎◌, inl, inr, Bool, none, some, arith, ◌==◌, Bool-cases,
}
use nw_lab.Vec.{vec_push}

-- The connection is in the core's list.
abbrev pub attach_to : (c : CoreState) (n : ℕ) → Connection → Loop → (grown : Bool) → CoreState
attach_to c n connection loop grown = record c {
  loop = loop;
  connections = vec_push grown c.connections (some n);
  connection_at = put c.connection_at n (some connection);
}

-- A connection that was there has another address.
pub kept_connection :
    (c : CoreState) (n : ℕ) (connection : Connection) (m : ℕ) (found : Connection)
    → c.connection_at n ≡ none
    → c.connection_at m ≡ some found
    → put c.connection_at n (some connection) m ≡ some found
kept_connection c n connection m found unused at = elim (Bool-cases (m == n)) [
  | inl hit ↦
      let here : m ≡ n = ground arith in
      absurd (let one : some found ≡ none = sym at ∙ ap c.connection_at here ∙ unused in cc)
  | inr miss ↦ rw miss at
]

-- A core `c` whose next address is given to a connection: its event is in the list of the loop `loop`.
module _ (c : CoreState) (n : ℕ) (connection : Connection) (loop : Loop) (event : Event)
    (grown_events grown : Bool) (w : IsCore c) (fresh : IsFreshFd c connection.sock_fd)
    (unused : (c.connection_at n ≡ none) × (c.listener_at n ≡ none)) (below : n < c.next)
    (ends : HasEnds c n connection) (watched : IsWatched loop)
    (events_are : loop.events ≡ vec_push grown_events c.loop.events (some c.loop.next))
    (event_at_is : loop.event_at ≡ put c.loop.event_at c.loop.next (some event))
    (fd_is : event.fd ≡ connection.sock_fd) (ptr_is : event.ptr ≡ n) where
  abbrev attached : CoreState
  attached = attach_to c n connection loop grown

  -- A connection that the core has is the new one, or was there before.
  which_connection :
      (m : ℕ) (found : Connection)
      → attached.connection_at m ≡ some found
      → ((m ≡ n) × (found ≡ connection)) ⊎ ((m ≢ n) × (c.connection_at m ≡ some found))
  which_connection m found at = elim (Bool-cases (m == n)) [
    | inl hit ↦ inl (ground arith, let e : some connection ≡ some found = rw hit at at in cc)
    | inr miss ↦ inr (λ x. ground arith, rw miss at at)
  ]

  -- An event of the loop is the new one, or was there before.
  pub which_event :
      (e : ℕ) (found : Event)
      → Has e loop.events
      → loop.event_at e ≡ some found
      → ((e ≡ c.loop.next) × (found ≡ event))
        ⊎ (Has e c.loop.events × (c.loop.event_at e ≡ some found))
  which_event e found has at =
      let at' : put c.loop.event_at c.loop.next (some event) e ≡ some found =
        sym (ap (λ m. m e) event_at_is) ∙ at in
      elim (vec_push-Has grown_events c.loop.events c.loop.next e (rw events_are at has)) [
        | inl old_one ↦ let low = w.watched.fresh e old_one in inr (old_one, ground arith)
        | inr here ↦ inl (sym here, ground arith)
      ]

  pub attach_to-IsCore : IsCore (attach_to c n connection loop grown)
  attach_to-IsCore = record {
    store = w.store;
    watched = watched;
    ends = λ m found at. elim (which_connection m found at) [
      | inl (here, same) ↦
          rw (here, same) (HasEnds-later c attached n connection ends (KeepsEnds-refl (store_of c)))
      | inr (differ, there) ↦
          HasEnds-later c attached m found (w.ends m found there) (KeepsEnds-refl (store_of c))
    ];
    unused = λ m le. let (u, v) = w.unused m le in (ground arith, v);
    apart = λ m found at. elim (which_connection m found at) [
      | inl (here, same) ↦ rw here unused.1
      | inr (differ, there) ↦ w.apart m found there
    ];
    listed = λ m has. elim (vec_push-Has grown c.connections n m has) [
      | inl old_one ↦
          let (found, at) = w.listed m old_one in
          (found, kept_connection c n connection m found unused.0 at)
      | inr here ↦ (connection, rw (← here) (put_at c.connection_at n _))
    ];
    unique =
        vec_push-Unique grown c.connections n
          (λ has. let (found, at) = w.listed n has in let gone = unused.0 in cc) w.unique;
    owned = λ e found has at. elim (which_event e found has at) [
      | inl (here, same) ↦ inl (
        connection,
        ap attached.connection_at (ap (λ x. x.ptr) same ∙ ptr_is) ∙ put_at c.connection_at n _,
        sym (ap (λ x. x.fd) same ∙ fd_is),
      )
      | inr (there, at') ↦ elim (w.owned e found there at') [
        | inl (owner, at_ptr, fd_same) ↦
            inl (owner, kept_connection c n connection found.ptr owner unused.0 at_ptr, fd_same)
        | inr listens ↦ inr listens
      ]
    ];
    one_each = λ e e' found found' has at has' at' same_fd. elim (which_event e found has at) [
      | inl (here, same) ↦ elim (which_event e' found' has' at') [
        | inl (here', same') ↦ here ∙ sym here'
        | inr (there', old') ↦
            absurd (fresh e' found' there' old' (sym same_fd ∙ ap (λ x. x.fd) same ∙ fd_is))
      ]
      | inr (there, old) ↦ elim (which_event e' found' has' at') [
        | inl (here', same') ↦
            absurd (fresh e found there old (same_fd ∙ ap (λ x. x.fd) same' ∙ fd_is))
        | inr (there', old') ↦ w.one_each e e' found found' there old there' old' same_fd
      ]
    ];
  }

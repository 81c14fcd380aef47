-- ===== src/Network/Connection/Sends.antt =====
-- src/network/xps_connection.c: what the handler of a connection's sink sends to its socket.
use nw_lab.Buffer.{Buffer, contents}
use nw_lab.Buffer.Lists.{BufferList}
use nw_lab.Buffer.Queued.{queued, IsQueue}
use nw_lab.Core.Pipe.{Pipe, End, Store, put}
use nw_lab.Core.Pipe.Flow.{sink_read-take, sink_clear-Cleared, bind_deref}
use nw_lab.Core.Pipe.Links.{Linked}
use nw_lab.Core.Pipe.Ready.{set_sink_ready_lem}
use nw_lab.Core.Pipe.Transfer.{set_list}
use nw_lab.Core.Session.{available_at}
use nw_lab.Memory.{Sized, take_all}
use nw_lab.Network.Structs.{Connection, CoreState, store_of, with_store}
use nw_lab.Network.Connection.{
  offer, send_available, Handling, Taken, send_again, send_error, send_taken, emit, on_taken,
  connection_destroy, sink_handler,
}
use nw_lab.Prelude.{
  ℕ, ◌≤◌, ◌<◌, ◌≡◌, refl, ap, ◌∙◌, ◌⊎◌, inl, inr, true, false, Bytes, [], ◌∷◌, some, Exec, done,
  ◌==◌, length, take, drop, arith, Bool-cases, >>=-done,
}

-- A connection whose sink is `k`, with a pipe that holds a well-formed queue.
pub record IsDraining (c : CoreState) (n k p : ℕ) (connection : Connection) (end : End)
    (pipe : Pipe) : Type 0 where
  pub linked : Linked (store_of c)
  pub connection_is : c.connection_at n ≡ some connection
  pub sink_is : connection.sink ≡ k
  pub end_is : (store_of c).sink_at k ≡ some end
  pub owner_is : end.owner ≡ n
  pub pipe_is : (store_of c).pipe_at p ≡ some pipe
  pub has : pipe.sink ≡ some k
  pub queue : IsQueue pipe.buff_list

pub no_bytes : (q : Bytes) → length q ≡ 0 → q ≡ []
no_bytes [] e = refl
no_bytes (x ∷ q) e = cc

available_at_lem :
    (s : Store) (p k : ℕ) (pipe : Pipe) (end : End)
    → Linked s
    → s.pipe_at p ≡ some pipe
    → pipe.sink ≡ some k
    → s.sink_at k ≡ some end
    → available_at k s ≡ done pipe.buff_list.len
unfolding available_at
available_at_lem s p k pipe end l at_p has at_k =
    let back : end.pipe ≡ some p = rw at_k at ((l.sinks p k).0 (rw at_p has)) in
    bind_deref (s.sink_at k) end _ at_k ∙ rw back (bind_deref (s.pipe_at p) pipe _ at_p)

module _ (h : Handling) (c : CoreState) (n p : ℕ) (connection : Connection) (end : End)
    (pipe : Pipe) where
  -- What the handler leaves, by what `send` answered to the whole queue.
  abbrev pub AfterSend : Taken → Exec CoreState → Type 0
  AfterSend send_again m =
      m
      ≡ done (
          with_store
            (record (store_of c) {
              sink_at =
                  put (store_of c).sink_at connection.sink (some (record end { ready = false }));
            })
            c)
  AfterSend send_error m = m ≡ connection_destroy h.deleted n c
  AfterSend (send_taken w) m =
      ((w ≡ 0) × (m ≡ done c))
      ⊎ ((0 < w)
          × (l : BufferList) × (m
              ≡ done (
                  with_store (set_list p pipe l (store_of c))
                    (emit connection.sock_fd (take w (queued pipe.buff_list.list)) c)))
          × IsQueue l
          × (queued l.list ≡ drop w (queued pipe.buff_list.list))
          × Linked (set_list p pipe l (store_of c)))

  on_taken-AfterSend :
      (k : ℕ) (buff : Buffer) (answer : Taken)
      → IsDraining c n k p connection end pipe
      → contents buff ≡ queued pipe.buff_list.list
      → h.cleared ≡ (λ n. true)
      → ((w : ℕ) → answer ≡ send_taken w → w ≤ pipe.buff_list.len)
      → AfterSend answer (on_taken h answer n connection buff c)
  unfolding on_taken
  on_taken-AfterSend k buff send_again d same cleared within =
      >>=-done _ (set_sink_ready_lem connection.sink false (store_of c) end (rw d.sink_is d.end_is))
  on_taken-AfterSend k buff send_error d same cleared within = refl
  on_taken-AfterSend k buff (send_taken w) d same cleared within = elim (Bool-cases (w == 0)) [
    | inl none_taken ↦ inl (ground arith, rw (none_taken, on_taken) refl)
    | inr taken ↦
        let pos : 0 < w = ground arith in
        elim (sink_clear-Cleared (store_of c) p connection.sink w pipe d.linked d.pipe_is
          (rw d.sink_is d.has) d.queue pos) [
            | inl (le, (l, run, queue, bytes, linked)) ↦ inr (
              pos,
              l,
              rw (taken, on_taken) (rw (cleared, same) (>>=-done _ run)),
              queue,
              bytes,
              linked,
            )
            | inr (short, run) ↦ absurd (let le = within w refl in omega arith)
          ]
  ]

-- The handler of a connection's sink, whose pipe holds a well-formed queue, where its buffer is
-- allocated and vectors can grow. An empty queue changes nothing. Else the whole queue is offered to
-- the socket: if the socket would block, the sink is not ready any more; at an error the connection is
-- destroyed; if the socket takes `w` bytes, no more than were offered, these are the first `w` of the
-- queue, the rest stays queued in its order, nothing else changes, and the links stay mutual.
pub sink_handler-AfterSend :
    (h : Handling) (send : Bytes → Taken) (c : CoreState) (n k p : ℕ) (connection : Connection)
    (end : End) (pipe : Pipe) (block : Bytes)
    → IsDraining c n k p connection end pipe
    → Sized h.buff
    → h.buff.struct ≡ true
    → h.buff.block pipe.buff_list.len ≡ some block
    → h.cleared ≡ (λ i. true)
    → ((offered : Bytes) (w : ℕ) → send offered ≡ send_taken w → w ≤ length offered)
    → let q = queued pipe.buff_list.list in
      ((q ≡ []) × (sink_handler h send k c ≡ done c))
      ⊎ ((0 < length q) × AfterSend h c n p connection end pipe (send q) (sink_handler h send k c))
unfolding sink_handler send_available offer
sink_handler-AfterSend h send c n k p connection end pipe block d sized st bl cleared within =
    elim (Bool-cases (pipe.buff_list.len == 0)) [
      | inl is_empty ↦
          inl (
            no_bytes q (ground (arith, d.queue.counted)),
            start ∙ rw (is_empty, send_available) refl,
          )
      | inr full ↦
          let pos : 0 < pipe.buff_list.len = ground arith in
          elim (sink_read-take h.buff (store_of c) p k pipe.buff_list.len pipe block d.linked
            d.pipe_is d.has d.queue pos sized st bl) [
              | inr (short, _) ↦ absurd (omega arith)
              | inl (_, b, run, bytes, _) ↦
                  let whole : contents b ≡ q =
                    bytes ∙ take_all _ q (omega (arith, d.queue.counted)) in
                  inr (
                    omega (arith, d.queue.counted),
                    rw
                        (start
                          ∙ rw (full, send_available)
                              (>>=-done _ run
                                ∙ bind_deref (c.connection_at n) connection _ d.connection_is)
                          ∙ ap (λ x. on_taken h (send x) n connection b c) whole)
                        (on_taken-AfterSend h c n p connection end pipe k b (send q) d whole cleared
                          (λ w e. omega (arith, within q w e, d.queue.counted))),
                  )
            ]
    ]
  where
    q : Bytes
    q = queued pipe.buff_list.list

    start : sink_handler h send k c ≡ send_available h send k n pipe.buff_list.len c
    start =
        bind_deref ((store_of c).sink_at k) end _ d.end_is
        ∙ >>=-done _ (available_at_lem (store_of c) p k pipe end d.linked d.pipe_is d.has d.end_is)
        ∙ ap (λ o. send_available h send k o pipe.buff_list.len c) d.owner_is

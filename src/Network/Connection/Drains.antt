-- ===== src/Network/Connection/Drains.antt =====
-- src/network/xps_connection.c: the handler of a connection's sink, called again and again.
use nw_lab.Buffer.Lists.{BufferList}
use nw_lab.Buffer.Queued.{queued}
use nw_lab.Core.Pipe.{Pipe, End}
use nw_lab.Core.Pipe.Links.{put_at}
use nw_lab.Core.Pipe.Transfer.{set_list}
use nw_lab.Memory.{Sized}
use nw_lab.Network.Structs.{Connection, CoreState, store_of, with_store}
use nw_lab.Network.Connection.{Handling, Taken, send_taken, emit, sink_handler}
use nw_lab.Network.Connection.Sends.{IsDraining, sink_handler-AfterSend, no_bytes}
use nw_lab.Prelude.{
  true, ℕ, zero, suc, ◌≤◌, ◌<◌, ◌≡◌, refl, sym, ap, ◌∙◌, inl, inr, Bytes, [], ◌++◌, some, Exec,
  done, ◌>>=◌, length, take, drop, arith, >>=-done, append_assoc, append-nil, length-drop,
  take-append-drop,
}

-- The handler of sink `k` is called `rounds` times; `sends` answers by the rounds that are left.
unfoldable pub run_sink :
    (rounds : ℕ) → Handling → (sends : ℕ → Bytes → Taken) → (k : ℕ) → CoreState → Exec CoreState
run_sink zero h sends k c = done c
run_sink (suc rounds) h sends k c =
    sink_handler h (sends rounds) k c >>= λ c1. run_sink rounds h sends k c1

-- A socket that takes at least one byte of what it is offered, and no more than that.
pub record IsTaking (send : Bytes → Taken) : Type 0 where
  pub within : (offered : Bytes) (w : ℕ) → send offered ≡ send_taken w → w ≤ length offered
  pub progress :
      (offered : Bytes) → 0 < length offered → (w : ℕ) × (send offered ≡ send_taken w) × (0 < w)

-- Every allocation of the handler succeeds, and every vector can grow.
pub record IsGenerous (h : Handling) : Type 0 where
  pub sized : Sized h.buff
  pub struct : h.buff.struct ≡ true
  pub block : (n : ℕ) → (b : Bytes) × (h.buff.block n ≡ some b)
  pub cleared : h.cleared ≡ (λ i. true)

emit_at : (fd : ℕ) (bytes : Bytes) (c : CoreState) → (emit fd bytes c).out fd ≡ c.out fd ++ bytes
emit_at fd bytes c = ground arith

module _ (h : Handling) (n k p : ℕ) (connection : Connection) (end : End) (g : IsGenerous h) where
  -- One call sends a part of the queue.
  abbrev OneRound : (Bytes → Taken) → CoreState → Pipe → Type 0
  OneRound send c pipe =
      (w : ℕ) × (l : BufferList) × (c1 : CoreState) × (0 < w)
      × (sink_handler h send k c ≡ done c1)
      × IsDraining c1 n k p connection end (record pipe { buff_list = l })
      × (queued l.list ≡ drop w (queued pipe.buff_list.list))
      × (c1.out connection.sock_fd
          ≡ c.out connection.sock_fd ++ take w (queued pipe.buff_list.list))

  one_round :
      (send : Bytes → Taken) (c : CoreState) (pipe : Pipe)
      → IsTaking send
      → IsDraining c n k p connection end pipe
      → 0 < length (queued pipe.buff_list.list)
      → OneRound send c pipe
  one_round send c pipe taking d pos =
      let (block, given) = g.block pipe.buff_list.len in
      let (w, answer, some_taken) = taking.progress (queued pipe.buff_list.list) pos in
      elim (sink_handler-AfterSend h send c n k p connection end pipe block d g.sized g.struct given
        g.cleared taking.within) [
          | inl (is_empty, _) ↦ absurd (ground (arith, is_empty))
          | inr (_, after) ↦ elim (rw answer at after) [
            | inl (nothing, _) ↦ absurd (omega arith)
            | inr (_, l, run, queue, rest, linked) ↦ (
              w,
              l,
              with_store (set_list p pipe l (store_of c))
                  (emit connection.sock_fd (take w (queued pipe.buff_list.list)) c),
              some_taken,
              run,
              record {
                linked = linked;
                connection_is = d.connection_is;
                sink_is = d.sink_is;
                end_is = d.end_is;
                owner_is = d.owner_is;
                pipe_is = put_at (store_of c).pipe_at p _;
                has = d.has;
                queue = queue;
              },
              rest,
              emit_at connection.sock_fd _ c,
            )
          ]
        ]

  -- The socket took everything, and the pipe holds nothing.
  abbrev pub Delivered : (c : CoreState) → Pipe → Exec CoreState → Type 0
  Delivered c pipe m =
      (c' : CoreState) × (l : BufferList) × (m ≡ done c')
      × (c'.out connection.sock_fd ≡ c.out connection.sock_fd ++ queued pipe.buff_list.list)
      × (queued l.list ≡ [])
      × IsDraining c' n k p connection end (record pipe { buff_list = l })

  -- Where allocations succeed, vectors can grow, and the socket takes at least one byte of whatever it
  -- is offered, and no more than that, the handler of a connection's sink, called as often as its pipe
  -- has bytes or more often, gets all of them delivered: the socket takes exactly the queue, in its
  -- order, and the pipe is empty in the end.
  pub run_sink-Delivered :
      (rounds : ℕ) (sends : ℕ → Bytes → Taken) (c : CoreState) (pipe : Pipe)
      → ((i : ℕ) → IsTaking (sends i))
      → IsDraining c n k p connection end pipe
      → length (queued pipe.buff_list.list) ≤ rounds
      → Delivered c pipe (run_sink rounds h sends k c)
  unfolding run_sink
  run_sink-Delivered zero sends c pipe taking d short =
      let is_empty : queued pipe.buff_list.list ≡ [] = no_bytes _ (omega arith) in
      (c, pipe.buff_list, refl, rw is_empty (sym (append-nil _)), is_empty, d)
  run_sink-Delivered (suc rounds) sends c pipe taking d short =
      let rest = run_sink-Delivered rounds sends in
      let q = queued pipe.buff_list.list in
      let (block, given) = g.block pipe.buff_list.len in
      elim (sink_handler-AfterSend h (sends rounds) c n k p connection end pipe block d g.sized
        g.struct given g.cleared (taking rounds).within) [
          | inl (is_empty, idle) ↦
              let (c', l, run, sent, done_all, d') =
                rest c pipe taking d (ground (arith, is_empty)) in
              (c', l, >>=-done _ idle ∙ run, sent, done_all, d')
          | inr (pos, _) ↦
              let (w, l1, c1, some_taken, run1, d1, left_over, sent1) =
                one_round (sends rounds) c pipe (taking rounds) d pos in
              let (c', l, run, sent, done_all, d') =
                rest c1 (record pipe { buff_list = l1 }) taking d1
                  (omega (arith, ap length left_over, length-drop w q)) in
              (
                c',
                l,
                >>=-done _ run1 ∙ run,
                sent
                    ∙ rw (sent1, left_over)
                        (append_assoc (c.out connection.sock_fd) (take w q) (drop w q)
                          ∙ ap (λ x. c.out connection.sock_fd ++ x) (take-append-drop w q)),
                done_all,
                d',
              )
        ]

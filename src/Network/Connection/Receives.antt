-- ===== src/Network/Connection/Receives.antt =====
-- src/network/xps_connection.c: what the handler of a connection's source does with what it receives.
use nw_lab.Buffer.{Buffer, buffer_create_lem, contents, IsBuffer}
use nw_lab.Buffer.Lists.{BufferList}
use nw_lab.Buffer.Queued.{queued, IsQueue}
use nw_lab.Core.Pipe.{Pipe, End, put}
use nw_lab.Core.Pipe.Flow.{source_write-Written, bind_deref}
use nw_lab.Core.Pipe.Links.{Linked}
use nw_lab.Core.Pipe.Ready.{set_source_ready_lem}
use nw_lab.Core.Pipe.Transfer.{set_list}
use nw_lab.Memory.{Sized, memcpy, memcpy_fill}
use nw_lab.Network.Structs.{Connection, CoreState, store_of, with_store}
use nw_lab.Network.Connection.{
  Handling, Received, recv_again, recv_error, recv_bytes, forward, on_filled, receive, on_received,
  connection_destroy, source_handler,
}
use nw_lab.Prelude.{
  ℕ, ◌≤◌, ◌<◌, ◌≡◌, refl, ap, ◌∙◌, ◌⊎◌, inl, inr, true, false, Bytes, ◌++◌, some, Exec, done, ◌==◌,
  length, take, arith, Bool-cases, >>=-done,
}

-- A connection whose source is `i`, with a pipe that holds a well-formed queue.
pub record IsFilling (c : CoreState) (n i p : ℕ) (connection : Connection) (source : End)
    (pipe : Pipe) : Type 0 where
  pub linked : Linked (store_of c)
  pub connection_is : c.connection_at n ≡ some connection
  pub source_is : connection.source ≡ i
  pub end_is : (store_of c).source_at i ≡ some source
  pub owner_is : source.owner ≡ n
  pub pipe_is : (store_of c).pipe_at p ≡ some pipe
  pub has : pipe.source ≡ some i
  pub queue : IsQueue pipe.buff_list

-- The two allocations of the handler succeed.
pub record IsGiven (h : Handling) (block copied : Bytes) : Type 0 where
  pub sized : Sized h.buff
  pub struct : h.buff.struct ≡ true
  pub block_is : h.buff.block 100000 ≡ some block
  pub copy_sized : Sized h.copy
  pub copy_struct : h.copy.struct ≡ true
  pub copied_is : h.copy.block 100000 ≡ some copied
  pub grown : h.grown ≡ true

module _ (h : Handling) (c : CoreState) (n p : ℕ) (connection : Connection) (source : End)
    (pipe : Pipe) where
  -- What the handler leaves, by what `recv` answered.
  abbrev pub AfterReceive : Received → Exec CoreState → Type 0
  AfterReceive recv_again m =
      m
      ≡ done (
          with_store
            (record (store_of c) {
              source_at =
                  put (store_of c).source_at connection.source
                    (some (record source { ready = false }));
            })
            c)
  AfterReceive recv_error m = m ≡ connection_destroy h.deleted n c
  AfterReceive (recv_bytes bytes) m =
      ((length bytes ≡ 0) × (m ≡ connection_destroy h.deleted n c))
      ⊎ ((0 < length bytes)
          × (pipe.buff_thresh ≤ pipe.buff_list.len)
          × (m ≡ connection_destroy h.deleted n c))
      ⊎ ((0 < length bytes)
          × (pipe.buff_list.len < pipe.buff_thresh)
          × (l : BufferList) × (m ≡ done (with_store (set_list p pipe l (store_of c)) c))
          × IsQueue l
          × (queued l.list ≡ queued pipe.buff_list.list ++ bytes)
          × Linked (set_list p pipe l (store_of c)))

  forward_lem :
      (i : ℕ) (block copied : Bytes) (buff : Buffer)
      → IsFilling c n i p connection source pipe
      → IsGiven h block copied
      → IsBuffer buff
      → buff.size ≡ 100000
      → 0 < length (contents buff)
      → AfterReceive (recv_bytes (contents buff)) (forward h n connection buff c)
  unfolding forward
  forward_lem i block copied buff d g is_buffer size pos =
      elim (source_write-Written h.copy (store_of c) p connection.source pipe buff copied d.linked
        d.pipe_is (rw d.source_is d.has) d.queue is_buffer (omega (arith, size)) g.copy_sized
        g.copy_struct (rw size g.copied_is)) [
          | inl (low, (l, run, is_queue, bytes, linked)) ↦
              inr (inr (pos, low, l, rw g.grown (>>=-done _ run), is_queue, bytes, linked))
          | inr (full, run) ↦ inr (inl (pos, full, rw g.grown (>>=-done _ run)))
        ]

  on_received-AfterReceive :
      (i : ℕ) (block copied : Bytes) (answer : Received)
      → IsFilling c n i p connection source pipe
      → IsGiven h block copied
      → ((bytes : Bytes) → answer ≡ recv_bytes bytes → length bytes ≤ 100000)
      → AfterReceive answer (
          on_received h answer n connection
            (record { size = 100000; len = 0; pos = 0; data_block = block })
            c)
  unfolding on_received on_filled
  on_received-AfterReceive i block copied recv_again d g within =
      >>=-done _
        (set_source_ready_lem connection.source false (store_of c) source (rw d.source_is d.end_is))
  on_received-AfterReceive i block copied recv_error d g within = refl
  on_received-AfterReceive i block copied (recv_bytes bytes) d g within =
      elim (Bool-cases (length bytes == 0)) [
        | inl nothing ↦ inl (ground arith, start ∙ closes nothing)
        | inr something ↦
            let pos : 0 < length (contents filled) = rw fill.2 (ground arith) in
            let sent = forward_lem i block copied filled d g is_buffer refl pos in
            rw (start ∙ goes_on something) (rw fill.2 at sent)
      ]
    where
      long : length block ≡ 100000
      long = g.sized 100000 block g.block_is

      fill :
          (out : Bytes) × (memcpy block 0 bytes 0 (length bytes) ≡ done out)
          × (take (length bytes) out ≡ bytes)
          × (length out ≡ length block)
      fill = memcpy_fill block bytes (omega (arith, long, within bytes refl))

      filled : Buffer
      filled = record { size = 100000; len = length bytes; pos = 0; data_block = fill.0 }

      start :
          on_received h
            (recv_bytes bytes)
            n
            connection
            (record { size = 100000; len = 0; pos = 0; data_block = block })
            c
          ≡ on_filled h n connection filled c
      start = >>=-done _ fill.1

      closes :
          (length bytes == 0) ≡ true
          → on_filled h n connection filled c ≡ connection_destroy h.deleted n c
      closes nothing = rw (nothing, on_filled) refl

      goes_on :
          (length bytes == 0) ≡ false
          → on_filled h n connection filled c ≡ forward h n connection filled c
      goes_on something = rw (something, on_filled) refl

      is_buffer : IsBuffer filled
      is_buffer = record { len_le = within bytes refl; size_le = omega (arith, fill.3, long) }

-- The handler of a connection's source, whose pipe holds a well-formed queue, where the allocations
-- succeed and `recv` stays within the block. Where the socket would block, the source is not ready any
-- more. At an error, at the end of the stream, and where the pipe is at its threshold or above, the
-- connection is destroyed. Else what was received goes to the end of the pipe's queue, nothing else
-- changes, and the links stay mutual.
pub source_handler-AfterReceive :
    (h : Handling) (answer : Received) (c : CoreState) (n i p : ℕ) (connection : Connection)
    (source : End) (pipe : Pipe) (block copied : Bytes)
    → IsFilling c n i p connection source pipe
    → IsGiven h block copied
    → ((bytes : Bytes) → answer ≡ recv_bytes bytes → length bytes ≤ 100000)
    → AfterReceive h c n p connection source pipe answer (source_handler h answer i c)
unfolding source_handler receive
source_handler-AfterReceive h answer c n i p connection source pipe block copied d g within =
    rw start
      (on_received-AfterReceive h c n p connection source pipe i block copied answer d g within)
  where
    buff : Buffer
    buff = record { size = 100000; len = 0; pos = 0; data_block = block }

    start : source_handler h answer i c ≡ on_received h answer n connection buff c
    start =
        bind_deref ((store_of c).source_at i) source _ d.end_is
        ∙ >>=-done _ (buffer_create_lem h.buff 100000 0 block (omega arith) g.struct g.block_is)
        ∙ ap (λ o. receive h answer o (some buff) c) d.owner_is
        ∙ bind_deref (c.connection_at n) connection _ d.connection_is

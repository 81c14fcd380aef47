-- ===== src/Core/Pipe/Flow.antt =====
-- src/core/xps_pipe.c: writing to a pipe, reading from it and clearing it.
use nw_lab.Buffer.{Buffer, buffer_duplicate, contents, IsBuffer, buffer_create_lem}
use nw_lab.Buffer.Lists.{BufferList, buffer_list_append}
use nw_lab.Buffer.Queue.{buffer_list_read-take, buffer_list_clear-drop}
use nw_lab.Buffer.Queued.{queued, IsQueue, buffer_list_append-IsQueue}
use nw_lab.Core.Pipe.{deref, Pipe, Store, is_writable}
use nw_lab.Core.Pipe.Transfer.{
  read_from, clear_in, set_list, write_to, source_write, sink_read, sink_clear,
}
use nw_lab.Core.Pipe.Links.{Linked, Mutual-same, link_of-kept, linked_end}
use nw_lab.Memory.{Alloc, Sized, memcpy_front}
use nw_lab.Prelude.{
  ◌>>=◌, Bytes, ℕ, ◌+◌, ◌≤◌, ◌<◌, ◌≡◌, refl, ap, ◌∙◌, ◌⊎◌, inl, inr, Bool, true, Option, none, some,
  Exec, done, Mallocs, ◌++◌, take, drop, arith, ltb, Bool-cases, ltb→lt, lt→ltb,
}
use nw_lab.Status.{ok, e_fail}

set_list-Linked :
    (s : Store) (p : ℕ) (pipe : Pipe) (l : BufferList)
    → Linked s
    → s.pipe_at p ≡ some pipe
    → Linked (set_list p pipe l s)
set_list-Linked s p pipe l linked at_p = record {
  sources =
      Mutual-same _ _ _ _ linked.sources (link_of-kept (λ x. x.source) s.pipe_at p _ (rw at_p))
        (λ j. refl);
  sinks =
      Mutual-same _ _ _ _ linked.sinks (link_of-kept (λ x. x.sink) s.pipe_at p _ (rw at_p))
        (λ j. refl);
}

buffer_duplicate-contents :
    (a : Alloc) (buff : Buffer) (block : Bytes)
    → IsBuffer buff
    → 0 < buff.size
    → Sized a
    → a.struct ≡ true
    → a.block buff.size ≡ some block
    → (dup : Buffer) × (buffer_duplicate a buff ≡ done (some dup))
      × (contents dup ≡ contents buff)
      × IsBuffer dup
unfolding buffer_duplicate
buffer_duplicate-contents a buff block v pos sized s e =
    let long = sized buff.size block e in
    let (out, copied, front, same) =
      memcpy_front block 0 buff.data_block buff.len (omega (arith, v.len_le))
        (omega (arith, v.len_le, v.size_le)) in
    let zero_more : buff.len ≡ 0 + buff.len = omega arith in
    (
      record { size = buff.size; len = buff.len; pos = buff.pos; data_block = out },
      rw (buffer_create_lem a buff.size buff.len block pos s e) (rw copied),
      ap (λ n. take n out) zero_more ∙ front,
      record { len_le = v.len_le; size_le = omega arith },
    )

pub bind_deref :
    {A B : Type 0} (o : Option A) (a : A) (f : A → Exec B) → o ≡ some a → (deref o >>= f) ≡ f a
bind_deref o a f e = rw e

module _ (s : Store) (p i : ℕ) (pipe : Pipe) (linked : Linked s)
    (at_p : s.pipe_at p ≡ some pipe) where
  -- The pipe that an end of it works on.
  source_write_at :
      (a : Alloc) (grown : Bool) (buff : Buffer)
      → pipe.source ≡ some i
      → source_write a grown i buff s ≡ write_to a grown p pipe buff s
  unfolding source_write
  source_write_at a grown buff has =
      let (source, at_i, back) =
        linked_end (λ x. x.pipe) (s.source_at i) ((linked.sources p i).0 (rw at_p has)) in
      bind_deref (s.source_at i) source _ at_i ∙ rw back (bind_deref (s.pipe_at p) pipe _ at_p)

  sink_read_at :
      (a : Alloc) (len : ℕ)
      → pipe.sink ≡ some i
      → 0 < len
      → sink_read a i len s ≡ read_from a pipe len
  unfolding sink_read
  sink_read_at a len has pos =
      let (sink, at_i, back) =
        linked_end (λ x. x.pipe) (s.sink_at i) ((linked.sinks p i).0 (rw at_p has)) in
      let asked = lt→ltb 0 len pos in
      bind_deref (s.sink_at i) sink _ at_i
      ∙ rw asked (rw back (bind_deref (s.pipe_at p) pipe _ at_p))

  sink_clear_at :
      (grown : Mallocs) (len : ℕ)
      → pipe.sink ≡ some i
      → 0 < len
      → sink_clear grown i len s ≡ clear_in grown p pipe len s
  unfolding sink_clear
  sink_clear_at grown len has pos =
      let (sink, at_i, back) =
        linked_end (λ x. x.pipe) (s.sink_at i) ((linked.sinks p i).0 (rw at_p has)) in
      let asked = lt→ltb 0 len pos in
      bind_deref (s.sink_at i) sink _ at_i
      ∙ rw asked (rw back (bind_deref (s.pipe_at p) pipe _ at_p))

-- What a write to the source `i` of pipe `p` leaves.
abbrev pub Written : Alloc → (p i : ℕ) → Pipe → Buffer → Store → Type 0
Written a p i pipe buff s =
    (l : BufferList) × (source_write a true i buff s ≡ done (ok, set_list p pipe l s))
    × IsQueue l
    × (queued l.list ≡ queued pipe.buff_list.list ++ contents buff)
    × Linked (set_list p pipe l s)

-- A source writes to its pipe, where the allocations succeed: if the pipe is below its threshold,
-- the bytes of the buffer go to the end of the pipe's queue, nothing else of the store changes, and
-- the links stay mutual; else the write fails and nothing changes.
pub source_write-Written :
    (a : Alloc) (s : Store) (p i : ℕ) (pipe : Pipe) (buff : Buffer) (block : Bytes)
    → Linked s
    → s.pipe_at p ≡ some pipe
    → pipe.source ≡ some i
    → IsQueue pipe.buff_list
    → IsBuffer buff
    → 0 < buff.size
    → Sized a
    → a.struct ≡ true
    → a.block buff.size ≡ some block
    → ((pipe.buff_list.len < pipe.buff_thresh) × Written a p i pipe buff s)
      ⊎ ((pipe.buff_thresh ≤ pipe.buff_list.len)
          × (source_write a true i buff s ≡ done (e_fail, s)))
unfolding write_to is_writable
source_write-Written a s p i pipe buff block l at_p has q v pos sized st e =
    elim (Bool-cases (ltb pipe.buff_list.len pipe.buff_thresh)) [
      | inr full ↦
          inr
            (ground arith, source_write_at s p i pipe l at_p a true buff has ∙ rw (full, write_to))
      | inl room ↦
          let (dup, made, same, is_dup) = buffer_duplicate-contents a buff block v pos sized st e in
          let (queue, bytes) = buffer_list_append-IsQueue pipe.buff_list dup q is_dup in
          let l' = buffer_list_append true pipe.buff_list dup in
          inl (
            ltb→lt _ _ room,
            (
              l',
              source_write_at s p i pipe l at_p a true buff has ∙ rw (room, write_to) (rw made),
              queue,
              bytes ∙ ap (◌++◌ (queued pipe.buff_list.list)) same,
              set_list-Linked s p pipe l' l at_p,
            ),
          )
    ]

-- A sink reads from its pipe, where the allocations succeed: it gets the first `len` bytes of the
-- queue, or NULL if the pipe holds fewer.
pub sink_read-take :
    (a : Alloc) (s : Store) (p i len : ℕ) (pipe : Pipe) (block : Bytes)
    → Linked s
    → s.pipe_at p ≡ some pipe
    → pipe.sink ≡ some i
    → IsQueue pipe.buff_list
    → 0 < len
    → Sized a
    → a.struct ≡ true
    → a.block len ≡ some block
    → ((len ≤ pipe.buff_list.len)
        × (b : Buffer) × (sink_read a i len s ≡ done (some b))
        × (contents b ≡ take len (queued pipe.buff_list.list))
        × IsBuffer b)
      ⊎ ((pipe.buff_list.len < len) × (sink_read a i len s ≡ done none))
unfolding read_from
sink_read-take a s p i len pipe block l at_p has q pos sized st e =
    elim (Bool-cases (ltb pipe.buff_list.len len)) [
      | inl short ↦
          inr
            (ltb→lt _ _ short, sink_read_at s p i pipe l at_p a len has pos ∙ rw (short, read_from))
      | inr enough ↦
          let le : len ≤ pipe.buff_list.len = ground arith in
          let (b, run, bytes, is) =
            buffer_list_read-take a pipe.buff_list len block sized q pos le st e in
          inl (
            le,
            b,
            sink_read_at s p i pipe l at_p a len has pos ∙ rw (enough, read_from) run,
            bytes,
            is,
          )
    ]

-- What clearing `len` bytes through the sink `i` of pipe `p` leaves.
abbrev pub Cleared : (p i len : ℕ) → Pipe → Store → Type 0
Cleared p i len pipe s =
    (l : BufferList) × (sink_clear (λ n. true) i len s ≡ done (ok, set_list p pipe l s))
    × IsQueue l
    × (queued l.list ≡ drop len (queued pipe.buff_list.list))
    × Linked (set_list p pipe l s)

-- A sink clears its pipe, where the vectors can grow: the first `len` bytes of the queue are
-- dropped, nothing else of the store changes, and the links stay mutual; if the pipe holds fewer
-- bytes, the call fails and nothing changes.
pub sink_clear-Cleared :
    (s : Store) (p i len : ℕ) (pipe : Pipe)
    → Linked s
    → s.pipe_at p ≡ some pipe
    → pipe.sink ≡ some i
    → IsQueue pipe.buff_list
    → 0 < len
    → ((len ≤ pipe.buff_list.len) × Cleared p i len pipe s)
      ⊎ ((pipe.buff_list.len < len) × (sink_clear (λ n. true) i len s ≡ done (e_fail, s)))
unfolding clear_in
sink_clear-Cleared s p i len pipe l at_p has q pos =
    let (c, l', run, queue, which) =
      buffer_list_clear-drop (λ n. true) pipe.buff_list len q (λ n. refl) in
    elim (Bool-cases (ltb pipe.buff_list.len len)) [
      | inl short ↦ inr (
        ltb→lt _ _ short,
        sink_clear_at s p i pipe l at_p (λ n. true) len has pos ∙ rw (short, clear_in),
      )
      | inr enough ↦ elim which [
        | inl (le, is_ok, bytes) ↦ inl (
          le,
          (
            l',
            sink_clear_at s p i pipe l at_p (λ n. true) len has pos
                ∙ rw (enough, clear_in) (rw run (rw is_ok)),
            queue,
            bytes,
            set_list-Linked s p pipe l' l at_p,
          ),
        )
        | inr (less, _, _) ↦ absurd (ground arith)
      ]
    ]

-- ===== src/Buffer/Queued.antt =====
-- src/utils/xps_buffer.c: a buffer list as a queue of bytes, and `xps_buffer_list_append`.
use nw_lab.Buffer.{Buffer, contents, IsBuffer}
use nw_lab.Buffer.Lists.{BufferList, buffer_list_append}
use nw_lab.Prelude.{
  ◌≡◌, refl, sym, true, List, [], ◌∷◌, ◌++◌, Bytes, Option, none, some, length, length-append,
  length-take, append_assoc, append-nil, arith,
}

-- The bytes that are queued.
abbrev pub queued : List (Option Buffer) → Bytes
queued [] = []
queued (none ∷ bs) = queued bs
queued (some b ∷ bs) = contents b ++ queued bs

-- No NULL in the vector, and each buffer is one.
abbrev pub AllBuffers : List (Option Buffer) → Type 0
AllBuffers [] = Unit {0}
AllBuffers (none ∷ bs) = ⊥
AllBuffers (some b ∷ bs) = IsBuffer b × AllBuffers bs

-- `len` counts the queued bytes.
pub record IsQueue (l : BufferList) : Type 0 where
  pub buffers : AllBuffers l.list
  pub counted : l.len ≡ length (queued l.list)

pub length-contents : (b : Buffer) → IsBuffer b → length (contents b) ≡ b.len
length-contents b v = omega (arith, length-take b.len b.data_block)

pub queued-append : (bs cs : List (Option Buffer)) → queued (bs ++ cs) ≡ queued bs ++ queued cs
queued-append [] cs = refl
queued-append (none ∷ bs) cs = queued-append bs cs
queued-append (some b ∷ bs) cs =
    rw (queued-append bs cs) (sym (append_assoc (contents b) (queued bs) (queued cs)))

pub AllBuffers-append :
    (bs cs : List (Option Buffer)) → AllBuffers bs → AllBuffers cs → AllBuffers (bs ++ cs)
AllBuffers-append [] cs h k = k
AllBuffers-append (none ∷ bs) cs h k = absurd h
AllBuffers-append (some b ∷ bs) cs h k = (h.0, AllBuffers-append bs cs h.1 k)

pub queued-append_one :
    (l : BufferList) (b : Buffer)
    → queued (buffer_list_append true l b).list ≡ queued l.list ++ contents b
unfolding buffer_list_append
queued-append_one l b = rw (queued-append l.list (some b ∷ [])) (rw append-nil)

-- Appending a buffer, where the vector can grow, queues its bytes at the end and keeps the list
-- well-formed.
pub buffer_list_append-IsQueue :
    (l : BufferList) (b : Buffer)
    → IsQueue l
    → IsBuffer b
    → IsQueue (buffer_list_append true l b)
      × (queued (buffer_list_append true l b).list ≡ queued l.list ++ contents b)
unfolding buffer_list_append
buffer_list_append-IsQueue l b q v = (
  record {
    buffers = AllBuffers-append l.list (some b ∷ []) q.buffers (v, tt);
    counted =
        rw (queued-append_one l b) (
          omega
            (arith, q.counted, length-append (queued l.list) (contents b), length-contents b v));
  },
  queued-append_one l b,
)

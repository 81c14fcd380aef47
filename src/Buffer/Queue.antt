-- ===== src/Buffer/Queue.antt =====
-- src/utils/xps_buffer.c: reading from a buffer list and clearing it, as a queue of bytes.
use nw_lab.Buffer.{Buffer, contents, IsBuffer, buffer_create_lem}
use nw_lab.Buffer.Lists.{BufferList, buffer_list_read, clear_loop, buffer_list_clear}
use nw_lab.Memory.{Alloc, Sized, take_all}
use nw_lab.Prelude.{
  ℕ, zero, suc, ◌-◌, ◌≤◌, ◌<◌, ◌≡◌, refl, ◌∙◌, true, false, List, Bytes, Option, some, done,
  Mallocs, ltb, length, take, drop, length-take, length-drop, arith, lt→ltb, ltb→lt, Bool-cases,
  ◌⊎◌, inl, inr,
}
use nw_lab.Status.{Code, ok, e_fail}
use nw_lab.Vec.{vec_filter_null, vec_filter_null_lem, present, all_some}
use nw_lab.Buffer.Queued.{queued, IsQueue}
use nw_lab.Buffer.Rounds.{read_loop_lem, clear_loop_lem}

-- Reading from a well-formed list: a length that is available gives a buffer of just that length
-- with the first bytes queued, whatever the new block held before, unless `malloc` fails; the
-- code never reads or writes outside a block.
pub buffer_list_read-take :
    (a : Alloc) (l : BufferList) (n : ℕ) (block : Bytes)
    → Sized a
    → IsQueue l
    → 0 < n
    → n ≤ l.len
    → a.struct ≡ true
    → a.block n ≡ some block
    → (b : Buffer) × (buffer_list_read a l n ≡ done (some b))
      × (contents b ≡ take n (queued l.list))
      × IsBuffer b
unfolding buffer_list_read
buffer_list_read-take a l n block sized q pos h s e =
    let e0 : n - 0 ≡ n = omega arith in
    let out = take n (queued l.list) in
    let size : length out ≡ n = omega (arith, length-take n (queued l.list), q.counted) in
    (
      record { size = n; len = n; pos = 0; data_block = out },
      rw (lt→ltb 0 n pos, not-ltb l.len n h, buffer_create_lem a n n block pos s e)
          (rw
            (read_loop_lem l.list n 0 block q.buffers (omega arith) (sized n block e)
              (omega (arith, q.counted)))
            (rw e0)),
      take_all n out (omega arith),
      record { len_le = omega arith; size_le = omega arith },
    )
  where
    not-ltb : (a b : ℕ) → b ≤ a → ltb a b ≡ false
    not-ltb a b h = ground arith

clear_run :
    (grown : Mallocs) (l : BufferList) (n : ℕ) {out : List (Option Buffer)}
    → 0 < n
    → n ≤ l.len
    → clear_loop l.list n ≡ done out
    → buffer_list_clear grown l n
      ≡ done (ok, record { list = vec_filter_null grown out; len = l.len - n })
unfolding buffer_list_clear
clear_run grown l n h k run = ground arith

clear_short :
    (grown : Mallocs) (l : BufferList) (n : ℕ)
    → l.len < n
    → buffer_list_clear grown l n ≡ done (e_fail, l)
unfolding buffer_list_clear
clear_short grown l n h = ground arith

-- Clearing from a well-formed list drops exactly the first `n` bytes queued and keeps the list
-- well-formed, where `vec_filter_null` finds room; a length that is not available is refused, and
-- the list is left as it is.
pub buffer_list_clear-drop :
    (grown : Mallocs) (l : BufferList) (n : ℕ)
    → IsQueue l
    → ((i : ℕ) → grown i ≡ true)
    → (c : Code) × (l' : BufferList) × (buffer_list_clear grown l n ≡ done (c, l'))
      × IsQueue l'
      × (((n ≤ l.len) × (c ≡ ok) × (queued l'.list ≡ drop n (queued l.list)))
          ⊎ ((l.len < n) × (c ≡ e_fail) × (l' ≡ l)))
unfolding buffer_list_clear
buffer_list_clear-drop grown l zero q g = (ok, l, refl, q, inl (omega arith, refl, refl))
buffer_list_clear-drop grown l (suc n) q g = elim (Bool-cases (ltb l.len (suc n))) [
  | inl short ↦
      let less : l.len < suc n = ltb→lt l.len (suc n) short in
      (e_fail, l, clear_short grown l (suc n) less, q, inr (less, refl, refl))
  | inr fits ↦
      let enough : suc n ≤ l.len = ground arith in
      let (out, run, buffers, left) =
        clear_loop_lem l.list (suc n) q.buffers (omega (arith, q.counted)) in
      (
        ok,
        record { list = all_some (present out); len = l.len - suc n },
        clear_run grown l (suc n) (omega arith) enough run ∙ rw (vec_filter_null_lem grown out g),
        record {
          buffers = buffers;
          counted = rw left (omega (arith, length-drop (suc n) (queued l.list), q.counted));
        },
        inl (enough, refl, left),
      )
]

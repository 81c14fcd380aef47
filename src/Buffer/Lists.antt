-- ===== src/Buffer/Lists.antt =====
-- The operations on `xps_buffer_list_t`.
use nw_lab.Buffer.{Buffer, buffer_create}
use nw_lab.Memory.{Alloc, memcpy}
use nw_lab.Prelude.{
  ℕ, ◌+◌, ◌-◌, Bool, true, false, List, [], ◌∷◌, Bytes, Option, none, some, Exec, done, fault,
  Mallocs, ◌>>=◌, ◌>>◌, assert, ltb, leb, ◌==◌, if◌then◌else◌,
}
use nw_lab.Status.{Code, ok, e_fail}
use nw_lab.Vec.{vec_push, vec_filter_null}

pub record BufferList : Type 0 where
  pub list : List (Option Buffer)
  pub len : ℕ

abbrev pub buffer_list_create : Bool → Option BufferList
buffer_list_create given = if given then some (record { list = []; len = 0 }) else none

-- `vec_push` may fail to grow; its answer is not looked at.
unfoldable pub buffer_list_append : (grown : Bool) → BufferList → Buffer → BufferList
buffer_list_append grown l buff = record {
  list = vec_push grown l.list (some buff);
  len = l.len + buff.len;
}

-- The loop of `xps_buffer_list_read`, with `buff->data` and `curr_len` as its state.
unfoldable pub read_loop : List (Option Buffer) → (len curr_len : ℕ) → Bytes → Exec Bytes
read_loop [] len curr_len dst = done dst
read_loop (none ∷ bs) len curr_len dst = if ltb curr_len len then fault else done dst
read_loop (some b ∷ bs) len curr_len dst = elim (ltb curr_len len) [
  | false ↦ done dst
  | true ↦ elim (leb (curr_len + b.len) len) [
    | true ↦ memcpy dst curr_len b.data_block 0 b.len >>= λ dst'.
        read_loop bs len (curr_len + b.len) dst'
    | false ↦ memcpy dst curr_len b.data_block 0 (len - curr_len) >>= λ dst'.
        read_loop bs len (curr_len + (len - curr_len)) dst'
  ]
]

read_into : BufferList → ℕ → Option Buffer → Exec (Option Buffer)
read_into l len none = done none
read_into l len (some buff) = do
  block ← read_loop l.list len 0 buff.data_block
  done (some (record buff { data_block = block }))

unfoldable pub buffer_list_read : Alloc → BufferList → ℕ → Exec (Option Buffer)
unfolding read_into
buffer_list_read a l len = do
  assert (ltb 0 len)
  elim (ltb l.len len) [
    | true ↦ done none
    | false ↦ buffer_create a len len none >>= read_into l len
  ]

-- The loop of `xps_buffer_list_clear`: the vector after it, with NULL for each destroyed buffer.
unfoldable pub clear_loop : List (Option Buffer) → ℕ → Exec (List (Option Buffer))
clear_loop [] to_clear = done []
clear_loop (none ∷ bs) to_clear = if ltb 0 to_clear then fault else done (none ∷ bs)
clear_loop (some b ∷ bs) to_clear = elim (ltb 0 to_clear) [
  | false ↦ done (some b ∷ bs)
  | true ↦ elim (leb b.len to_clear) [
    | true ↦ clear_loop bs (to_clear - b.len) >>= λ bs'. done (none ∷ bs')
    | false ↦ memcpy b.data_block 0 b.data_block to_clear (b.len - to_clear) >>= λ moved.
        done (some (record b { data_block = moved; len = b.len - to_clear }) ∷ bs)
  ]
]

unfoldable pub buffer_list_clear : Mallocs → BufferList → ℕ → Exec (Code × BufferList)
buffer_list_clear grown l len = elim (len == 0) [
  | true ↦ done (ok, l)
  | false ↦ elim (ltb l.len len) [
    | true ↦ done (e_fail, l)
    | false ↦ clear_loop l.list len >>= λ bs.
        done (ok, record { list = vec_filter_null grown bs; len = l.len - len })
  ]
]

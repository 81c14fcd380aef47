-- ===== src/Buffer.antt =====
-- src/utils/xps_buffer.c and src/utils/xps_buffer.h: buffers and lists of buffers.
--
-- A buffer is a value: its block, how many bytes of it count (`len`), and `pos` as an offset into
-- the block. Freeing a buffer is the end of its value's use, so that `xps_buffer_destroy` is no
-- function here. A list holds its buffers in a vector, where a NULL stands for a buffer that
-- `xps_buffer_list_clear` has destroyed.
pub mod Rounds
pub mod Queued
pub mod Lists
pub mod Queue
pub mod Tests
use nw_lab.Memory.{Alloc, memcpy}
use nw_lab.Prelude.{
  ℕ, ◌<◌, lt→ltb, ◌≡◌, ◌≤◌, true, false, Bytes, Option, none, some, Exec, done, ◌>>=◌, ◌>>◌, assert,
  ltb, length, take,
}

pub record Buffer : Type 0 where
  pub size : ℕ
  pub len : ℕ
  pub pos : ℕ
  pub data_block : Bytes

abbrev init_buffer : ℕ → ℕ → Option Bytes → Option Buffer
init_buffer size len none = none
init_buffer size len (some block) =
    some (record { size = size; len = len; pos = 0; data_block = block })

-- The block to use: the one given, or what `malloc(size)` answers.
abbrev block_or_malloc : Alloc → ℕ → Option Bytes → Option Bytes
block_or_malloc a size none = a.block size
block_or_malloc a size (some block) = some block

unfoldable pub buffer_create : Alloc → (size len : ℕ) → Option Bytes → Exec (Option Buffer)
buffer_create a size len block = do
  assert (ltb 0 size)
  done (elim a.struct [ false ↦ none | true ↦ init_buffer size len (block_or_malloc a size block) ])

duplicate_into : Buffer → Option Buffer → Exec (Option Buffer)
duplicate_into buff none = done none
duplicate_into buff (some dup) = do
  copied ← memcpy dup.data_block 0 buff.data_block 0 dup.len
  done (some (record dup { pos = buff.pos; data_block = copied }))

unfoldable pub buffer_duplicate : Alloc → Buffer → Exec (Option Buffer)
unfolding duplicate_into
buffer_duplicate a buff = do dup ← buffer_create a buff.size buff.len none; duplicate_into buff dup

-- The bytes that a buffer stands for.
abbrev pub contents : Buffer → Bytes
contents b = take b.len b.data_block

pub record IsBuffer (b : Buffer) : Type 0 where
  pub len_le : b.len ≤ b.size
  pub size_le : b.size ≤ length b.data_block

-- What a buffer is created as, where no allocation fails.
pub buffer_create_lem :
    (a : Alloc) (size len : ℕ) (block : Bytes)
    → 0 < size
    → a.struct ≡ true
    → a.block size ≡ some block
    → buffer_create a size len none
      ≡ done (some (record { size = size; len = len; pos = 0; data_block = block }))
unfolding buffer_create
buffer_create_lem a size len block h s e = rw (lt→ltb 0 size h, s, e)

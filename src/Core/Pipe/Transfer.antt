-- ===== src/Core/Pipe/Transfer.antt =====
-- src/core/xps_pipe.c: `xps_pipe_source_write`, `xps_pipe_sink_read`, `xps_pipe_sink_clear`.
use nw_lab.Buffer.{Buffer, buffer_duplicate}
use nw_lab.Buffer.Lists.{BufferList, buffer_list_append, buffer_list_read, buffer_list_clear}
use nw_lab.Core.Pipe.{Pipe, Store, put, deref, is_writable}
use nw_lab.Memory.{Alloc}
use nw_lab.Prelude.{
  ℕ, Bool, true, false, Option, none, some, Exec, done, Mallocs, ◌>>=◌, ◌>>◌, assert, ltb,
}
use nw_lab.Status.{Code, ok, e_fail}

-- The list of a pipe is replaced.
abbrev pub set_list : ℕ → Pipe → BufferList → Store → Store
set_list p pipe l s = record s { pipe_at = put s.pipe_at p (some (record pipe { buff_list = l })) }

append_dup : (grown : Bool) → ℕ → Pipe → Option Buffer → Store → Code × Store
append_dup grown p pipe none s = (e_fail, s)
append_dup grown p pipe (some dup) s =
    (ok, set_list p pipe (buffer_list_append grown pipe.buff_list dup) s)

unfoldable pub write_to : Alloc → (grown : Bool) → ℕ → Pipe → Buffer → Store → Exec (Code × Store)
unfolding append_dup is_writable
write_to a grown p pipe buff s = elim (is_writable pipe) [
  | false ↦ done (e_fail, s)
  | true ↦ buffer_duplicate a buff >>= λ dup. done (append_dup grown p pipe dup s)
]

-- `a` answers the allocations of the duplicate, `grown` the growth of the list.
unfoldable pub source_write :
    Alloc → (grown : Bool) → (source : ℕ) → Buffer → Store → Exec (Code × Store)
unfolding write_to
source_write a grown i buff s = do
  source ← deref (s.source_at i)
  elim source.pipe [
    | none ↦ done (e_fail, s)
    | some p ↦ deref (s.pipe_at p) >>= λ pipe. write_to a grown p pipe buff s
  ]

unfoldable pub read_from : Alloc → Pipe → (len : ℕ) → Exec (Option Buffer)
read_from a pipe len = elim (ltb pipe.buff_list.len len) [
  | true ↦ done none
  | false ↦ buffer_list_read a pipe.buff_list len
]

-- NULL where the sink has no pipe or the pipe has fewer bytes.
unfoldable pub sink_read : Alloc → (sink len : ℕ) → Store → Exec (Option Buffer)
sink_read a i len s = do
  sink ← deref (s.sink_at i)
  assert (ltb 0 len)
  elim sink.pipe [
    | none ↦ done none
    | some p ↦ deref (s.pipe_at p) >>= λ pipe. read_from a pipe len
  ]

abbrev ok_or_fail : Code → Code
ok_or_fail ok = ok
ok_or_fail _ = e_fail

unfoldable pub clear_in : Mallocs → ℕ → Pipe → (len : ℕ) → Store → Exec (Code × Store)
clear_in grown p pipe len s = elim (ltb pipe.buff_list.len len) [
  | true ↦ done (e_fail, s)
  | false ↦ buffer_list_clear grown pipe.buff_list len >>= λ r.
      done (ok_or_fail r.0, set_list p pipe r.1 s)
]

unfoldable pub sink_clear : Mallocs → (sink len : ℕ) → Store → Exec (Code × Store)
sink_clear grown i len s = do
  sink ← deref (s.sink_at i)
  assert (ltb 0 len)
  elim sink.pipe [
    | none ↦ done (e_fail, s)
    | some p ↦ deref (s.pipe_at p) >>= λ pipe. clear_in grown p pipe len s
  ]

-- ===== src/Disk/File/Sends.antt =====
-- src/disk/xps_file.c: what the handler of a file's source sends.
use nw_lab.Buffer.{Buffer, buffer_create_lem, IsBuffer}
use nw_lab.Buffer.Lists.{BufferList}
use nw_lab.Buffer.Queued.{queued, IsQueue}
use nw_lab.Core.Pipe.{Pipe, End, Store}
use nw_lab.Core.Pipe.Flow.{source_write-Written}
use nw_lab.Core.Pipe.Links.{Linked}
use nw_lab.Core.Pipe.Sources.{source_destroy-Linked}
use nw_lab.Core.Pipe.Transfer.{set_list}
use nw_lab.Disk.File.{File, Read, send_read, send_filled, file_destroy, file_source_handler}
use nw_lab.Memory.{Alloc, Sized, memcpy, memcpy_fill}
use nw_lab.Prelude.{
  ℕ, ◌≤◌, ◌<◌, ◌≡◌, ap, ◌∙◌, ◌⊎◌, inl, inr, Bool, true, false, ◌&&◌, ◌||◌, Bytes, ◌++◌, Option,
  none, some, Exec, done, ◌==◌, length, take, arith, Bool-cases, >>=-done,
}

-- What was read goes to the end of the pipe's queue, and the file stays open.
abbrev pub Sent : (p : ℕ) → Pipe → Read → File → Store → Exec (Option File × Store) → Type 0
Sent p pipe read file s m =
    (l : BufferList) × (m ≡ done (some file, set_list p pipe l s))
    × IsQueue l
    × (queued l.list ≡ queued pipe.buff_list.list ++ read.bytes)
    × Linked (set_list p pipe l s)

-- The file is closed: its source is freed.
abbrev pub Closed : File → Store → Exec (Option File × Store) → Type 0
Closed file s m =
    (s' : Store) × (m ≡ done (none, s')) × Linked s' × (s'.source_at file.source ≡ none)

-- Where the allocations succeed and `fread` stays within the block, the handler of the source of a
-- file, whose pipe holds a well-formed queue, returns. At a read error, or at the end of the file
-- with no byte read, the file is closed: its source is freed, and the links stay mutual. Otherwise
-- the file stays open: if the pipe is below its threshold, what was read goes to the end of the
-- pipe's queue, and nothing else of the store changes; else the store is as it was.
pub file_source_handler-Sent :
    (a copy : Alloc) (read : Read) (file : File) (s : Store) (p : ℕ) (pipe : Pipe) (source : End)
    (block copied : Bytes)
    → Linked s
    → s.pipe_at p ≡ some pipe
    → pipe.source ≡ some file.source
    → s.source_at file.source ≡ some source
    → IsQueue pipe.buff_list
    → Sized a
    → Sized copy
    → a.struct ≡ true
    → a.block 100000 ≡ some block
    → copy.struct ≡ true
    → copy.block 100000 ≡ some copied
    → length read.bytes ≤ 100000
    → let m = file_source_handler a copy true read file s in
      let stop = read.error || (length read.bytes == 0 && read.eof) in
      ((stop ≡ true) × Closed file s m)
      ⊎ ((stop ≡ false) × (pipe.buff_list.len < pipe.buff_thresh) × Sent p pipe read file s m)
      ⊎ ((stop ≡ false) × (pipe.buff_thresh ≤ pipe.buff_list.len) × (m ≡ done (some file, s)))
unfolding send_filled file_destroy
file_source_handler-Sent a copy read file s p pipe source block copied l at_p has at_i q sa sc s1 ab
      s2 cb short =
    elim (Bool-cases stop) [
      | inl ends ↦
          let (s', freed, linked, gone) = source_destroy-Linked s file.source source l at_i in
          inl (ends, (s', start ∙ rw (ends, send_filled) (>>=-done _ freed), linked, gone))
      | inr goes ↦
          elim (source_write-Written copy s p file.source pipe filled copied l at_p has q is_buffer
            (omega arith) sc s2 cb) [
              | inl (low, (queue, run, is_queue, bytes, linked)) ↦ inr (
                  inl (
                    goes,
                    low,
                    (
                      queue,
                      start ∙ rw (goes, send_filled) (>>=-done _ run),
                      is_queue,
                      bytes ∙ ap (λ x. queued pipe.buff_list.list ++ x) fill.2,
                      linked,
                    ),
                  ))
              | inr (full, run) ↦
                  inr (inr (goes, full, start ∙ rw (goes, send_filled) (>>=-done _ run)))
            ]
    ]
  where
    stop : Bool
    stop = read.error || (length read.bytes == 0 && read.eof)

    long : length block ≡ 100000
    long = sa 100000 block ab

    fill :
        (out : Bytes) × (memcpy block 0 read.bytes 0 (length read.bytes) ≡ done out)
        × (take (length read.bytes) out ≡ read.bytes)
        × (length out ≡ length block)
    fill = memcpy_fill block read.bytes (omega (arith, long))

    filled : Buffer
    filled = record { size = 100000; len = length read.bytes; pos = 0; data_block = fill.0 }

    is_buffer : IsBuffer filled
    is_buffer = record { len_le = short; size_le = omega (arith, fill.3, long) }

    start : file_source_handler a copy true read file s ≡ send_filled copy true read file filled s
    start =
        unfold file_source_handler send_read in
        >>=-done _ (buffer_create_lem a 100000 0 block (omega arith) s1 ab) ∙ >>=-done _ fill.1

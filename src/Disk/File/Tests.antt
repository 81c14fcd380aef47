-- ===== src/Disk/File/Tests.antt =====
-- Files on concrete input: source 2 writes to pipe 0, which is empty.
use nw_lab.Core.Pipe.{Pipe, End, Store, put}
use nw_lab.Core.Pipe.Links.{Linked}
use nw_lab.Disk.File.{Os, File, Read, file_create, file_source_handler}
use nw_lab.Disk.File.Public.{Tried, file_create-IsPublic}
use nw_lab.Disk.File.Sends.{Sent, Closed, file_source_handler-Sent}
use nw_lab.Memory.{Alloc, Sized}
use nw_lab.Prelude.{
  ℕ, ◌≡◌, ◌<◌, ◌≤◌, refl, ◌⊎◌, inr, Bytes, true, false, ◌&&◌, ◌||◌, ◌==◌, length, [], ◌∷◌, Option,
  none, some, done, codes, arith, replicate, length-replicate,
}
use nw_lab.Text.{NoNul}

abbrev page : Bytes
page = codes "/srv/public/a"

abbrev pub os : Os
os = record {
  realpath = λ p. some page;
  stat = λ p. inr (record { size = 5; others_read = true });
  fopen = λ p. inr 9;
}

abbrev empty_pipe : Pipe
empty_pipe = record {
  source = some 2;
  sink = none;
  buff_list = record { list = []; len = 0 };
  buff_thresh = 1000000;
}

abbrev writer : End
writer = record { pipe = some 0; ready = true; active = true; owner = 7 }

abbrev no_ends : ℕ → Option End
no_ends i = none

abbrev store : Store
store = record {
  pipe_at = put (λ i. none) 0 (some empty_pipe);
  source_at = put no_ends 2 (some writer);
  sink_at = no_ends;
  next = 8;
  pipes = some 0 ∷ [];
  n_null_pipes = 0;
}

store-Linked : Linked store
store-Linked = record { sources = λ p i. ground arith; sinks = λ p i. ground arith }

page-NoNul : (p r : Bytes) → os.realpath p ≡ some r → NoNul r
page-NoNul p r e =
    let same : page ≡ r = cc in
    rw (← same) (
      refl,
      (
        refl,
        (refl, (refl, (refl, (refl, (refl, (refl, (refl, (refl, (refl, (refl, (refl, tt))))))))))),
      ),
    )

file_create-IsPublic_example : Tried os 7 store (file_create os true true 7 (codes "a") store)
file_create-IsPublic_example = file_create-IsPublic os true true 7 (codes "a") store page-NoNul

abbrev zeroed : Alloc
zeroed = record { struct = true; block = λ n. some (replicate n 0) }

zeroed-Sized : Sized zeroed
zeroed-Sized n b e = grind (arith, length-replicate {A = ℕ} n 0)

abbrev file : File
file = record { file_path = page; source = 2; file_struct = 9; size = 5; mime_type = none }

abbrev chunk : Read
chunk = record { bytes = codes "hello"; error = false; eof = false }

file_source_handler-Sent_example :
    let m = file_source_handler zeroed zeroed true chunk file store in
    let stop = chunk.error || (length chunk.bytes == 0 && chunk.eof) in
    ((stop ≡ true) × Closed file store m)
    ⊎ ((stop ≡ false)
        × (empty_pipe.buff_list.len < empty_pipe.buff_thresh)
        × Sent 0 empty_pipe chunk file store m)
    ⊎ ((stop ≡ false)
        × (empty_pipe.buff_thresh ≤ empty_pipe.buff_list.len)
        × (m ≡ done (some file, store)))
file_source_handler-Sent_example =
    file_source_handler-Sent zeroed zeroed chunk file store 0 empty_pipe writer (replicate 100000 0)
      (replicate 100000 0) store-Linked refl refl refl (record { buffers = tt; counted = refl })
      zeroed-Sized zeroed-Sized refl refl refl refl (omega arith)

-- ===== src/Core/Pipe/Tests.antt =====
-- Pipes on a concrete store: pipe 0 with source 1 and sink 2, pipe 5 with neither, source 3 and
-- sink 4 with no pipe.
use nw_lab.Buffer.{Buffer, contents, IsBuffer}
use nw_lab.Buffer.Lists.{BufferList}
use nw_lab.Buffer.Queued.{IsQueue}
use nw_lab.Core.Pipe.{Pipe, End, Store, put, pipe_create}
use nw_lab.Core.Pipe.Creates.{IsPipeMade, pipe_create-IsPipeMade}
use nw_lab.Core.Pipe.Stored.{IsStore}
use nw_lab.Core.Pipe.Transfer.{source_write, sink_read, sink_clear}
use nw_lab.Core.Pipe.Flow.{
  Written, Cleared, source_write-Written, sink_read-take, sink_clear-Cleared,
}
use nw_lab.Core.Pipe.Links.{Linked}
use nw_lab.Memory.{Alloc, Sized}
use nw_lab.Prelude.{
  ℕ, ◌≤◌, ◌<◌, ◌≡◌, refl, ◌⊎◌, true, false, [], ◌∷◌, Option, none, some, done, codes, arith,
  replicate, length-replicate,
}
use nw_lab.Status.{e_fail}

abbrev hello : Buffer
hello = record { size = 8; len = 5; pos = 0; data_block = codes "hello..." }

abbrev list : BufferList
list = record { list = some hello ∷ []; len = 5 }

list-IsQueue : IsQueue list
list-IsQueue = record { buffers = (hello-IsBuffer, tt); counted = refl }
  where
    hello-IsBuffer : IsBuffer hello
    hello-IsBuffer = record { len_le = omega arith; size_le = omega arith }

abbrev full_pipe : Pipe
full_pipe = record { source = some 1; sink = some 2; buff_list = list; buff_thresh = 9 }

abbrev bare_pipe : Pipe
bare_pipe = record { source = none; sink = none; buff_list = list; buff_thresh = 9 }

abbrev bound : End
bound = record { pipe = some 0; ready = true; active = true; owner = 7 }

abbrev unbound : End
unbound = record { pipe = none; ready = false; active = false; owner = 7 }

abbrev no_ends : ℕ → Option End
no_ends i = none

abbrev store : Store
store = record {
  pipe_at = put (put (λ i. none) 0 (some full_pipe)) 5 (some bare_pipe);
  source_at = put (put no_ends 1 (some bound)) 3 (some unbound);
  sink_at = put (put no_ends 2 (some bound)) 4 (some unbound);
  next = 6;
  pipes = some 0 ∷ some 5 ∷ [];
  n_null_pipes = 0;
}

store-Linked : Linked store
store-Linked = record { sources = λ p i. ground arith; sinks = λ p i. ground arith }

abbrev zeroed : Alloc
zeroed = record { struct = true; block = λ n. some (replicate n 0) }

zeroed-Sized : Sized zeroed
zeroed-Sized n b e = grind (arith, length-replicate {A = ℕ} n 0)

hello-IsBuffer : IsBuffer hello
hello-IsBuffer = record { len_le = omega arith; size_le = omega arith }

source_write-Written_example :
    ((5 < 9) × Written zeroed 0 1 full_pipe hello store)
    ⊎ ((9 ≤ 5) × (source_write zeroed true 1 hello store ≡ done (e_fail, store)))
source_write-Written_example =
    source_write-Written zeroed store 0 1 full_pipe hello (replicate 8 0) store-Linked refl refl
      list-IsQueue hello-IsBuffer (omega arith) zeroed-Sized refl refl

sink_read-take_example :
    ((3 ≤ 5)
      × (b : Buffer) × (sink_read zeroed 2 3 store ≡ done (some b))
      × (contents b ≡ codes "hel")
      × IsBuffer b)
    ⊎ ((5 < 3) × (sink_read zeroed 2 3 store ≡ done none))
sink_read-take_example =
    sink_read-take zeroed store 0 2 3 full_pipe (replicate 3 0) store-Linked refl refl list-IsQueue
      (omega arith) zeroed-Sized refl refl

sink_clear-Cleared_example :
    ((3 ≤ 5) × Cleared 0 2 3 full_pipe store)
    ⊎ ((5 < 3) × (sink_clear (λ n. true) 2 3 store ≡ done (e_fail, store)))
sink_clear-Cleared_example =
    sink_clear-Cleared store 0 2 3 full_pipe store-Linked refl refl list-IsQueue (omega arith)

store-IsStore : IsStore store
store-IsStore = record {
  linked = store-Linked;
  unused =
      λ j le. record { pipe_is = ground arith; source_is = ground arith; sink_is = ground arith };
}

pipe_create-IsPipeMade_example :
    (r : Option ℕ × Store) × (pipe_create (λ i. true) true 100 3 4 store ≡ done r)
    × IsPipeMade (λ i. true) 3 4 store r.0 r.1
pipe_create-IsPipeMade_example =
    pipe_create-IsPipeMade true 100 3 4 store unbound unbound store-IsStore refl refl refl refl
      (λ i. true) (omega arith)

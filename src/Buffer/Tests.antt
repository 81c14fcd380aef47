-- ===== src/Buffer/Tests.antt =====
-- The buffer list of src/utils/xps_buffer.c on concrete input.
use nw_lab.Buffer.{Buffer, contents, IsBuffer}
use nw_lab.Buffer.Lists.{BufferList, buffer_list_read}
use nw_lab.Buffer.Queue.{buffer_list_read-take}
use nw_lab.Buffer.Queued.{IsQueue}
use nw_lab.Memory.{Alloc, Sized}
use nw_lab.Prelude.{ℕ, zero, suc, ◌≡◌, refl, true, Bytes, [], ◌∷◌, some, done, codes, arith, length}

abbrev hello : Buffer
hello = record { size = 8; len = 5; pos = 0; data_block = codes "hello..." }

abbrev world : Buffer
world = record { size = 6; len = 6; pos = 0; data_block = codes " world" }

abbrev two_buffers : BufferList
two_buffers = record { list = some hello ∷ some world ∷ []; len = 11 }

hello-IsBuffer : IsBuffer hello
hello-IsBuffer = record { len_le = omega arith; size_le = omega arith }

world-IsBuffer : IsBuffer world
world-IsBuffer = record { len_le = omega arith; size_le = omega arith }

two_buffers-IsQueue : IsQueue two_buffers
two_buffers-IsQueue = record { buffers = (hello-IsBuffer, (world-IsBuffer, tt)); counted = refl }

zeros : ℕ → Bytes
zeros zero = []
zeros (suc n) = 0 ∷ zeros n

length-zeros : (n : ℕ) → length (zeros n) ≡ n
unfolding zeros
length-zeros zero = refl
length-zeros (suc n) = omega (arith, length-zeros n)

abbrev zeroed : Alloc
zeroed = record { struct = true; block = λ n. some (zeros n) }

zeroed-Sized : Sized zeroed
zeroed-Sized n b e = grind (arith, length-zeros n)

buffer_list_read-take_example :
    (b : Buffer) × (buffer_list_read zeroed two_buffers 7 ≡ done (some b))
    × (contents b ≡ codes "hello w")
    × IsBuffer b
buffer_list_read-take_example =
    buffer_list_read-take zeroed two_buffers 7 (zeros 7) zeroed-Sized two_buffers-IsQueue
      (omega arith) (omega arith) refl refl

-- ===== src/Http/Headers/Serialize.antt =====
-- What `xps_http_serialize_headers` writes, and when it writes outside its block.
use nw_lab.Http.Headers.{
  KeyVal, key_val, header_line, TextBuffer, append_text, make_room, append_header, serialize_from,
  serialize_headers, default_buffer_size,
}
use nw_lab.Prelude.{
  ℕ, ◌+◌, ◌-◌, ◌*◌, ◌≤◌, ◌<◌, ◌≡◌, ◌∙◌, true, Bytes, List, [], ◌∷◌, ◌++◌, some, done, fault,
  Mallocs, ltb, length, arith, length-append, append_assoc, Bool-cases, inl, inr, append-nil,
}

-- Key and value of each header.
abbrev pub pairs : List (Bytes × Bytes) → List KeyVal
pairs [] = []
pairs ((k, v) ∷ hs) = key_val k v ∷ pairs hs

-- The header lines one after the other.
abbrev pub header_text : List (Bytes × Bytes) → Bytes
header_text [] = []
header_text ((k, v) ∷ hs) = header_line k v ++ header_text hs

-- No line is longer than the block at the start.
abbrev pub Short : List (Bytes × Bytes) → Type 0
Short [] = Unit {0}
Short ((k, v) ∷ hs) = (length k + length v + 5 ≤ default_buffer_size) × Short hs

pub length-header_line : (k v : Bytes) → length (header_line k v) + 1 ≡ length k + length v + 5
length-header_line k v = omega (
  arith,
  length-append k (b':' ∷ b' ' ∷ (v ++ (b'\r' ∷ b'\n' ∷ []))),
  length-append v (b'\r' ∷ b'\n' ∷ []),
)

-- Doubling once makes room for a short line, and the line is appended whole.
append_header_lem :
    (k v : Bytes) (b : TextBuffer)
    → default_buffer_size ≤ b.size
    → length b.text ≤ b.size
    → length k + length v + 5 ≤ default_buffer_size
    → (size : ℕ) × (append_header true (key_val k v) b
        ≡ done (some (record { size = size; text = b.text ++ header_line k v })))
      × (default_buffer_size ≤ size)
      × (length (b.text ++ header_line k v) ≤ size)
unfolding append_header make_room append_text
append_header_lem k v b s l h =
    elim (Bool-cases (ltb (b.size - length b.text) (length k + length v + 5))) [
      | inl small ↦ (
        b.size * 2,
        ground (arith, length-header_line k v),
        omega arith,
        omega (arith, length-header_line k v, length-append b.text (header_line k v)),
      )
      | inr fits ↦ (
        b.size,
        ground (arith, length-header_line k v),
        s,
        ground (arith, length-header_line k v, length-append b.text (header_line k v)),
      )
    ]

serialize_from_lem :
    (given : Mallocs) (i : ℕ) (hs : List (Bytes × Bytes)) (b : TextBuffer)
    → ((n : ℕ) → given n ≡ true)
    → default_buffer_size ≤ b.size
    → length b.text ≤ b.size
    → Short hs
    → (size : ℕ) × (serialize_from given i (pairs hs) b
        ≡ done (some (record { size = size; text = b.text ++ header_text hs })))
unfolding serialize_from
serialize_from_lem given i [] b g s l h = (b.size, rw append-nil)
serialize_from_lem given i ((k, v) ∷ hs) b g s l h =
    let (size, run, s', l') = append_header_lem k v b s l h.0 in
    let (last, later) =
      serialize_from_lem given (i + 1) hs (record { size = size; text = b.text ++ header_line k v })
        g s' l' h.1 in
    (last, rw (g i, run) (later ∙ rw append_assoc))

-- Where the allocations succeed and no header line needs more than 100000 bytes, the headers are
-- written one after the other as "key: val" and CR LF, and nothing is written outside the block,
-- however often that grows.
pub serialize_headers-header_text :
    (given : Mallocs) (hs : List (Bytes × Bytes))
    → ((n : ℕ) → given n ≡ true)
    → Short hs
    → (size : ℕ) × (serialize_headers true true given (pairs hs)
        ≡ done (some (record { size = size; text = header_text hs })))
unfolding serialize_headers
serialize_headers-header_text given hs g h =
    serialize_from_lem given 0 hs (record { size = default_buffer_size; text = [] }) g (omega arith)
      (omega arith) h

-- The block is doubled only once for a line: a first line of more than 200000 bytes overruns it.
pub serialize_headers-overrun :
    (given : Mallocs) (k v : Bytes) (hs : List KeyVal)
    → given 0 ≡ true
    → 2 * default_buffer_size < length k + length v + 5
    → serialize_headers true true given (key_val k v ∷ hs) ≡ fault
unfolding serialize_headers
serialize_headers-overrun given k v hs g h = ground (arith, length-header_line k v)

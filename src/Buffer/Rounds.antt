-- ===== src/Buffer/Rounds.antt =====
-- src/utils/xps_buffer.c: the rounds of the loops of `xps_buffer_list_read` and `xps_buffer_list_clear`.
use nw_lab.Buffer.{Buffer, contents, IsBuffer}
use nw_lab.Buffer.Lists.{read_loop, clear_loop}
use nw_lab.Memory.{
  memcpy, take-append_le, take-append_add, drop-append_add, drop-append_le, take_all, take-take,
  take-drop, memcpy_front, memcpy_tail,
}
use nw_lab.Prelude.{
  ℕ, zero, suc, ◌+◌, ◌-◌, ◌≤◌, ◌<◌, ◌≡◌, refl, sym, ap, ◌∙◌, true, List, [], ◌∷◌, ◌++◌, Bytes,
  Option, none, some, done, ltb, leb, if◌then◌else◌, length, take, drop, length-append,
  append_assoc, append-nil, arith, ltb→lt, leb→le, Bool-cases, ◌⊎◌, inl, inr,
}
use nw_lab.Vec.{present, all_some}
use nw_lab.Buffer.Queued.{queued, AllBuffers, length-contents}

-- One round of the loop of `xps_buffer_list_read` and the rest of it, from the copy it makes.
pub read_loop-step :
    (bs : List (Option Buffer)) (b : Buffer) (len curr n : ℕ) (dst out : Bytes)
    → ltb curr len ≡ true
    → n ≡ (if leb (curr + b.len) len then b.len else len - curr)
    → memcpy dst curr b.data_block 0 n ≡ done out
    → read_loop (some b ∷ bs) len curr dst ≡ read_loop bs len (curr + n) out
unfolding read_loop
read_loop-step bs b len curr n dst out more e c = elim (Bool-cases (leb (curr + b.len) len)) [
  | inl whole ↦
      let en : n ≡ b.len = rw whole at e in
      rw (more, read_loop) (rw (whole, read_loop) (rw (← en, c, read_loop)))
  | inr part ↦
      let en : n ≡ len - curr = rw part at e in
      rw (more, read_loop) (rw (part, read_loop) (rw (← en, c, read_loop)))
]

-- The bytes that one round copies, and those that the later rounds copy.
pub take-queued :
    (b : Buffer) (q : Bytes) (m n : ℕ)
    → IsBuffer b
    → ((n ≡ b.len) × (n ≤ m)) ⊎ ((n ≡ m) × (m ≤ b.len))
    → take n b.data_block ++ take (m - n) q ≡ take m (contents b ++ q)
take-queued b q m n v (inl (e, h)) =
    let em : m ≡ length (contents b) + (m - n) = omega (arith, length-contents b v) in
    sym (
      ap (λ k. take k (contents b ++ q)) em
      ∙ take-append_add (m - n) (contents b) q
      ∙ ap (λ k. take k b.data_block ++ take (m - n) q) (sym e))
take-queued b q m n v (inr (e, h)) =
    let em : m - n ≡ 0 = omega arith in
    rw (em, append-nil)
      (sym (
        take-append_le m (contents b) q (omega (arith, length-contents b v))
        ∙ take-take m b.len b.data_block h
        ∙ ap (λ k. take k b.data_block) (sym e)))

-- What is left to copy once `curr_len` has reached `len`.
pub take-all-append :
    (len curr : ℕ) (dst q : Bytes)
    → length dst ≡ len
    → len ≤ curr
    → dst ≡ take curr dst ++ take (len - curr) q
take-all-append len curr dst q e h =
    let z : len - curr ≡ 0 = omega arith in
    rw (z, append-nil) (sym (take_all curr dst (omega arith)))

pub round_size :
    (len curr k : ℕ)
    → curr < len
    → (n : ℕ) × (n ≡ (if leb (curr + k) len then k else len - curr))
      × (((n ≡ k) × (n ≤ len - curr)) ⊎ ((n ≡ len - curr) × (len - curr ≤ k)))
round_size len curr k h = elim (Bool-cases (leb (curr + k) len)) [
  | inl whole ↦ (k, rw whole, inl (refl, ground arith))
  | inr part ↦ (len - curr, rw part, inr (refl, ground arith))
]

pub read_loop_lem :
    (bs : List (Option Buffer)) (len curr : ℕ) (dst : Bytes)
    → AllBuffers bs
    → curr ≤ len
    → length dst ≡ len
    → len - curr ≤ length (queued bs)
    → read_loop bs len curr dst ≡ done (take curr dst ++ take (len - curr) (queued bs))
unfolding read_loop
read_loop_lem [] len curr dst v h e k = ap done (take-all-append len curr dst [] e (omega arith))
read_loop_lem (none ∷ bs) len curr dst v h e k = absurd v
read_loop_lem (some b ∷ bs) len curr dst v h e k = elim (Bool-cases (ltb curr len)) [
  | inr stop ↦ rw (stop, read_loop) (ap done (take-all-append len curr dst _ e (ground arith)))
  | inl more ↦
      let (n, size, cases) = round_size len curr b.len (ltb→lt curr len more) in
      let bound : n ≤ b.len = omega arith in
      let fits : curr + n ≤ len = omega arith in
      let (out, copied, front, same) =
        memcpy_front dst curr b.data_block n (omega arith)
          (omega (arith, v.0.len_le, v.0.size_le)) in
      let left : len - (curr + n) ≤ length (queued bs) =
        omega (arith, length-append (contents b) (queued bs), length-contents b v.0) in
      let em : len - (curr + n) ≡ len - curr - n = omega arith in
      read_loop-step bs b len curr n dst out more size copied
      ∙ read_loop_lem bs len (curr + n) out v.1 fits (omega arith) left
      ∙ ap done (
          rw (front, em, append_assoc)
            (ap (◌++◌ (take curr dst)) (take-queued b (queued bs) (len - curr) n v.0 cases)))
]

pub drop-nil : (t : ℕ) → drop t (queued []) ≡ []
drop-nil zero = refl
drop-nil (suc t) = refl

pub all_some-present : (bs : List (Option Buffer)) → AllBuffers bs → all_some (present bs) ≡ bs
all_some-present [] v = refl
all_some-present (none ∷ bs) v = absurd v
all_some-present (some b ∷ bs) v = ap (◌∷◌ (some b)) (all_some-present bs v.1)

-- A buffer that loses its first `t` bytes and keeps some.
pub shift-IsBuffer :
    (b : Buffer) (t : ℕ)
    → IsBuffer b
    → t < b.len
    → (moved : Bytes) × (memcpy b.data_block 0 b.data_block t (b.len - t) ≡ done moved)
      × IsBuffer (record b { data_block = moved; len = b.len - t })
      × (take (b.len - t) moved ≡ drop t (contents b))
shift-IsBuffer b t v h =
    let (out, copied, front, same) =
      memcpy_tail b.data_block b.data_block t (b.len - t) (omega (arith, v.len_le, v.size_le))
        (omega (arith, v.len_le, v.size_le)) in
    (
      out,
      copied,
      record { len_le = omega (arith, v.len_le); size_le = omega (arith, v.size_le) },
      front ∙ take-drop t b.len b.data_block (omega arith),
    )

pub clear_loop_lem :
    (bs : List (Option Buffer)) (t : ℕ)
    → AllBuffers bs
    → t ≤ length (queued bs)
    → (out : List (Option Buffer)) × (clear_loop bs t ≡ done out)
      × AllBuffers (all_some (present out))
      × (queued (all_some (present out)) ≡ drop t (queued bs))
unfolding clear_loop
clear_loop_lem [] t v h = ([], refl, tt, sym (drop-nil t))
clear_loop_lem (none ∷ bs) t v h = absurd v
clear_loop_lem (some b ∷ bs) t v h = elim (Bool-cases (ltb 0 t)) [
  | inr stop ↦
      let z : t ≡ 0 = ground arith in
      (
        some b ∷ bs,
        rw (stop, clear_loop),
        rw (all_some-present bs v.1) v,
        rw (z, all_some-present bs v.1),
      )
  | inl more ↦ elim (Bool-cases (leb b.len t)) [
    | inl whole ↦
        let (out, run, buffers, left) = clear_loop_lem bs (t - b.len) v.1 (rest-bound whole) in
        (
          none ∷ out,
          rw (more, clear_loop) (rw (whole, clear_loop) (rw (run, clear_loop))),
          buffers,
          left
              ∙ sym (
                  ap (λ k. drop k (contents b ++ queued bs)) (split-t whole)
                  ∙ drop-append_add (t - b.len) (contents b) (queued bs)),
        )
    | inr part ↦
        let (out, moved, buffer, front) = shift-IsBuffer b t v.0 (ground arith) in
        (
          some (record b { data_block = out; len = b.len - t }) ∷ bs,
          rw (more, clear_loop) (rw (part, clear_loop) (rw (moved, clear_loop))),
          rw (all_some-present bs v.1) (buffer, v.1),
          rw (all_some-present bs v.1, front)
              (sym (
                drop-append_le t (contents b) (queued bs) (ground (arith, length-contents b v.0)))),
        )
  ]
]
  where
    split-t : leb b.len t ≡ true → t ≡ length (contents b) + (t - b.len)
    split-t whole = omega (arith, leb→le b.len t whole, length-contents b v.0)

    rest-bound : leb b.len t ≡ true → t - b.len ≤ length (queued bs)
    rest-bound whole =
        omega (
          arith,
          leb→le b.len t whole,
          length-contents b v.0,
          length-append (contents b) (queued bs),
        )

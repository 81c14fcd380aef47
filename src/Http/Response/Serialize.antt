-- ===== src/Http/Response/Serialize.antt =====
-- src/http/xps_http_res.c: `xps_http_res_serialize`.
use nw_lab.Buffer.{Buffer, contents, IsBuffer, buffer_create_lem}
use nw_lab.Buffer.Queued.{length-contents}
use nw_lab.Http.Headers.Serialize.{pairs, header_text, Short, serialize_headers-header_text}
use nw_lab.Http.Response.{
  HttpRes, put_body, put_response, put_into, serialize_with, http_res_serialize, body_len_of,
}
use nw_lab.Memory.{Alloc, Sized, memcpy_next, memcpy_all}
use nw_lab.Prelude.{
  ℕ, ◌+◌, ◌≡◌, refl, ap, ◌∙◌, sym, true, Bytes, List, [], ◌∷◌, ◌++◌, Option, none, some, inl, inr,
  ltb, Bool-cases, done, Mallocs, length, take, drop, length-append, length-drop, append_assoc,
  append-nil, arith,
}

-- The bytes of a body, none where there is no body.
abbrev pub body_bytes : Option Buffer → Bytes
body_bytes none = []
body_bytes (some body) = contents body

abbrev pub IsBody : Option Buffer → Type 0
IsBody none = Unit {0}
IsBody (some body) = IsBuffer body

no_room : (xs tail : Bytes) → length tail ≡ 0 → xs ++ tail ≡ xs
no_room xs [] e = append-nil xs
no_room xs (x ∷ tail) e = absurd (omega arith)

no_more : (n : ℕ) (tail : Bytes) → length tail ≡ n → length (drop n tail) ≡ 0
no_more n tail e = omega (arith, length-drop n tail)

put_body_lem :
    (xs tail : Bytes) (at : ℕ) (body : Option Buffer)
    → at ≡ length xs
    → IsBody body
    → length tail ≡ body_len_of body
    → put_body (xs ++ tail) at body ≡ done (xs ++ body_bytes body)
unfolding put_body
put_body_lem xs tail at none ea v e = ap done (no_room xs tail e ∙ sym (append-nil xs))
put_body_lem xs tail at (some body) ea v e = elim (Bool-cases (ltb 0 body.len)) [
  | inl more ↦
      rw (more, put_body)
        (memcpy_next xs tail body.data_block at body.len ea (omega (arith, v.len_le, v.size_le))
            (omega arith)
          ∙ ap done (no_room (xs ++ contents body) (drop body.len tail) (no_more body.len tail e)))
  | inr none_left ↦
      let z : body.len ≡ 0 = ground arith in
      rw (none_left, put_body)
        (ap done (
          no_room xs tail (e ∙ z)
          ∙ sym (append-nil xs)
          ∙ ap (λ n. xs ++ take n body.data_block) (sym z)))
]

put_response_lem :
    (block : Bytes) (res : HttpRes) (headers : Bytes)
    → IsBody res.body
    → length block ≡ length res.response_line + length headers + 2 + body_len_of res.body
    → put_response block res headers
      ≡ done (res.response_line ++ (headers ++ (b'\r' ∷ b'\n' ∷ body_bytes res.body)))
unfolding put_response
put_response_lem block res headers v e =
    let line = res.response_line in
    let t1 = drop (length line) block in
    let t2 = drop (length headers) t1 in
    let t3 = drop 1 t2 in
    let t4 = drop 1 t3 in
    let l1 = length-drop (length line) block in
    let l2 = length-drop (length headers) t1 in
    let l3 = length-drop 1 t2 in
    let l4 = length-drop 1 t3 in
    let x2 = line ++ headers in
    let x3 = x2 ++ (b'\r' ∷ []) in
    let x4 = x3 ++ (b'\n' ∷ []) in
    let n2 = length-append line headers in
    let n3 = length-append x2 (b'\r' ∷ []) in
    let n4 = length-append x3 (b'\n' ∷ []) in
    let joined : (x4 ++ body_bytes res.body)
        ≡ line ++ (headers ++ (b'\r' ∷ b'\n' ∷ body_bytes res.body)) =
      simp append_assoc in
    rw (memcpy_all [] block line 0 refl (omega arith)) (
      rw (memcpy_all line t1 headers (length line) refl (omega arith)) (
        rw
          (memcpy_all x2 t2 (b'\r' ∷ []) (length line + length headers) (omega arith) (omega arith))
          (rw
            (memcpy_all x3 t3 (b'\n' ∷ []) (length line + length headers + 1) (omega arith)
              (omega arith))
            (put_body_lem x4 t4 (length line + length headers + 2) res.body (omega arith) v
                (omega arith)
              ∙ ap done joined))))

-- The bytes of a response: its line, its headers, an empty line, its body.
abbrev pub response_bytes : (line : Bytes) → List (Bytes × Bytes) → Option Buffer → Bytes
response_bytes line hs body = line ++ (header_text hs ++ (b'\r' ∷ b'\n' ∷ body_bytes body))

length-response_bytes :
    (line : Bytes) (hs : List (Bytes × Bytes)) (body : Option Buffer)
    → IsBody body
    → length (response_bytes line hs body)
      ≡ length line + length (header_text hs) + 2 + body_len_of body
length-response_bytes line hs none v = omega (
  arith,
  length-append line (header_text hs ++ (b'\r' ∷ b'\n' ∷ [])),
  length-append (header_text hs) (b'\r' ∷ b'\n' ∷ []),
)
length-response_bytes line hs (some body) v = omega (
  arith,
  length-append line (header_text hs ++ (b'\r' ∷ b'\n' ∷ contents body)),
  length-append (header_text hs) (b'\r' ∷ b'\n' ∷ contents body),
  length-contents body v,
)

-- Where the allocations succeed, no header line needs more than 100000 bytes, and the body, if
-- there is one, is a well-formed buffer, a response is written as its line, its headers, an empty
-- line and the bytes of its body, into a block of exactly that length, at position 0.
pub http_res_serialize-response_bytes :
    (given : Mallocs) (a : Alloc) (res : HttpRes) (hs : List (Bytes × Bytes)) (block : Bytes)
    → ((n : ℕ) → given n ≡ true)
    → Sized a
    → a.struct ≡ true
    → res.headers ≡ pairs hs
    → Short hs
    → IsBody res.body
    → a.block (length (response_bytes res.response_line hs res.body)) ≡ some block
    → let bytes = response_bytes res.response_line hs res.body in
      http_res_serialize true true given a res
      ≡ done
          (some (record { size = length bytes; len = length bytes; pos = 0; data_block = bytes }))
unfolding http_res_serialize serialize_with put_into
http_res_serialize-response_bytes given a res hs block g sized s eh short v e =
    let line = res.response_line in
    let bytes = response_bytes line hs res.body in
    let (size, written) = serialize_headers-header_text given hs g short in
    let final_len = length line + length (header_text hs) + 2 + body_len_of res.body in
    let same : final_len ≡ length bytes = sym (length-response_bytes line hs res.body v) in
    let e' : a.block final_len ≡ some block = rw same e in
    rw eh (
      rw written (
        rw (buffer_create_lem a final_len final_len block (omega arith) s e') (
          rw (put_response_lem block res (header_text hs) v (sized final_len block e')) (
            ap (λ n. done (some (record { size = n; len = n; pos = 0; data_block = bytes })))
              same))))
